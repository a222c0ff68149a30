-- ===== src/Base/Results.antt =====
-- What every defined result of a chain of fallible steps has.
use mathlib.Core.Path.{◌≡◌, refl}
use mathlib.Core.Option.{Option, none, some}
use chroot_cbccd.Base.Tests.{◌>>=◌}

abbrev pub Ensures {ℓ κ} : {A : Type ℓ} → (A → Type κ) → Option A → Type κ
Ensures P none = Unit
Ensures P (some a) = P a

-- The rule for a step that is followed by others.
pub bind-Ensures {ℓ κ μ} :
    {A : Type ℓ} {B : Type κ} (P : B → Type μ) (m : Option A) (f : A → Option B)
    → ((a : A) → m ≡ some a → Ensures P (f a))
    → Ensures P (m >>= f)
bind-Ensures P none f h = tt
bind-Ensures P (some a) f h = h a refl

pub Ensures-some {ℓ κ} :
    {A : Type ℓ} (P : A → Type κ) (m : Option A) (a : A) → Ensures P m → m ≡ some a → P a
Ensures-some P none a h e = absurd (cc (e))
Ensures-some P (some b) a h e = let same : b ≡ a = cc (e) in rw (← same) h

-- A step that gives nothing or something.
pub split-Ensures {ℓ κ μ} :
    {A : Type ℓ} {B : Type κ} (P : B → Type μ) (m : Option (Option A)) (f : Option A → Option B)
    → Ensures P (f none)
    → ((a : A) → Ensures P (f (some a)))
    → Ensures P (m >>= f)
split-Ensures P none f no_value value = tt
split-Ensures P (some none) f no_value value = no_value
split-Ensures P (some (some a)) f no_value value = value a
