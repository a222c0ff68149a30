-- ===== src/Base/CString.antt =====
-- C strings: the bytes before the terminating NUL, and `strcmp` against 0.
use Prim.Native.Nat.{ℕ, ◌-◌}
use Prim.Native.Char.{code}
use Prim.Native.String.{String}
use mathlib.Core.Path.{◌≡◌, refl}
use mathlib.Core.Logic.{◌↔◌, ◌≢◌}
use mathlib.Core.Bool.{Bool, true, false, ◌&&◌}
use mathlib.Core.List.{List, [], ◌∷◌, ◌++◌}
use native.Mathlib.Omega.{arith}
use chroot_cbccd.Base.Tests.{◌==◌, if◌then◌else◌}
use chroot_cbccd.Base.Lists.{take}

abbrev pub Text : Type 0
Text = List ℕ

-- The bytes of a literal in the source.
abbrev pub codes : String → Text
codes String.[] = []
codes (String.◌∷◌ c s) = code c ∷ codes s

-- `strcmp(a, b) == 0`
unfoldable pub str_eq : Text → Text → Bool
str_eq [] [] = true
str_eq [] (y ∷ ys) = false
str_eq (x ∷ xs) [] = false
str_eq (x ∷ xs) (y ∷ ys) = (x == y) && str_eq xs ys

pub str_eq→eq : (a b : Text) → str_eq a b ≡ true → a ≡ b
unfolding str_eq
str_eq→eq [] [] h = refl
str_eq→eq [] (y ∷ ys) h = cc
str_eq→eq (x ∷ xs) [] h = cc
str_eq→eq (x ∷ xs) (y ∷ ys) h = ground (arith, str_eq→eq xs ys)

pub str_eq_refl : (a : Text) → str_eq a a ≡ true
unfolding str_eq
str_eq_refl [] = refl
str_eq_refl (x ∷ xs) = ground (arith, str_eq_refl xs)

pub str_eq_iff : (a b : Text) → (str_eq a b ≡ true) ↔ (a ≡ b)
str_eq_iff a b = (str_eq→eq a b, λ e. rw e (str_eq_refl b))

-- `snprintf(dst, s, "%s", text)`: what the array of `s` bytes holds afterwards.
abbrev pub snprintf : ℕ → Text → Text
snprintf s text = take (s - 1) text

-- The C string that starts an array of bytes.
abbrev pub c_string : List ℕ → Text
c_string [] = []
c_string (b ∷ bs) = if b == 0 then [] else b ∷ c_string bs

-- No NUL among the bytes.
abbrev pub NoNul : Text → Type 0
NoNul [] = Unit {0}
NoNul (b ∷ bs) = (b ≢ 0) × NoNul bs

pub c_string-append : (t rest : Text) → NoNul t → c_string (t ++ (0 ∷ rest)) ≡ t
c_string-append [] rest h = refl
c_string-append (b ∷ bs) rest h = ground (arith, c_string-append bs rest h.1)
