-- ===== src/Admin/Slots.antt =====
-- The slots of remove_old_auto_backup_infos: the lowest of them, and one that is replaced.
use chroot_cbccd.Base.{
  ℕ, zero, suc, ◌+◌, ◌≤◌, ◌<◌, ◌≡◌, refl, Bool, ◌⊎◌, some, List, [], ◌∷◌, arith, inl, inr, ltb,
  length, get_elem?, if◌then◌else◌, Bool-cases,
}
use chroot_cbccd.Admin.Auto.Deletion.{TsInfo, lower_from, get_lower_val_idx, replace_at}

-- How many entries pass a test.
abbrev pub count : (TsInfo → Bool) → List TsInfo → ℕ
count f [] = 0
count f (s ∷ ss) = (if f s then 1 else 0) + count f ss

abbrev pub AllFrom : ℕ → List TsInfo → Type 0
AllFrom low [] = Unit {0}
AllFrom low (s ∷ ss) = (low ≤ s.timestamp) × AllFrom low ss

-- No entry of the first list is newer than one of the second.
abbrev pub AllOlder : List TsInfo → List TsInfo → Type 0
AllOlder [] ss = Unit {0}
AllOlder (r ∷ rs) ss = AllFrom r.timestamp ss × AllOlder rs ss

pub AllFrom-le : (a b : ℕ) (ss : List TsInfo) → a ≤ b → AllFrom b ss → AllFrom a ss
AllFrom-le a b [] h k = tt
AllFrom-le a b (s ∷ ss) h k = (omega (arith, h, k.0), AllFrom-le a b ss h k.1)

-- The entry at an index, and what is known of it: it is the lowest.
abbrev pub Lowest : List TsInfo → ℕ → Type 0
Lowest ss i = (s : TsInfo) × (get_elem? ss i ≡ some s) × AllFrom s.timestamp ss

-- The minimum of a value and of the entries, with the index that was given for the value.
abbrev Found : List TsInfo → ℕ → ℕ → ℕ → ℕ → Type 0
Found ss i val idx r =
    ((r ≡ idx) × AllFrom val ss)
    ⊎ ((j : ℕ) × (r ≡ i + j)
        × (s : TsInfo) × (get_elem? ss j ≡ some s)
        × (s.timestamp < val)
        × AllFrom s.timestamp ss)

lower_from-Found : (ss : List TsInfo) (i val idx : ℕ) → Found ss i val idx (lower_from ss i val idx)
unfolding lower_from
lower_from-Found [] i val idx = inl (refl, tt)
lower_from-Found (s ∷ ss) i val idx = elim (Bool-cases (ltb s.timestamp val)) [
  | inl y ↦ rw y (elim (lower_from-Found ss (i + 1) s.timestamp i) [
    | inl (e, k) ↦ inr (0, omega (arith, e), s, refl, ground (arith, y), (omega arith, k))
    | inr (j, e, t, f, l, k) ↦
        inr (suc j, omega (arith, e), t, f, ground (arith, y, l), (omega (arith, l), k))
  ])
  | inr n ↦ rw n (elim (lower_from-Found ss (i + 1) val idx) [
    | inl (e, k) ↦ inl (e, (ground (arith, n), k))
    | inr (j, e, t, f, l, k) ↦ inr (suc j, omega (arith, e), t, f, l, (ground (arith, n, l), k))
  ])
]

pub get_lower_val_idx-Lowest :
    (s : TsInfo) (ss : List TsInfo)
    → (i : ℕ) × (get_lower_val_idx (s ∷ ss) ≡ some i) × Lowest (s ∷ ss) i
unfolding get_lower_val_idx
get_lower_val_idx-Lowest s ss = elim (lower_from-Found ss 1 s.timestamp 0) [
  | inl (e, k) ↦ (0, rw e refl, (s, refl, (omega arith, k)))
  | inr (j, e, t, f, l, k) ↦
      let next : lower_from ss 1 s.timestamp 0 ≡ suc j = omega (arith, e) in
      (suc j, rw next refl, (t, f, (omega (arith, l), k)))
]

pub AllFrom-at :
    (low : ℕ) (ss : List TsInfo) (i : ℕ) (s : TsInfo)
    → AllFrom low ss
    → get_elem? ss i ≡ some s
    → low ≤ s.timestamp
AllFrom-at low [] i s k e = absurd (cc)
AllFrom-at low (t ∷ ss) zero s k e = let same : t ≡ s = cc in rw same at k.0
AllFrom-at low (t ∷ ss) (suc i) s k e = AllFrom-at low ss i s k.1 e

module _ (p : TsInfo) where
  pub AllFrom-replace :
      (low : ℕ) (ss : List TsInfo) (i : ℕ)
      → low ≤ p.timestamp
      → AllFrom low ss
      → AllFrom low (replace_at i p ss)
  unfolding replace_at
  AllFrom-replace low [] i h k = tt
  AllFrom-replace low (t ∷ ss) zero h k = (h, k.1)
  AllFrom-replace low (t ∷ ss) (suc i) h k = (k.0, AllFrom-replace low ss i h k.1)

  pub length-replace : (ss : List TsInfo) (i : ℕ) → length (replace_at i p ss) ≡ length ss
  unfolding replace_at
  length-replace [] i = refl
  length-replace (t ∷ ss) zero = refl
  length-replace (t ∷ ss) (suc i) = rw (length-replace ss i) refl

  pub count-replace :
      (f : TsInfo → Bool) (ss : List TsInfo) (i : ℕ) (s : TsInfo)
      → get_elem? ss i ≡ some s
      → count f (s ∷ replace_at i p ss) ≡ count f (p ∷ ss)
  unfolding replace_at
  count-replace f [] i s e = absurd (cc)
  count-replace f (t ∷ ss) zero s e = let same : t ≡ s = cc in rw same (omega arith)
  count-replace f (t ∷ ss) (suc i) s e = omega (arith, count-replace f ss i s e)
