-- ===== src/Cache/Rows.antt =====
-- Finding, replacing, appending and unlinking rows by guid.
use chroot_cbccd.Base.{
  suc, ◌≡◌, ◌≢◌, refl, none, some, List, [], ◌∷◌, ◌++◌, arith, length, if◌then◌else◌, Text, str_eq,
  str_eq_iff, str_eq_refl,
}
use chroot_cbccd.Cache.{Row, find_row, put_row, unlink_row}

-- No two rows have one guid.
abbrev pub Distinct : List Row → Type 0
Distinct [] = Unit {0}
Distinct (r ∷ rs) = (find_row rs r.guid ≡ none) × Distinct rs

pub find_row-put_self :
    (rs : List Row) (r q : Row)
    → find_row rs q.guid ≡ some r
    → find_row (put_row rs q) q.guid ≡ some q
unfolding find_row put_row
find_row-put_self [] r q e = cc
find_row-put_self (p ∷ rs) r q e = ground (arith, str_eq_refl q.guid, find_row-put_self rs r q)

pub find_row-put_ne :
    (rs : List Row) (q : Row) (g : Text) → q.guid ≢ g → find_row (put_row rs q) g ≡ find_row rs g
unfolding find_row put_row
find_row-put_ne [] q g h = refl
find_row-put_ne (p ∷ rs) q g h = ground (
  arith,
  str_eq_iff p.guid q.guid,
  str_eq_iff p.guid g,
  str_eq_iff q.guid g,
  find_row-put_ne rs q g,
)

pub find_row-append :
    (rs : List Row) (q : Row) (g : Text)
    → find_row (rs ++ (q ∷ [])) g
      ≡ elim (find_row rs g) [ none ↦ if str_eq q.guid g then some q else none | some r ↦ some r ]
unfolding find_row
find_row-append [] q g = refl
find_row-append (p ∷ rs) q g = ground (arith, find_row-append rs q g)

pub find_row-unlink_self :
    (rs : List Row) (g : Text) → Distinct rs → find_row (unlink_row rs g) g ≡ none
unfolding find_row unlink_row
find_row-unlink_self [] g d = refl
find_row-unlink_self (p ∷ rs) g d =
    ground (arith, str_eq_iff p.guid g, find_row-unlink_self rs g d.1)

pub find_row-unlink_ne :
    (rs : List Row) (g k : Text) → g ≢ k → find_row (unlink_row rs g) k ≡ find_row rs k
unfolding find_row unlink_row
find_row-unlink_ne [] g k h = refl
find_row-unlink_ne (p ∷ rs) g k h =
    ground (arith, str_eq_iff p.guid g, str_eq_iff p.guid k, find_row-unlink_ne rs g k)

pub length-put_row : (rs : List Row) (q : Row) → length (put_row rs q) ≡ length rs
unfolding put_row
length-put_row [] q = refl
length-put_row (p ∷ rs) q = ground (arith, length-put_row rs q)

pub length-unlink_row :
    (rs : List Row) (g : Text) (r : Row)
    → find_row rs g ≡ some r
    → length rs ≡ suc (length (unlink_row rs g))
unfolding find_row unlink_row
length-unlink_row [] g r e = cc
length-unlink_row (p ∷ rs) g r e = ground (arith, length-unlink_row rs g r)

pub Distinct-put_row : (rs : List Row) (q : Row) → Distinct rs → Distinct (put_row rs q)
unfolding find_row put_row
Distinct-put_row [] q d = tt
Distinct-put_row (p ∷ rs) q d = ground (
  arith,
  str_eq_iff p.guid q.guid,
  str_eq_iff q.guid p.guid,
  Distinct-put_row rs q d.1,
  find_row-put_ne rs q p.guid,
)

pub Distinct-append :
    (rs : List Row) (q : Row) → Distinct rs → find_row rs q.guid ≡ none → Distinct (rs ++ (q ∷ []))
unfolding find_row
Distinct-append [] q d e = (refl, tt)
Distinct-append (p ∷ rs) q d e = ground (
  arith,
  str_eq_iff p.guid q.guid,
  str_eq_iff q.guid p.guid,
  Distinct-append rs q d.1,
  find_row-append rs q p.guid,
)

pub Distinct-unlink_row : (rs : List Row) (g : Text) → Distinct rs → Distinct (unlink_row rs g)
unfolding find_row unlink_row
Distinct-unlink_row [] g d = tt
Distinct-unlink_row (p ∷ rs) g d = ground (
  arith,
  str_eq_iff p.guid g,
  str_eq_iff g p.guid,
  Distinct-unlink_row rs g d.1,
  find_row-unlink_ne rs g p.guid,
)
