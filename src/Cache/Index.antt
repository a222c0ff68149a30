-- ===== src/Cache/Index.antt =====
-- The indices of the table names.
use chroot_cbccd.Base.{
  all_below, all_below_sound, ℕ, zero, suc, ◌+◌, ◌-◌, ◌≤◌, ◌<◌, ◌≡◌, ◌↔◌, ◌∙◌, refl, Bool, true,
  false, Option, none, some, arith, get_elem?, ◌==◌, if◌then◌else◌, ltb, lt→ltb, Text, codes,
  str_eq, str_eq_iff, take, List, [], ◌∷◌, inl, inr, Bool-cases,
}
use chroot_cbccd.Cache.Names.{tbl_names, max_tbl_num, index_from, cbccd_pgsql_get_tbl_idx}

same_index : Option ℕ → Option ℕ → Bool
same_index none none = true
same_index none (some j) = false
same_index (some i) none = false
same_index (some i) (some j) = i == j

same_index→eq : (a b : Option ℕ) → same_index a b ≡ true → a ≡ b
unfolding same_index
same_index→eq none none h = refl
same_index→eq none (some j) h = cc
same_index→eq (some i) none h = cc
same_index→eq (some i) (some j) h = ground arith

abbrev expected : ℕ → Option ℕ
expected i = if ltb i 75 then some i else none

indexed : ℕ → Option Text → Bool
indexed i none = false
indexed i (some name) = same_index (cbccd_pgsql_get_tbl_idx name) (expected i)

table : all_below 77 (λ i. indexed i (get_elem? tbl_names i)) ≡ true
unfolding all_below indexed same_index cbccd_pgsql_get_tbl_idx index_from tbl_names str_eq
table = refl

indexed_sound :
    (i : ℕ) (o : Option Text)
    → indexed i o ≡ true
    → (name : Text) × (o ≡ some name) × (cbccd_pgsql_get_tbl_idx name ≡ expected i)
unfolding indexed
indexed_sound i none h = absurd (cc)
indexed_sound i (some name) h = (name, refl, same_index→eq _ _ h)

-- The walk gives an index at which the name stands.
index_from-elem :
    (k : ℕ) (ns : List Text) (name : Text) (i : ℕ)
    → index_from k ns name ≡ some i
    → (k ≤ i) × (get_elem? ns (i - k) ≡ some name)
unfolding index_from
index_from-elem k [] name i e = absurd (cc (e))
index_from-elem k (n ∷ ns) name i e = elim (Bool-cases (str_eq name n)) [
  | inl y ↦
      let here : some k ≡ some i = rw y at e in
      let same : k ≡ i = cc (here) in
      let off : i - k ≡ 0 = omega (arith, same) in
      (omega (arith, same), rw (off, (str_eq_iff name n).0 y) refl)
  | inr z ↦
      let (le, at) = index_from-elem (k + 1) ns name i (rw z at e) in
      let off : i - k ≡ suc (i - (k + 1)) = omega (arith, le) in (omega (arith, le), rw off at)
]

take-elem :
    (n : ℕ) (ns : List Text) (i : ℕ) (name : Text)
    → get_elem? (take n ns) i ≡ some name
    → (i < n) × (get_elem? ns i ≡ some name)
take-elem zero ns i name e = absurd (cc (e))
take-elem (suc n) [] i name e = absurd (cc (e))
take-elem (suc n) (m ∷ ns) zero name e = (omega arith, e)
take-elem (suc n) (m ∷ ns) (suc i) name e =
    let (lt, at) = take-elem n ns i name e in (omega (arith, lt), at)

found :
    (name : Text) (i : ℕ)
    → cbccd_pgsql_get_tbl_idx name ≡ some i
    → (i < 75) × (get_elem? tbl_names i ≡ some name)
unfolding cbccd_pgsql_get_tbl_idx
found name i e =
    let (le, there) = index_from-elem 0 (take max_tbl_num tbl_names) name i e in
    let off : i - 0 ≡ i = omega arith in take-elem max_tbl_num tbl_names i name (rw off at there)

placed :
    (name : Text) (i : ℕ)
    → (i < 75) × (get_elem? tbl_names i ≡ some name)
    → cbccd_pgsql_get_tbl_idx name ≡ some i
placed name i (lt, at) =
    let short : i < 77 = omega (arith, lt) in
    let (n, there, idx) =
      indexed_sound i (get_elem? tbl_names i)
        (all_below_sound 77 (λ j. indexed j (get_elem? tbl_names j)) i table short) in
    let same : some n ≡ some name = cc (at, there) in
    let eq : n ≡ name = cc (same) in
    let here : cbccd_pgsql_get_tbl_idx name ≡ expected i = rw eq at idx in
    here ∙ rw (lt→ltb i 75 lt) refl

-- For every text: it has an index exactly if it stands there in the array among the first 75 of its
-- 77 names. The last two, the tables of the network and the security reports, have none.
pub get_tbl_idx-names :
    (name : Text) (i : ℕ)
    → ((cbccd_pgsql_get_tbl_idx name ≡ some i) ↔ ((i < 75) × (get_elem? tbl_names i ≡ some name)))
      × (get_elem? tbl_names 75 ≡ some (codes "reporting_network"))
      × (cbccd_pgsql_get_tbl_idx (codes "reporting_network") ≡ none)
      × (get_elem? tbl_names 76 ≡ some (codes "reporting_security"))
      × (cbccd_pgsql_get_tbl_idx (codes "reporting_security") ≡ none)
unfolding cbccd_pgsql_get_tbl_idx index_from tbl_names str_eq
get_tbl_idx-names name i = ((found name i, placed name i), refl, refl, refl, refl)
