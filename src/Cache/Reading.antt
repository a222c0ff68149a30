-- ===== src/Cache/Reading.antt =====
-- The load at the start, and reads by the index that a table name has.
use chroot_cbccd.Base.{
  ℕ, suc, ◌+◌, ◌-◌, ◌≤◌, ◌≡◌, refl, ap, ap₂, ◌∙◌, Option, none, some, List, [], ◌∷◌, map, arith,
  length-append, take, get_elem?, if◌then◌else◌, Text, str_eq, str_eq_iff, Bool-cases, ◌⊎◌, inl,
  inr,
}
use chroot_cbccd.Cache.{
  Row, TblInfo, find_row, add_tbl_row, add_rows, load_table, read_all_db_contents, matching_data,
  table_at, cbccd_pgsql_cache_get_tbl_data,
}
use chroot_cbccd.Cache.Names.{tbl_names, max_tbl_num, index_from, cbccd_pgsql_get_tbl_idx}
use chroot_cbccd.Cache.Rows.{find_row-append, Distinct-append}
use chroot_cbccd.Cache.Lookup.{IsValid, lookup_row, add_tbl_row-rows}
use chroot_cbccd.Cache.Database.{rows_of, lookup_db, AllValid, names_of}

matching_data-eq-lookup : (rs : List Row) (g : Text) → matching_data rs (some g) ≡ lookup_row rs g
unfolding matching_data find_row
matching_data-eq-lookup [] g = refl
matching_data-eq-lookup (r ∷ rs) g = ground (arith, matching_data-eq-lookup rs g)

-- The index of a name leads to the first table with the name.
index_from-table :
    (k i : ℕ) (ts : List TblInfo) (name : Text)
    → index_from k (names_of ts) name ≡ some i
    → (t : TblInfo) × (get_elem? ts (i - k) ≡ some t) × (rows_of ts name ≡ t.rows) × (k ≤ i)
unfolding index_from rows_of
index_from-table k i [] name e = absurd (cc)
index_from-table k i (t ∷ ts) name e = elim (Bool-cases (str_eq name t.tbl_name)) [
  | inl h ↦
      let here : k ≡ i = ground (arith, h) in
      let zero_off : i - k ≡ 0 = omega arith in (t, rw zero_off, rw h, omega arith)
  | inr h ↦
      let (u, at, rows, le) = index_from-table (k + 1) i ts name (rw h at e) in
      let off : i - k ≡ suc (i - (k + 1)) = omega arith in (u, rw off at, rw h rows, omega arith)
]

-- A read by the index of a name is a look-up in the table with that name, if the tables bear the
-- names that the array lists.
pub get_tbl_data-eq-lookup :
    (ts : List TblInfo) (name guid : Text) (i : ℕ)
    → names_of ts ≡ take max_tbl_num tbl_names
    → cbccd_pgsql_get_tbl_idx name ≡ some i
    → cbccd_pgsql_cache_get_tbl_data ts (cbccd_pgsql_get_tbl_idx name) (some guid)
      ≡ some (lookup_db ts name guid)
unfolding cbccd_pgsql_cache_get_tbl_data cbccd_pgsql_get_tbl_idx table_at lookup_db
get_tbl_data-eq-lookup ts name guid i e h =
    let (t, at, rows, le) = index_from-table 0 i ts name (rw e h) in
    let off : i - 0 ≡ i = omega arith in
    rw (h, table_at, (rw off at at), rows, matching_data-eq-lookup t.rows guid)

-- The guids that the server sent for one table are distinct.
abbrev pub first_data : List (Text × Text) → Text → Option Text
first_data [] g = none
first_data ((k, d) ∷ rest) g = if str_eq k g then some d else first_data rest g

abbrev DistinctKeys : List (Text × Text) → Type 0
DistinctKeys [] = Unit {0}
DistinctKeys ((k, d) ∷ rest) = (first_data rest k ≡ none) × DistinctKeys rest

add_tbl_row-name : (t : TblInfo) (k c : Text) → (add_tbl_row t k c).tbl_name ≡ t.tbl_name
unfolding add_tbl_row
add_tbl_row-name t k c = ground arith

-- One more row under a new guid.
add_tbl_row_lem :
    (t : TblInfo) (k c : Text)
    → IsValid t
    → lookup_row t.rows k ≡ none
    → IsValid (add_tbl_row t k c)
      × ((g : Text)
          → lookup_row (add_tbl_row t k c).rows g ≡ elim (lookup_row t.rows g) [
            | none ↦ if str_eq k g then some c else none
            | some d ↦ some d
          ])
add_tbl_row_lem t k c v missing =
    let (q, eg, ec, er, en) = add_tbl_row-rows t k c v.counted in
    (
      record {
        counted = rw (er, en) (omega (arith, v.counted, length-append t.rows (q ∷ [])));
        distinct = rw er (Distinct-append t.rows q v.distinct (rw eg (ground (arith, missing))));
      },
      λ g. rw er (ground (arith, find_row-append t.rows q g, eg, ec)),
    )

-- Adding rows one by one: all are there, in a valid table.
add_rows_lem :
    (t : TblInfo) (sent : List (Text × Text))
    → IsValid t
    → DistinctKeys sent
    → ((g : Text) → (lookup_row t.rows g ≡ none) ⊎ (first_data sent g ≡ none))
    → IsValid (add_rows t sent)
      × ((add_rows t sent).tbl_name ≡ t.tbl_name)
      × ((g : Text)
          → lookup_row (add_rows t sent).rows g
            ≡ elim (lookup_row t.rows g) [ none ↦ first_data sent g | some d ↦ some d ])
unfolding add_rows
add_rows_lem t [] v d apart = (v, refl, λ g. ground arith)
add_rows_lem t ((k, c) ∷ rest) v d apart =
    let missing : lookup_row t.rows k ≡ none = ground (arith, apart k, str_eq_iff k k) in
    let (w, look) = add_tbl_row_lem t k c v missing in
    let (valid, name, found) =
      add_rows_lem (add_tbl_row t k c) rest w d.1
        (λ g. ground (arith, look g, apart g, str_eq_iff k g, d.0)) in
    (valid, name ∙ add_tbl_row-name t k c, λ g. ground (arith, found g, look g, apart g))

-- What SELECT answers, for every table, has no guid twice.
abbrev pub SendsDistinct : (Text → List (Text × Text)) → Type 0
SendsDistinct fetch = (name : Text) → DistinctKeys (fetch name)

load_table_lem :
    (fetch : Text → List (Text × Text)) (name : Text)
    → SendsDistinct fetch
    → IsValid (load_table fetch name)
      × ((load_table fetch name).tbl_name ≡ name)
      × ((g : Text) → lookup_row (load_table fetch name).rows g ≡ first_data (fetch name) g)
unfolding load_table find_row
load_table_lem fetch name d =
    add_rows_lem (record { tbl_name = name; rows_count = 0; rows = []; total_rev = 0 }) (fetch name)
      (record { counted = refl; distinct = tt }) (d name) (λ g. inl refl)

load_tables_lem :
    (fetch : Text → List (Text × Text)) (names : List Text)
    → SendsDistinct fetch
    → AllValid (map (load_table fetch) names) × (names_of (map (load_table fetch) names) ≡ names)
load_tables_lem fetch [] d = (tt, refl)
load_tables_lem fetch (n ∷ ns) d =
    let (v, e, look) = load_table_lem fetch n d in
    let (vs, es) = load_tables_lem fetch ns d in ((v, vs), ap₂ ◌∷◌ e es)

load_tables-rows :
    (fetch : Text → List (Text × Text)) (names : List Text) (k i : ℕ) (name g : Text)
    → SendsDistinct fetch
    → index_from k names name ≡ some i
    → lookup_row (rows_of (map (load_table fetch) names) name) g ≡ first_data (fetch name) g
unfolding index_from rows_of
load_tables-rows fetch [] k i name g d e = absurd (cc)
load_tables-rows fetch (n ∷ ns) k i name g d e =
    let (v, own, look) = load_table_lem fetch n d in
    elim (Bool-cases (str_eq name n)) [
      | inl h ↦ let same : name ≡ n = (str_eq_iff name n).0 h in rw (own, h) (rw same (look g))
      | inr h ↦ rw (own, h) (load_tables-rows fetch ns (k + 1) i name g d (rw h at e))
    ]

-- After the load the cache is valid, and a read by the index of a table name gives what the server
-- sent for that table and guid.
pub read_all_db_contents_lem :
    (fetch : Text → List (Text × Text)) (name guid : Text) (i : ℕ)
    → SendsDistinct fetch
    → cbccd_pgsql_get_tbl_idx name ≡ some i
    → let ts = read_all_db_contents fetch in
      AllValid ts
      × (names_of ts ≡ take max_tbl_num tbl_names)
      × (cbccd_pgsql_cache_get_tbl_data ts (cbccd_pgsql_get_tbl_idx name) (some guid)
          ≡ some (first_data (fetch name) guid))
unfolding read_all_db_contents
read_all_db_contents_lem fetch name guid i d h =
    let ts = map (load_table fetch) (take max_tbl_num tbl_names) in
    let (v, n) = load_tables_lem fetch (take max_tbl_num tbl_names) d in
    (
      v,
      n,
      get_tbl_data-eq-lookup ts name guid i n h
          ∙ ap some (
              unfold lookup_db cbccd_pgsql_get_tbl_idx in
              load_tables-rows fetch (take max_tbl_num tbl_names) 0 i name guid d h),
    )
