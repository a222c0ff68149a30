-- ===== src/Cache/Database.antt =====
-- All cached tables: updates, removals, reads by index, and the load at the start.
use chroot_cbccd.Base.{
  ◌≡◌, refl, ap, Bool, true, false, ◌&&◌, Option, none, some, List, [], ◌∷◌, arith, if◌then◌else◌,
  Text, str_eq, str_eq_iff, Bool-cases, inl, inr,
}
use chroot_cbccd.Cache.{
  Row, TblInfo, update_db_cache, remove_db_cache, update_table, remove_from_table, find_row,
  add_tbl_row, remove_tbl_row,
}
use chroot_cbccd.Cache.Lookup.{IsValid, lookup_row, update_table_lem, remove_from_table_lem}

-- The rows of the first table with a name.
unfoldable pub rows_of : List TblInfo → Text → List Row
rows_of [] name = []
rows_of (t ∷ ts) name = if str_eq name t.tbl_name then t.rows else rows_of ts name

unfoldable pub lookup_db : List TblInfo → Text → Text → Option Text
lookup_db ts name guid = lookup_row (rows_of ts name) guid

unfoldable pub has_table : List TblInfo → Text → Bool
has_table [] name = false
has_table (t ∷ ts) name = if str_eq name t.tbl_name then true else has_table ts name

abbrev pub AllValid : List TblInfo → Type 0
AllValid [] = Unit {0}
AllValid (t ∷ ts) = IsValid t × AllValid ts

abbrev pub names_of : List TblInfo → List Text
names_of [] = []
names_of (t ∷ ts) = t.tbl_name ∷ names_of ts

update_table-name :
    (t : TblInfo) (guid content : Text) → (update_table t guid content).tbl_name ≡ t.tbl_name
unfolding update_table add_tbl_row
update_table-name t guid content = ground arith

remove_from_table-name :
    (t : TblInfo) (guid : Text) → (remove_from_table t guid).tbl_name ≡ t.tbl_name
unfolding remove_from_table remove_tbl_row
remove_from_table-name t guid = ground arith

lookup_row-nil : (g : Text) → lookup_row [] g ≡ none
unfolding find_row
lookup_row-nil g = refl

-- After an update the data of exactly one guid in one table is new; nothing else is changed. No
-- table is made: where there is none with the name, nothing happens.
pub lookup_db-update :
    (ts : List TblInfo) (name guid content n g : Text)
    → AllValid ts
    → lookup_db (update_db_cache ts name guid content) n g ≡ (
        if has_table ts name && (str_eq name n && str_eq guid g)
        then some content
        else lookup_db ts n g)
unfolding lookup_db update_db_cache rows_of has_table
lookup_db-update [] name guid content n g v = refl
lookup_db-update (t ∷ ts) name guid content n g v = ground (
  arith,
  update_table-name t guid content,
  (update_table_lem t guid content v.0).1 g,
  str_eq_iff name t.tbl_name,
  str_eq_iff n t.tbl_name,
  str_eq_iff name n,
  lookup_db-update ts name guid content n g v.1,
)

pub lookup_db-remove :
    (ts : List TblInfo) (name guid n g : Text)
    → AllValid ts
    → lookup_db (remove_db_cache ts name guid) n g
      ≡ (if str_eq name n && str_eq guid g then none else lookup_db ts n g)
unfolding lookup_db remove_db_cache rows_of
lookup_db-remove [] name guid n g v = ground (arith, lookup_row-nil g)
lookup_db-remove (t ∷ ts) name guid n g v = ground (
  arith,
  remove_from_table-name t guid,
  (remove_from_table_lem t guid v.0).1 g,
  str_eq_iff t.tbl_name name,
  str_eq_iff n t.tbl_name,
  str_eq_iff name n,
  lookup_db-remove ts name guid n g v.1,
)

pub AllValid-update :
    (ts : List TblInfo) (name guid content : Text)
    → AllValid ts
    → AllValid (update_db_cache ts name guid content)
      × (names_of (update_db_cache ts name guid content) ≡ names_of ts)
unfolding update_db_cache
AllValid-update [] name guid content v = (tt, refl)
AllValid-update (t ∷ ts) name guid content v = elim (Bool-cases (str_eq name t.tbl_name)) [
  | inl e ↦ rw e (
    ((update_table_lem t guid content v.0).0, v.1),
    ap (λ x. x ∷ names_of ts) (update_table-name t guid content),
  )
  | inr e ↦
      let (w, n) = AllValid-update ts name guid content v.1 in
      rw e ((v.0, w), ap (◌∷◌ t.tbl_name) n)
]

pub AllValid-remove :
    (ts : List TblInfo) (name guid : Text)
    → AllValid ts
    → AllValid (remove_db_cache ts name guid)
      × (names_of (remove_db_cache ts name guid) ≡ names_of ts)
unfolding remove_db_cache
AllValid-remove [] name guid v = (tt, refl)
AllValid-remove (t ∷ ts) name guid v = elim (Bool-cases (str_eq t.tbl_name name)) [
  | inl e ↦ rw e (
    ((remove_from_table_lem t guid v.0).0, v.1),
    ap (λ x. x ∷ names_of ts) (remove_from_table-name t guid),
  )
  | inr e ↦ let (w, n) = AllValid-remove ts name guid v.1 in rw e ((v.0, w), ap (◌∷◌ t.tbl_name) n)
]
