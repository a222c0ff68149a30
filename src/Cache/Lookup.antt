-- ===== src/Cache/Lookup.antt =====
-- The cached tables as a map from table names and guids to data.
use chroot_cbccd.Base.{
  ◌+◌, ◌-◌, ◌≡◌, refl, Option, none, some, List, [], ◌∷◌, ◌++◌, arith, length, length-append, ◌==◌,
  if◌then◌else◌, Text, str_eq, str_eq_iff, Bool-cases, Option-cases, inl, inr,
}
use chroot_cbccd.Cache.{
  Row, TblInfo, set_tbl_row, add_tbl_row, find_row, put_row, unlink_row, remove_tbl_row,
  update_table, remove_from_table,
}
use chroot_cbccd.Cache.Rows.{
  Distinct, find_row-put_self, find_row-put_ne, find_row-append, find_row-unlink_self,
  find_row-unlink_ne, length-put_row, length-unlink_row, Distinct-put_row, Distinct-append,
  Distinct-unlink_row,
}

-- `rows_count` is the number of rows, and no two have one guid.
pub record IsValid (t : TblInfo) : Type 0 where
  pub counted : t.rows_count ≡ length t.rows
  pub distinct : Distinct t.rows

abbrev pub data_of : Option Row → Option Text
data_of none = none
data_of (some r) = some r.row_data

abbrev pub lookup_row : List Row → Text → Option Text
lookup_row rs guid = data_of (find_row rs guid)

length_zero : (rs : List Row) → length rs ≡ 0 → rs ≡ []
length_zero [] h = refl
length_zero (r ∷ rs) h = absurd (omega arith)

-- What `add_tbl_row` does to the rows, whichever branch it takes.
pub add_tbl_row-rows :
    (t : TblInfo) (guid content : Text)
    → t.rows_count ≡ length t.rows
    → (q : Row) × (q.guid ≡ guid)
      × (q.row_data ≡ content)
      × ((add_tbl_row t guid content).rows ≡ t.rows ++ (q ∷ []))
      × ((add_tbl_row t guid content).rows_count ≡ t.rows_count + 1)
unfolding add_tbl_row set_tbl_row
add_tbl_row-rows t guid content v = elim (Bool-cases (t.rows_count == 0)) [
  | inl e ↦ (
    record { guid = guid; row_data = content; changelog_type = []; rev = 0 },
    refl,
    refl,
    rw (e, length_zero t.rows (ground (arith, v))),
    rw e,
  )
  | inr e ↦ (
    record { guid = guid; row_data = content; changelog_type = []; rev = t.total_rev + 1 },
    refl,
    refl,
    rw e,
    rw e,
  )
]

update_table-row :
    (t : TblInfo) (guid content : Text) (r : Row)
    → find_row t.rows guid ≡ some r
    → update_table t guid content ≡ record t { rows = put_row t.rows (set_tbl_row guid content) }
unfolding update_table
update_table-row t guid content r e = rw (e, update_table)

update_table-new :
    (t : TblInfo) (guid content : Text)
    → find_row t.rows guid ≡ none
    → update_table t guid content ≡ add_tbl_row t guid content
unfolding update_table
update_table-new t guid content e = rw (e, update_table)

-- Updating a table keeps it valid and changes the data of one guid.
pub update_table_lem :
    (t : TblInfo) (guid content : Text)
    → IsValid t
    → IsValid (update_table t guid content)
      × ((g : Text)
          → lookup_row (update_table t guid content).rows g
            ≡ (if str_eq guid g then some content else lookup_row t.rows g))
unfolding set_tbl_row
update_table_lem t guid content v = elim (Option-cases (find_row t.rows guid)) [
  | inl e ↦
      let (q, eg, ec, er, en) = add_tbl_row-rows t guid content v.counted in
      rw (update_table-new t guid content e) (
        record {
          counted = rw (er, en) (omega (arith, v.counted, length-append t.rows (q ∷ [])));
          distinct = rw er (Distinct-append t.rows q v.distinct (rw eg e));
        },
        λ g. rw er (ground (arith, find_row-append t.rows q g, eg, ec, str_eq_iff guid g, e)),
      )
  | inr (r, e) ↦
      let q = set_tbl_row guid content in
      rw (update_table-row t guid content r e) (
        record {
          counted = omega (arith, v.counted, length-put_row t.rows q);
          distinct = Distinct-put_row t.rows q v.distinct;
        },
        λ g.
            ground (
              arith,
              str_eq_iff guid g,
              find_row-put_self t.rows r q e,
              find_row-put_ne t.rows q g,
            ),
      )
]

remove-some :
    (t : TblInfo) (guid : Text) (r : Row)
    → IsValid t
    → find_row t.rows guid ≡ some r
    → remove_from_table t guid
      ≡ record t { rows = unlink_row t.rows guid; rows_count = t.rows_count - 1 }
unfolding remove_from_table remove_tbl_row
remove-some t guid r v e =
    rw (e, remove_from_table)
      (elim (Bool-cases (t.rows_count - 1 == 0)) [
        | inl z ↦ rw (
          z,
          length_zero (unlink_row t.rows guid)
              (ground (arith, v.counted, length-unlink_row t.rows guid r e)),
        )
        | inr z ↦ rw z
      ])

remove-none :
    (t : TblInfo) (guid : Text) → find_row t.rows guid ≡ none → remove_from_table t guid ≡ t
unfolding remove_from_table
remove-none t guid e = rw (e, remove_from_table)

-- Removing a row keeps the table valid and takes away the data of one guid.
pub remove_from_table_lem :
    (t : TblInfo) (guid : Text)
    → IsValid t
    → IsValid (remove_from_table t guid)
      × ((g : Text)
          → lookup_row (remove_from_table t guid).rows g
            ≡ (if str_eq guid g then none else lookup_row t.rows g))
remove_from_table_lem t guid v = elim (Option-cases (find_row t.rows guid)) [
  | inl e ↦ rw (remove-none t guid e) (v, λ g. ground (arith, str_eq_iff guid g))
  | inr (r, e) ↦ rw (remove-some t guid r v e) (
    record {
      counted = omega (arith, v.counted, length-unlink_row t.rows guid r e);
      distinct = Distinct-unlink_row t.rows guid v.distinct;
    },
    λ g. ground (
      arith,
      str_eq_iff guid g,
      find_row-unlink_self t.rows guid v.distinct,
      find_row-unlink_ne t.rows guid g,
    ),
  )
]
