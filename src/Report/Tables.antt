-- ===== src/Report/Tables.antt =====
-- Which tables a report is stored in.
use chroot_cbccd.Base.{
  ◌≡◌, refl, Option, none, some, List, [], ◌∷◌, ◌++◌, ◌⊎◌, Option-cases, inl, inr, ◌>>=◌,
  if◌then◌else◌, Bool-cases, Text,
}
use chroot_cbccd.Json.Found.{Occurs, get_jobj_by_key-Occurs}
use chroot_cbccd.Json.Tree.{
  JsonC, IsLawful, Node, Members, null_node, boolean_node, double_node, int_node, string_node,
  array_node, object_node,
}
use chroot_cbccd.Json.Search.{cbcc_get_jobj_by_key}
use chroot_cbccd.Json.Parse.{
  copy_big, check_obj_validation, object_big_type, parse_root, find_value, parse_one, read_value,
  cbcc_jobj_parse, cbcc_json_parse_from_buffer,
}
use chroot_cbccd.Device.{Call, set_guid_tbl_data}
use chroot_cbccd.Report.{
  big_text, report_tbl_names, table_calls, info_calls, set_report_info_into_db,
}

-- A text that is not empty.
abbrev pub full : Text → Option Text
full [] = none
full (c ∷ cs) = some (c ∷ cs)

-- The text of a table's object, if there is one.
abbrev pub table_text : JsonC → Option Node → Option Text
table_text lib none = none
table_text lib (some n) =
    if check_obj_validation object_big_type n then full (lib.get_string n) else none

-- All tables in order, where each has its object.
abbrev pub reported : JsonC → Text → Members → List Text → Option (List Call)
reported lib guid ms [] = some []
reported lib guid ms (name ∷ names) = table_text lib (cbcc_get_jobj_by_key lib ms name) >>= λ t.
    reported lib guid ms names >>= λ rest. some (set_guid_tbl_data name guid t ∷ rest)

big_text-copy : (t : Text) → big_text (copy_big t) ≡ full t
big_text-copy [] = refl
big_text-copy (c ∷ cs) = refl

module _ (lib : JsonC) (guid info : Text) (ms : Members)
    (reads : lib.tokener_parse info ≡ some (object_node ms)) where
  one_table :
      (name : Text) (o : Option Node)
      → cbcc_get_jobj_by_key lib ms name ≡ o
      → table_calls lib guid info name
        ≡ (table_text lib o >>= λ t. some (set_guid_tbl_data name guid t ∷ []))
  unfolding table_calls cbcc_json_parse_from_buffer parse_root cbcc_jobj_parse parse_one find_value
      read_value
  one_table name none e = rw (reads, e) refl
  one_table name (some n) e = elim (Bool-cases (check_obj_validation object_big_type n)) [
    | inl y ↦ rw (reads, e, y, big_text-copy (lib.get_string n)) refl
    | inr y ↦ rw (reads, e, y) refl
  ]

  all_tables : (names : List Text) → info_calls lib guid info names ≡ reported lib guid ms names
  unfolding info_calls
  all_tables [] = refl
  all_tables (name ∷ names) =
      rw (one_table name _ refl, all_tables names)
        (go (table_text lib (cbcc_get_jobj_by_key lib ms name)))
    where
      go :
          (o : Option Text)
          → ((o >>= λ t. some (set_guid_tbl_data name guid t ∷ [])) >>= λ calls.
              reported lib guid ms names >>= λ rest. some (calls ++ rest))
            ≡ (o >>= λ t.
                reported lib guid ms names >>= λ rest. some (set_guid_tbl_data name guid t ∷ rest))
      go none = refl
      go (some t) = refl

report-reported :
    (lib : JsonC) (guid info : Text) (ms : Members)
    → lib.tokener_parse info ≡ some (object_node ms)
    → set_report_info_into_db lib guid info ≡ reported lib guid ms report_tbl_names
unfolding set_report_info_into_db
report-reported lib guid info ms reads = all_tables lib guid info ms reads report_tbl_names

-- The text of a table's object, if it is one and is not printed as nothing.
abbrev pub object_text : JsonC → Node → Option Text
object_text lib (object_node sub) = full (lib.get_string (object_node sub))
object_text lib n = none

-- What is known of the text for a table: there is none if no member under its name that is not null
-- stands in the object, or in objects nested in it through members, and else it is such a member's.
abbrev pub TextOf : JsonC → Members → Text → Option Text → Type 0
TextOf lib ms name o =
    (((v : Node) → ¬ Occurs name v ms) × (o ≡ none))
    ⊎ ((v : Node) × Occurs name v ms × (o ≡ object_text lib v))

-- All tables in order, each with its text, if each has one.
abbrev pub Reports : JsonC → Text → Members → List Text → Option (List Call) → Type 0
Reports lib guid ms [] calls = calls ≡ some []
Reports lib guid ms (name ∷ names) calls =
    (o : Option Text) × (rest : Option (List Call)) × TextOf lib ms name o
    × Reports lib guid ms names rest
    × (calls ≡ (o >>= λ t. rest >>= λ cs. some (set_guid_tbl_data name guid t ∷ cs)))

module _ (lib : JsonC) (guid : Text) (ms : Members) (l : IsLawful lib) where
  table_text-object : (v : Node) → table_text lib (some v) ≡ object_text lib v
  unfolding check_obj_validation
  table_text-object null_node = refl
  table_text-object (boolean_node b) = refl
  table_text-object (double_node b) = refl
  table_text-object (int_node b) = refl
  table_text-object (string_node b) = refl
  table_text-object (array_node b) = refl
  table_text-object (object_node b) = refl

  table_text-TextOf :
      (name : Text) → TextOf lib ms name (table_text lib (cbcc_get_jobj_by_key lib ms name))
  table_text-TextOf name =
      let (found, missing) = get_jobj_by_key-Occurs lib ms name l in
      elim (Option-cases (cbcc_get_jobj_by_key lib ms name)) [
        | inl e ↦ inl (λ v. missing v e, rw e refl)
        | inr (v, e) ↦ inr (v, found v e, rw e (table_text-object v))
      ]

  reported-Reports : (names : List Text) → Reports lib guid ms names (reported lib guid ms names)
  reported-Reports [] = refl
  reported-Reports (name ∷ names) = (_, _, table_text-TextOf name, reported-Reports names, refl)

-- Report data that reads as an object: if for each of the three tables there is a member that is
-- not null, in the object or in objects nested in it through members, not through arrays, and the
-- one that is found is an object that is not printed as nothing, all three are stored under the
-- guid, in order; else the code reads through NULL.
pub set_report_info_into_db_lem :
    (lib : JsonC) (guid info : Text) (ms : Members)
    → IsLawful lib
    → lib.tokener_parse info ≡ some (object_node ms)
    → Reports lib guid ms report_tbl_names (set_report_info_into_db lib guid info)
set_report_info_into_db_lem lib guid info ms l reads =
    rw (report-reported lib guid info ms reads) (reported-Reports lib guid ms l report_tbl_names)
