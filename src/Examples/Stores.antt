-- ===== src/Examples/Stores.antt =====
-- Runs of the statements that store data.
use chroot_cbccd.Base.{
  ◌≡◌, ◌≢◌, refl, Bool, true, false, ◌&&◌, Option, none, some, List, [], ◌∷◌, arith, if◌then◌else◌,
  Text, codes, str_eq,
}
use chroot_cbccd.Cache.{TblInfo, find_row}
use chroot_cbccd.Cache.Database.{AllValid, lookup_db, rows_of}
use chroot_cbccd.Device.{RegStatus, find_device, cbccd_device_get_info_by_guid}
use chroot_cbccd.Device.Login.{new_device, parse_device_reg_info}
use chroot_cbccd.Device.Outcome.{device}
use chroot_cbccd.Device.Pool.{IsValid}
use chroot_cbccd.Store.{
  tuples_ok, command_ok, sql_failed, Server, Db, select_text, insert_text, update_text, delete_text,
  no_device_info, cbccd_pgsql_set_guid_tbl_data,
}
use chroot_cbccd.Store.Mirror.{
  has_row, is_some, Serves, Fits, Mirrors, Kept, set_guid_tbl_data-Mirrors,
}
use chroot_cbccd.Store.Devices.{set_guid_tbl_data-adds}
use chroot_cbccd.Examples.Texts.{object_text}
use chroot_cbccd.Examples.Devices.{demo_env, demo_mgr, demo_mgr-IsValid, demo_device}

-- A server that holds at most the data of one guid of one table.
abbrev pub ou : Text
ou = codes "ou_info"

abbrev pub g1 : Text
g1 = codes "g1"

abbrev row_if : Option Text → List (Text × Text)
row_if none = []
row_if (some t) = (g1, t) ∷ []

abbrev pub one_row : Server (Option Text)
one_row s t =
    if str_eq t (select_text ou g1)
    then (tuples_ok (row_if s), s)
    else if str_eq t (insert_text ou g1 object_text)
    then (command_ok, some object_text)
    else if str_eq t (update_text ou g1 object_text)
    then (command_ok, some object_text)
    else if str_eq t (delete_text ou g1)
    then (command_ok, none)
    else (sql_failed, s)

abbrev pub held : Option Text → Text → Text → Option Text
held s n g = if str_eq ou n && str_eq g1 g then s else none

rows_told :
    (s : Option Text) (rows : List (Text × Text))
    → tuples_ok (row_if s) ≡ tuples_ok rows
    → has_row rows ≡ is_some s
rows_told none [] e = refl
rows_told none (r ∷ rs) e = absurd (cc)
rows_told (some t) [] e = absurd (cc)
rows_told (some t) (r ∷ rs) e = refl

pub one_row-Serves : Serves one_row held ou g1 object_text
unfolding str_eq
one_row-Serves = record {
  select_same = λ s n g. refl;
  select_rows = λ s rows e. rows_told s rows e;
  inserts = λ s e n g. overwritten (str_eq ou n && str_eq g1 g) s (some object_text);
  updates = λ s e n g. overwritten (str_eq ou n && str_eq g1 g) s (some object_text);
  deletes = λ s n g. overwritten (str_eq ou n && str_eq g1 g) s none;
}
  where
    overwritten :
        (b : Bool) (s o : Option Text)
        → (if b then o else none) ≡ (if b then o else (if b then s else none))
    overwritten true s o = refl
    overwritten false s o = refl

pub short-Fits : Fits ou g1 object_text
short-Fits = record {
  select_fits = omega arith;
  insert_fits = omega arith;
  update_fits = omega arith;
  delete_fits = omega arith;
}

abbrev empty_table : Text → TblInfo
empty_table name = record { tbl_name = name; rows_count = 0; rows = []; total_rev = 0 }

abbrev empty_db : Db (Option Text)
empty_db = record {
  server = none;
  tbl_infos = empty_table ou ∷ [];
  changelog_info = empty_table [];
}

empty_db-AllValid : AllValid empty_db.tbl_infos
empty_db-AllValid = (record { counted = refl; distinct = tt }, tt)

empty_db-Mirrors : Mirrors held empty_db
unfolding lookup_db rows_of find_row
empty_db-Mirrors n g h = empty (str_eq n ou) (str_eq ou n && str_eq g1 g)
  where
    empty : (b c : Bool) → lookup_db empty_db.tbl_infos n g ≡ (if c then none else none)
    empty b c = ground arith

pub g1_known : cbccd_device_get_info_by_guid demo_mgr g1 ≡ some (demo_device g1 5 90)
unfolding cbccd_device_get_info_by_guid find_device str_eq
g1_known = refl

set_guid_tbl_data-Mirrors_example :
    let (code, after, kept) =
      cbccd_pgsql_set_guid_tbl_data one_row demo_env demo_mgr empty_db ou g1 object_text in
    (after ≡ demo_mgr) × Kept held ou g1 object_text (code, kept)
set_guid_tbl_data-Mirrors_example =
    set_guid_tbl_data-Mirrors one_row held demo_env demo_mgr empty_db ou g1 object_text
      (demo_device g1 5 90) empty_db-AllValid empty_db-Mirrors one_row-Serves short-Fits g1_known

no_device : device demo_mgr (codes "1") ≡ none
unfolding find_device str_eq
no_device = refl

set_guid_tbl_data-adds_example :
    let store =
      cbccd_pgsql_set_guid_tbl_data one_row demo_env demo_mgr empty_db ou (codes "1") object_text in
    (parse_device_reg_info demo_env object_text ≡ none
      → store ≡ (no_device_info, demo_mgr, empty_db))
    × ((s : RegStatus)
        → parse_device_reg_info demo_env object_text ≡ some s
        → (device store.1 (codes "1") ≡ some (new_device (codes "1") s))
          × IsValid store.1
          × ((g : Text) → codes "1" ≢ g → device store.1 g ≡ device demo_mgr g))
set_guid_tbl_data-adds_example =
    set_guid_tbl_data-adds one_row demo_env demo_mgr empty_db ou (codes "1") object_text
      demo_mgr-IsValid no_device
