-- ===== src/Store.antt =====
-- cbccd/cbccd_pgsql.c: storing and removing data by SQL statements, with what follows in the cache,
-- the change log and the list of devices; and the answers that list the cache. The server is a
-- parameter: what PQexec answers to a text in a state of the server, and the state afterwards.
-- `none` is undefined behaviour. The locks are left out.
pub mod Mirror
pub mod Log
pub mod Devices
use chroot_cbccd.Base.{
  ℕ, Option, none, some, List, [], ◌∷◌, ◌++◌, ◌>>=◌, if◌then◌else◌, Text, codes, snprintf, ltb,
  take, length,
}
use chroot_cbccd.Cache.{
  Row, TblInfo, update_db_cache, remove_db_cache, set_changlog_info, cbccd_pgsql_set_cache,
  find_rev, table_at,
}
use chroot_cbccd.Device.{
  DeviceMgr, Call, set_guid_tbl_data, set_cache, cbccd_device_get_info_by_guid,
}
use chroot_cbccd.Device.Json.{Env}
use chroot_cbccd.Device.Login.{add_device_info_by_guid, create_log_objects_info, default_ou_calls}
use chroot_cbccd.Json.Tree.{JsonC}
use chroot_cbccd.Json.Parse.{max_json_arr_size, max_json_arr_field_len}
use chroot_cbccd.Json.Edit.{
  Jobj, string_given, object_text, int_given, obj_array_given, cbcc_json_build,
}

-- What PQexec answers: PGRES_TUPLES_OK with the rows, PGRES_COMMAND_OK, or anything else.
pub data Result : Type 0 where
  tuples_ok : List (Text × Text) → Result
  command_ok : Result
  sql_failed : Result

abbrev pub Server : Type 0 → Type 0
Server S = S → Text → Result × S

-- The database manager: the server, the cached tables and the change log.
pub record Db (S : Type 0) : Type 0 where
  pub server : S
  pub tbl_infos : List TblInfo
  pub changelog_info : TblInfo

-- The statements, before they are cut to the size of their array.
abbrev pub select_text : Text → Text → Text
select_text name guid =
    codes "SELECT * FROM " ++ (name ++ (codes " WHERE guid='" ++ (guid ++ codes "'")))

abbrev pub update_text : Text → Text → Text → Text
update_text name guid content =
    codes "UPDATE "
    ++ (name
        ++ (codes " SET data = '"
            ++ (content ++ (codes "' WHERE guid = '" ++ (guid ++ codes "'")))))

abbrev pub insert_text : Text → Text → Text → Text
insert_text name guid content =
    codes "INSERT INTO "
    ++ (name ++ (codes " VALUES ('" ++ (guid ++ (codes "','" ++ (content ++ codes "')")))))

abbrev pub delete_text : Text → Text → Text
delete_text name guid =
    codes "DELETE FROM " ++ (name ++ (codes " WHERE guid='" ++ (guid ++ codes "'")))

-- CBCC_MAX_SQL_LEN
abbrev pub max_sql_len : ℕ
max_sql_len = 4096

abbrev pub sql : Text → Text
sql text = snprintf max_sql_len text

-- The statement that stores data, by the rows there are, and the kind of the change.
abbrev pub store_text : List (Text × Text) → Text → Text → Text → Text
store_text [] name guid content = insert_text name guid content
store_text (r ∷ rs) name guid content = update_text name guid content

abbrev pub change_kind : List (Text × Text) → Text
change_kind [] = codes "insert"
change_kind (r ∷ rs) = codes "update"

-- What `cbccd_pgsql_set_guid_tbl_data` returns: 0, -1 or CBCC_RESP_JSON_INVALID.
pub data StoreCode : Type 0 where
  stored not_stored no_device_info : StoreCode

abbrev pub served : {S : Type 0} → Db S → S → Db S
served db s = record db { server = s }

-- The cache and the change log, once the statement was executed.
abbrev pub with_cached : {S : Type 0} → Db S → S → Text → Text → Text → Text → Db S
with_cached db s name guid content kind = record {
  server = s;
  tbl_infos = update_db_cache db.tbl_infos name guid content;
  changelog_info = set_changlog_info db.changelog_info name guid content kind;
}

abbrev pub after_statement :
    {S : Type 0} → Db S → Text → Text → Text → Text → Result × S → StoreCode × Db S
after_statement db name guid content kind (command_ok, s) =
    (stored, with_cached db s name guid content kind)
after_statement db name guid content kind (tuples_ok rows, s) = (not_stored, served db s)
after_statement db name guid content kind (sql_failed, s) = (not_stored, served db s)

abbrev pub after_select :
    {S : Type 0} → Server S → Db S → Text → Text → Text → Result × S → StoreCode × Db S
after_select exec db name guid content (tuples_ok rows, s) =
    after_statement db name guid content (change_kind rows)
      (exec s (sql (store_text rows name guid content)))
after_select exec db name guid content (command_ok, s) = (not_stored, served db s)
after_select exec db name guid content (sql_failed, s) = (not_stored, served db s)

-- `cbccd_pgsql_set_guid_tbl_data` for a guid that has a device.
unfoldable pub store_data : {S : Type 0} → Server S → Db S → Text → Text → Text → StoreCode × Db S
store_data exec db name guid content =
    after_select exec db name guid content (exec db.server (sql (select_text name guid)))

-- The calls that adding a device makes, which are all for its guid.
unfoldable pub perform : {S : Type 0} → Server S → Db S → List Call → Db S
perform exec db [] = db
perform exec db (set_guid_tbl_data name guid content ∷ calls) =
    perform exec (store_data exec db name guid content).1 calls
perform exec db (set_cache guid content ∷ calls) =
    perform exec
      (record db { changelog_info = cbccd_pgsql_set_cache db.changelog_info guid content }) calls
perform exec db (call ∷ calls) = perform exec db calls

abbrev pub with_devs : {S : Type 0} → DeviceMgr → StoreCode × Db S → StoreCode × DeviceMgr × Db S
with_devs devs (code, db) = (code, devs, db)

-- A guid that no device has: one is added, if the data has what a device's has.
unfoldable pub store_new :
    {S : Type 0}
    → Server S
    → Env
    → DeviceMgr
    → Db S
    → Text
    → Text
    → Text
    → StoreCode × DeviceMgr × Db S
store_new exec env devs db name guid content =
    elim (add_device_info_by_guid env devs guid content) [
      | none ↦ (no_device_info, devs, db)
      | some more ↦
          let calls = create_log_objects_info env guid content ++ default_ou_calls env guid in
          with_devs more (store_data exec (perform exec db calls) name guid content)
    ]

unfoldable pub cbccd_pgsql_set_guid_tbl_data :
    {S : Type 0}
    → Server S
    → Env
    → DeviceMgr
    → Db S
    → Text
    → Text
    → Text
    → StoreCode × DeviceMgr × Db S
cbccd_pgsql_set_guid_tbl_data exec env devs db name guid content =
    elim (cbccd_device_get_info_by_guid devs guid) [
      | none ↦ store_new exec env devs db name guid content
      | some d ↦ with_devs devs (store_data exec db name guid content)
    ]

abbrev pub after_delete : {S : Type 0} → Db S → Text → Text → Result × S → Db S
after_delete db name guid (command_ok, s) = record {
  server = s;
  tbl_infos = remove_db_cache db.tbl_infos name guid;
  changelog_info =
      set_changlog_info db.changelog_info name guid (codes "data is deleted,so no data")
        (codes "delete");
}
after_delete db name guid (tuples_ok rows, s) = served db s
after_delete db name guid (sql_failed, s) = served db s

unfoldable pub cbccd_pgsql_rm_guid_tbl_data : {S : Type 0} → Server S → Db S → Text → Text → Db S
cbccd_pgsql_rm_guid_tbl_data exec db name guid =
    after_delete db name guid (exec db.server (sql (delete_text name guid)))

-- `get_all_tbl_data`: the rows that the server answers, or no rows.
abbrev rows_sent : {S : Type 0} → Result × S → List (Text × Text) × S
rows_sent (tuples_ok rows, s) = (rows, s)
rows_sent (command_ok, s) = ([], s)
rows_sent (sql_failed, s) = ([], s)

unfoldable pub get_all_tbl_data : {S : Type 0} → Server S → S → Text → List (Text × Text) × S
get_all_tbl_data exec s name = rows_sent (exec s (sql (codes "SELECT * FROM " ++ name)))

abbrev member : Text → Text → Jobj
member key t = record { key = key; parent_key = none; value = string_given (some t) }

abbrev object_member : Text → Text → Jobj
object_member key t = record { key = key; parent_key = none; value = object_text t }

abbrev number : Text → ℕ → Jobj
number key i = record { key = key; parent_key = none; value = int_given i }

-- The rows of the list, each copied into the next field of the array with neither size looked at.
unfoldable pub row_texts : JsonC → List Text → List Row → Option (List Text)
row_texts lib arr [] = some arr
row_texts lib arr (r ∷ rs) = do
  t ←
      cbcc_json_build lib
        (member (codes "guid") r.guid ∷ object_member (codes "data") r.row_data ∷ [])
  if ltb (length arr) max_json_arr_size
      then if ltb (length t) max_json_arr_field_len
        then row_texts lib (arr ++ (t ∷ [])) rs
        else none
      else none

unfoldable pub cbccd_pgsql_cache_get_tbl_list : JsonC → List TblInfo → Option ℕ → Option Text
cbccd_pgsql_cache_get_tbl_list lib ts idx = do
  t ← table_at ts idx
  arr ← row_texts lib [] t.rows
  cbcc_json_build lib (
      record {
        key = codes "list";
        parent_key = none;
        value = obj_array_given (some (take t.rows_count arr));
      }
      ∷ [])

-- `cbccd_pgsql_get_cache`: `some none` leaves the pointer as it is.
unfoldable pub cbccd_pgsql_get_cache : JsonC → TblInfo → ℕ → Option (Option Text)
cbccd_pgsql_get_cache lib log rev = elim (find_rev log.rows rev) [
  | none ↦ some none
  | some r ↦ do
    t ← cbcc_json_build lib (
        member (codes "guid") r.guid
        ∷ object_member (codes "data") r.row_data
        ∷ member (codes "changed type") r.changelog_type
        ∷ member (codes "table name") log.tbl_name
        ∷ [])
    some (some t)
]

unfoldable pub cbccd_pgsql_get_cache_rev : JsonC → TblInfo → Option Text
cbccd_pgsql_get_cache_rev lib log =
    cbcc_json_build lib
      (number (codes "revision") log.total_rev ∷ number (codes "rows count") log.rows_count ∷ [])
