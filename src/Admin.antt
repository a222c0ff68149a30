-- ===== src/Admin.antt =====
-- cbccd/cbccd_admin.c: backups of devices, automatic backups, and actions on devices. `none` is
-- undefined behaviour. The clock and file sizes are taken to fit an int, and texts the arrays that
-- strcpy copies them into. The locks are left out.
pub mod Backup
pub mod Restore
pub mod Auto
pub mod Action
pub mod Slots
pub mod Retention
pub mod Kept
pub mod Schedule
pub mod Liveness
pub mod Sending
pub mod Devices
use chroot_cbccd.Base.{
  ℕ, Bool, true, false, not, Option, none, some, List, [], ◌∷◌, ◌++◌, ◌>>=◌, if◌then◌else◌, Text,
  codes, str_eq, snprintf,
}
use chroot_cbccd.Json.Tree.{JsonC}
use chroot_cbccd.Json.Parse.{
  Request, Item, str_val, str_val_big, int_val, bool_val, DataType, string_type,
}
use chroot_cbccd.Json.Edit.{Jobj, Given, new_object, string_given, boolean_given, cbcc_json_build}
use chroot_cbccd.Digests.{OpenSsl}
use chroot_cbccd.Cache.{cbccd_pgsql_cache_get_tbl_data}
use chroot_cbccd.Cache.Names.{cbccd_pgsql_get_tbl_idx}
use chroot_cbccd.Store.{Server, Db, cbccd_pgsql_set_guid_tbl_data, StoreCode}
use chroot_cbccd.Device.{
  DeviceInfo, DeviceMgr, RespCode, ok, not_connected, not_logined, send_failed,
  cbccd_device_get_info_by_guid,
}
use chroot_cbccd.Device.Json.{Env}
use chroot_cbccd.Config.Deploy.{text_jobj, jobj, jobj_under}

-- What was done outside of the daemon's memory and its files.
pub data Event : Type 0 where
  sent : Option ℕ → Text → Event
  make_dir : Text → Event
  remove_path : Text → Event
  socket_freed : Option ℕ → Event

-- The server, json-c, OpenSSL, whether cbccd_cmd_send returns 0, whether the streams of
-- decode_base64_to_file can be opened, rand, what an int on the stack holds that was not written,
-- the day of the week and the seconds since its start of a time, and the surroundings that the
-- device manager has too.
pub record AdminEnv (S : Type 0) : Type 0 where
  pub exec : Server S
  pub lib : JsonC
  pub ssl : OpenSsl
  pub sends : Option ℕ → Text → Bool
  pub opens_in : Bool
  pub opens_out : Bool
  pub random : ℕ
  pub uninit_int : ℕ
  pub local_day : ℕ → ℕ × ℕ
  pub dev : Env

-- The database manager, the list of devices, the regular files, and the events so far.
pub record World (S : Type 0) : Type 0 where
  pub db : Db S
  pub devs : DeviceMgr
  pub files : Text → Option (List ℕ)
  pub events : List Event

-- Requests for a value, and what the variable holds afterwards that had `old`.
abbrev pub request : DataType → ℕ → Option Text → Text → Request
request type size parent key = record {
  key = key;
  parent_key = parent;
  data_size = size;
  must_specify = false;
  is_root = false;
  type = type;
}

abbrev pub text_after : Text → Option Item → Text
text_after old (some (str_val t)) = t
text_after old i = old

abbrev pub big_after : Option Text → Option Item → Option Text
big_after old (some (str_val_big t)) = some t
big_after old i = old

abbrev pub int_after : ℕ → Option Item → ℕ
int_after old (some (int_val i)) = i
int_after old i = old

abbrev pub bool_after : Bool → Option Item → Bool
bool_after old (some (bool_val b)) = b
bool_after old i = old

abbrev pub text_under : Text → Text → Text → Jobj
text_under parent key t = jobj_under parent key (string_given (some t))

module _ {S : Type 0} (env : AdminEnv S) (w : World S) where
  abbrev pub happened : Event → World S
  happened e = record w { events = w.events ++ (e ∷ []) }

  -- `cbccd_pgsql_set_guid_tbl_data`, whose answer no caller here looks at.
  abbrev with_stored : StoreCode × DeviceMgr × Db S → World S
  with_stored (code, devs, db) = record w { db = db; devs = devs }

  unfoldable pub put_data : Text → Text → Text → World S
  put_data name guid content =
      with_stored (cbccd_pgsql_set_guid_tbl_data env.exec env.dev w.devs w.db name guid content)

  -- `cbccd_pgsql_cache_get_tbl_data` from the table with a name.
  unfoldable pub get_data : Text → Text → Option (Option Text)
  get_data name guid =
      cbccd_pgsql_cache_get_tbl_data w.db.tbl_infos (cbccd_pgsql_get_tbl_idx name) (some guid)

  -- A file is written, or removed.
  abbrev pub with_file : Text → Option (List ℕ) → World S
  with_file path bytes = record w { files = λ p. if str_eq p path then bytes else w.files p }

  -- A command is sent to a device that is known.
  abbrev pub send_result : Option ℕ → Text → RespCode → RespCode
  send_result sock cmd code = if env.sends sock cmd then code else send_failed

-- `build_backup_cmd`
unfoldable pub build_backup_cmd : JsonC → Bool → Text → Text → Text → Option Text
build_backup_cmd lib auto_backup guid comment user =
    let parent = codes "backup.objects" in
    cbcc_json_build lib (
      text_jobj (codes "cmd") (codes "device.create.backup")
      ∷ jobj (codes "data") new_object
      ∷ jobj_under (codes "data") parent new_object
      ∷ text_under parent (codes "guid") guid
      ∷ jobj_under parent (codes "auto_backup") (boolean_given auto_backup)
      ∷ text_under parent (codes "comment") comment
      ∷ text_under parent (codes "user") user
      ∷ [])

module _ {S : Type 0} (env : AdminEnv S) (w : World S) where
  -- The command is sent to a device that is not logged in, too.
  unfoldable pub send_backup : Text → Text → RespCode × World S
  send_backup dev_guid cmd = elim (cbccd_device_get_info_by_guid w.devs dev_guid) [
    | none ↦ (not_connected, w)
    | some d ↦ (
      send_result env w d.sock cmd (if d.is_logined then ok else not_logined),
      happened env w (sent d.sock cmd),
    )
  ]

  unfoldable pub cbccd_admin_send_create_backup_cmd :
      Text → Text → Text → Text → Option (RespCode × World S)
  cbccd_admin_send_create_backup_cmd backup_guid dev_guid comment user = do
    cmd ← build_backup_cmd env.lib false backup_guid comment user
    some (send_backup dev_guid cmd)
