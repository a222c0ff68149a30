-- ===== src/Device/Start.antt =====
-- The start and the end of the device manager: read_confd_data_from_db, read_device_infos_from_db,
-- read_device_ou_infos_from_db, cbccd_device_mgr_init and cbccd_device_mgr_finalize. `none` is
-- undefined behaviour: a table that is not cached.
use chroot_cbccd.Base.{
  Bool, Option, none, some, List, [], ◌∷◌, ◌>>=◌, if◌then◌else◌, Status, success, failure, Text,
  codes, get_elem?,
}
use chroot_cbccd.Cache.{cbccd_pgsql_cache_get_tbl_data, cbccd_pgsql_cache_get_tbl_rows}
use chroot_cbccd.Cache.Names.{cbccd_pgsql_get_tbl_idx}
use chroot_cbccd.Config.{OuList, get_ou_info}
use chroot_cbccd.Device.{DeviceInfo, DeviceMgr, modify_guid, free_all_device_infos}
use chroot_cbccd.Device.Json.{Env, str_val, received}
use chroot_cbccd.Device.Login.{top, under, add_device_info_by_guid}
use chroot_cbccd.Store.{Server, Db, StoreCode, cbccd_pgsql_set_guid_tbl_data}

-- `read_confd_data_from_db`: the secret of the first row. Its answer is not looked at.
abbrev with_secret : DeviceMgr → Option (List (Option Text)) → DeviceMgr
with_secret m none = m
with_secret m (some fields) = record m { secret_key = received m.secret_key (get_elem? fields 0) }

abbrev pub confd_secret : Env → DeviceMgr → Option Text → DeviceMgr
confd_secret env m none = m
confd_secret env m (some confd_data) =
    with_secret m (env.json.parse confd_data (top (codes "secret") ∷ []))

unfoldable pub read_confd_data_from_db : Env → DeviceMgr → Option DeviceMgr
read_confd_data_from_db env m = do
  confd_data ←
      cbccd_pgsql_cache_get_tbl_data env.tables (cbccd_pgsql_get_tbl_idx (codes "confd_data")) none
  some (confd_secret env m confd_data)

-- What is stored for a device, which starts offline; an array that was not written, if that fails.
unfoldable pub offline_text : Env → Text → Text
offline_text env content =
    elim (env.json.update content
      ((under (codes "status") (codes "connection"), str_val (codes "OFFLINE")) ∷ [])) [
        | none ↦ env.uninit
        | some updated ↦ updated
      ]

abbrev pub or_same : DeviceMgr → Option DeviceMgr → DeviceMgr
or_same m none = m
or_same m (some more) = more

abbrev pub without_code : {S : Type 0} → StoreCode × DeviceMgr × Db S → DeviceMgr × Db S
without_code (code, m, db) = (m, db)

-- One row of the table of devices.
unfoldable pub read_device_row :
    {S : Type 0} → Server S → Env → DeviceMgr → Db S → Text → Text → DeviceMgr × Db S
read_device_row exec env m db guid content = without_code (
    cbccd_pgsql_set_guid_tbl_data exec env (or_same m (add_device_info_by_guid env m guid content))
      db (codes "device_info") guid (offline_text env content))

-- The loop of `read_device_infos_from_db`.
unfoldable pub read_device_rows :
    {S : Type 0} → Server S → Env → DeviceMgr → Db S → List (Text × Text) → DeviceMgr × Db S
read_device_rows exec env m db [] = (m, db)
read_device_rows exec env m db ((guid, content) ∷ rows) =
    let next = read_device_row exec env m db guid content in
    read_device_rows exec env next.0 next.1 rows

unfoldable pub read_device_infos_from_db :
    {S : Type 0} → Server S → Env → DeviceMgr → Db S → Option (DeviceMgr × Db S)
read_device_infos_from_db exec env m db = do
  rows ← cbccd_pgsql_cache_get_tbl_rows db.tbl_infos (cbccd_pgsql_get_tbl_idx (codes "device_info"))
  some (read_device_rows exec env m db rows)

-- The loop of `read_device_ou_infos_from_db`, with its `continue`s. A device that is not there is
-- not modified.
abbrev pub with_ou : Text → DeviceInfo → DeviceInfo
with_ou ou p = record p { ou_info = some ou }

unfoldable pub set_device_ou : OuList → DeviceMgr → Text → Text → DeviceMgr
set_device_ou ous m guid ou_guid = elim (get_ou_info ous ou_guid) [
  | none ↦ m
  | some ou ↦ modify_guid m guid (with_ou ou_guid)
]

-- The value of a key that must be specified: without it, the parser's answer is -1.
abbrev pub specified : Option (List (Option Text)) → Option Text
specified none = none
specified (some []) = none
specified (some (t ∷ ts)) = t

unfoldable pub read_ou_row : Env → OuList → DeviceMgr → Text → Text → DeviceMgr
read_ou_row env ous m guid content =
    elim (specified (env.json.parse content (top (codes "ou") ∷ []))) [
      | none ↦ m
      | some ou_guid ↦ set_device_ou ous m guid ou_guid
    ]

unfoldable pub read_ou_rows : Env → OuList → DeviceMgr → List (Text × Text) → DeviceMgr
read_ou_rows env ous m [] = m
read_ou_rows env ous m ((guid, content) ∷ rows) =
    read_ou_rows env ous (read_ou_row env ous m guid content) rows

unfoldable pub read_device_ou_infos_from_db :
    {S : Type 0} → Env → OuList → DeviceMgr → Db S → Option DeviceMgr
read_device_ou_infos_from_db env ous m db = do
  rows ← cbccd_pgsql_cache_get_tbl_rows db.tbl_infos (cbccd_pgsql_get_tbl_idx (codes "device_ou"))
  some (read_ou_rows env ous m rows)

-- `cbccd_device_mgr_init` of a context that was cleared; `created` says whether the thread could be
-- created.
abbrev pub cleared : DeviceMgr
cleared = record { num_of_devices = 0; dev_infos = []; secret_key = [] }

unfoldable pub cbccd_device_mgr_init :
    {S : Type 0} → Server S → Env → OuList → Db S → Bool → Option (Status × DeviceMgr × Db S)
cbccd_device_mgr_init exec env ous db created = do
  secret ← read_confd_data_from_db env cleared
  read ← read_device_infos_from_db exec env secret db
  m ← read_device_ou_infos_from_db env ous read.0 read.1
  some (if created then (success, m, read.1) else (failure, free_all_device_infos m, read.1))

-- `cbccd_device_mgr_finalize` of a manager that was initialised.
unfoldable pub cbccd_device_mgr_finalize : DeviceMgr → DeviceMgr
cbccd_device_mgr_finalize m = free_all_device_infos m
