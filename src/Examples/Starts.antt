-- ===== src/Examples/Starts.antt =====
-- A run of the start of the device manager.
use chroot_cbccd.Base.{
  ◌≡◌, refl, true, false, none, some, List, [], ◌∷◌, Text, codes, str_eq, success,
}
use chroot_cbccd.Cache.{
  cbccd_pgsql_cache_get_tbl_data, cbccd_pgsql_cache_get_tbl_rows, table_at, matching_data,
}
use chroot_cbccd.Cache.Names.{cbccd_pgsql_get_tbl_idx, index_from, tbl_names}
use chroot_cbccd.Config.{OuList}
use chroot_cbccd.Device.{DeviceMgr, add_device_info, find_device, cbccd_device_get_info_by_guid}
use chroot_cbccd.Device.Login.{add_device_info_by_guid, parse_device_reg_info}
use chroot_cbccd.Store.{store_data}
use chroot_cbccd.Device.Json.{Env}
use chroot_cbccd.Device.Outcome.{device, flag}
use chroot_cbccd.Device.Pool.{IsValid}
use chroot_cbccd.Device.Start.{
  confd_secret, cleared, cbccd_device_mgr_init, read_device_rows, read_device_row,
}
use chroot_cbccd.Device.Rows.{AllThere}
use chroot_cbccd.Device.Started.{cbccd_device_mgr_init_lem}
use chroot_cbccd.Store.{Db, cbccd_pgsql_set_guid_tbl_data}
use chroot_cbccd.Examples.Texts.{object_text}
use chroot_cbccd.Examples.Devices.{demo_env}
use chroot_cbccd.Examples.Backups.{no_server, backup_world}

abbrev the_db : Db (Unit {0})
the_db = backup_world.db

abbrev start_env : Env
start_env = record demo_env { tables = the_db.tbl_infos }

abbrev no_ous : OuList
no_ous = record { count = 0; default_ou_info = none; ou_infos = [] }

abbrev one_device : List (Text × Text)
one_device = (codes "g1", object_text) ∷ []

secret_cached :
    cbccd_pgsql_cache_get_tbl_data start_env.tables
      (cbccd_pgsql_get_tbl_idx (codes "confd_data"))
      none
    ≡ some (some object_text)
unfolding cbccd_pgsql_cache_get_tbl_data cbccd_pgsql_get_tbl_idx index_from tbl_names str_eq
    table_at matching_data
secret_cached = refl

devices_cached :
    cbccd_pgsql_cache_get_tbl_rows the_db.tbl_infos (cbccd_pgsql_get_tbl_idx (codes "device_info"))
    ≡ some one_device
unfolding cbccd_pgsql_cache_get_tbl_rows cbccd_pgsql_get_tbl_idx index_from tbl_names str_eq
    table_at
devices_cached = refl

ous_cached :
    cbccd_pgsql_cache_get_tbl_rows
      (read_device_rows no_server start_env
        (confd_secret start_env cleared (some object_text))
        the_db
        one_device).1.tbl_infos
      (cbccd_pgsql_get_tbl_idx (codes "device_ou"))
    ≡ some one_device
unfolding cbccd_pgsql_cache_get_tbl_rows cbccd_pgsql_get_tbl_idx index_from tbl_names str_eq
    table_at read_device_rows read_device_row cbccd_pgsql_set_guid_tbl_data
    cbccd_device_get_info_by_guid find_device add_device_info_by_guid parse_device_reg_info
    add_device_info store_data
ous_cached = refl

cbccd_device_mgr_init_lem_example :
    (n : DeviceMgr) × (after : Db (Unit {0})) × (cbccd_device_mgr_init no_server start_env no_ous
        the_db true
      ≡ some (success, n, after))
    × IsValid n
    × AllThere start_env n one_device
    × ((g : Text) → flag (device n g) ≡ false)
cbccd_device_mgr_init_lem_example =
    cbccd_device_mgr_init_lem no_server start_env no_ous the_db (some object_text) one_device
      one_device secret_cached devices_cached ous_cached (tt, tt)
