-- ===== src/Device/Started.antt =====
-- The list of devices after the start.
use chroot_cbccd.Base.{
  ◌≡◌, refl, ◌∙◌, true, false, Option, none, some, List, [], ◌∷◌, inl, inr, Option-cases, Text,
  codes, success,
}
use chroot_cbccd.Cache.{cbccd_pgsql_cache_get_tbl_data, cbccd_pgsql_cache_get_tbl_rows}
use chroot_cbccd.Cache.Names.{cbccd_pgsql_get_tbl_idx}
use chroot_cbccd.Config.{OuList}
use chroot_cbccd.Device.{DeviceMgr, find_device}
use chroot_cbccd.Device.Json.{Env}
use chroot_cbccd.Device.Login.{top}
use chroot_cbccd.Device.Outcome.{device, flag}
use chroot_cbccd.Device.Pool.{IsValid}
use chroot_cbccd.Device.Start.{
  confd_secret, read_confd_data_from_db, read_device_rows, read_device_infos_from_db, read_ou_rows,
  read_device_ou_infos_from_db, cleared, cbccd_device_mgr_init,
}
use chroot_cbccd.Store.{Server, Db}
use chroot_cbccd.Device.Rows.{AllAbsent, DistinctRows, AllThere, rows-read}
use chroot_cbccd.Device.Placed.{ou_rows-OuRead, AllThere-after}

-- The list before the rows are read: no devices, whatever the secret is.
empty_lem :
    (m : DeviceMgr)
    → m.dev_infos ≡ []
    → m.num_of_devices ≡ 0
    → IsValid m × ((g : Text) → device m g ≡ none)
unfolding find_device
empty_lem m e n = (record { counted = rw (e, n) refl; distinct = rw e tt }, λ g. rw e refl)

confd_keeps :
    (env : Env) (m : DeviceMgr) (o : Option Text)
    → ((confd_secret env m o).dev_infos ≡ m.dev_infos)
      × ((confd_secret env m o).num_of_devices ≡ m.num_of_devices)
confd_keeps env m none = (refl, refl)
confd_keeps env m (some t) = elim (Option-cases (env.json.parse t (top (codes "secret") ∷ []))) [
  | inl e ↦ rw e (refl, refl)
  | inr (fields, e) ↦ rw e (refl, refl)
]

AllAbsent-empty :
    (m : DeviceMgr) (rows : List (Text × Text))
    → ((g : Text) → device m g ≡ none)
    → AllAbsent m rows
AllAbsent-empty m [] h = tt
AllAbsent-empty m ((guid, content) ∷ rows) h = (h guid, AllAbsent-empty m rows h)

-- The start of the device manager, where the three tables are cached, the rows of the devices have
-- distinct guids and the thread can be created: it is defined and succeeds, the list of devices is
-- valid, each row for which parse_device_reg_info gives a status has its device with that status,
-- and nobody is logged in.
pub cbccd_device_mgr_init_lem :
    {S : Type 0} (exec : Server S) (env : Env) (ous : OuList) (db : Db S) (confd : Option Text)
    (rows ou_rows : List (Text × Text))
    → let m = confd_secret env cleared confd in
      cbccd_pgsql_cache_get_tbl_data env.tables (cbccd_pgsql_get_tbl_idx (codes "confd_data")) none
        ≡ some confd
      → cbccd_pgsql_cache_get_tbl_rows db.tbl_infos (cbccd_pgsql_get_tbl_idx (codes "device_info"))
        ≡ some rows
      → cbccd_pgsql_cache_get_tbl_rows
          (read_device_rows exec env m db rows).1.tbl_infos
          (cbccd_pgsql_get_tbl_idx (codes "device_ou"))
        ≡ some ou_rows
      → DistinctRows rows
      → (n : DeviceMgr) × (after : Db S) × (cbccd_device_mgr_init exec env ous db true
          ≡ some (success, n, after))
        × IsValid n
        × AllThere env n rows
        × ((g : Text) → flag (device n g) ≡ false)
unfolding cbccd_device_mgr_init read_confd_data_from_db read_device_infos_from_db
    read_device_ou_infos_from_db
cbccd_device_mgr_init_lem exec env ous db confd rows ou_rows e f h u =
    let m = confd_secret env cleared confd in
    let (same, count) = confd_keeps env cleared confd in
    let (valid, none_there) = empty_lem m same count in
    let r = read_device_rows exec env m db rows in
    let (v, there, flags) =
      rows-read exec env m db rows valid u (AllAbsent-empty m rows none_there) in
    let n = read_ou_rows env ous r.0 ou_rows in
    let ou_read = ou_rows-OuRead env ous r.0 ou_rows v in
    (
      n,
      r.1,
      rw (e, f, h) refl,
      ou_read.valid,
      AllThere-after env r.0 n rows ou_read there,
      λ g. ou_read.same_flag g ∙ flags (λ k. rw (none_there k) refl) g,
    )
