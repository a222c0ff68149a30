-- ===== src/Store/Devices.antt =====
-- What cbccd_pgsql_set_guid_tbl_data does to the list of devices.
use chroot_cbccd.Base.{
  ◌≡◌, ◌≢◌, refl, none, some, arith, inl, inr, Option-cases, Text, str_eq_refl, str_eq_iff,
}
use chroot_cbccd.Device.{RegStatus, DeviceMgr, add_device_info, cbccd_device_get_info_by_guid}
use chroot_cbccd.Device.Json.{Env}
use chroot_cbccd.Device.Login.{new_device, parse_device_reg_info, add_device_info_by_guid}
use chroot_cbccd.Device.Outcome.{device}
use chroot_cbccd.Device.Pool.{IsValid, find-append, add-eq-append, add-IsValid}
use chroot_cbccd.Store.{Server, Db, no_device_info, store_new, cbccd_pgsql_set_guid_tbl_data}

pub device-add :
    (devs : DeviceMgr) (guid g : Text) (s : RegStatus)
    → IsValid devs
    → device devs guid ≡ none
    → (device (add_device_info devs (new_device guid s)) guid ≡ some (new_device guid s))
      × (guid ≢ g → device (add_device_info devs (new_device guid s)) g ≡ device devs g)
device-add devs guid g s v e = (
  rw
      (
        add-eq-append devs (new_device guid s) v,
        find-append devs.dev_infos (new_device guid s) guid,
        e,
        str_eq_refl guid,
      )
      refl,
  λ n. ground (
    arith,
    n,
    add-eq-append devs (new_device guid s) v,
    find-append devs.dev_infos (new_device guid s) g,
    str_eq_iff guid g,
  ),
)

-- Whatever is stored, the list of devices stays valid.
pub set_guid_tbl_data-IsValid :
    {S : Type 0} (exec : Server S) (env : Env) (devs : DeviceMgr) (db : Db S) (name guid t : Text)
    → IsValid devs
    → IsValid (cbccd_pgsql_set_guid_tbl_data exec env devs db name guid t).1
unfolding cbccd_pgsql_set_guid_tbl_data cbccd_device_get_info_by_guid store_new
    add_device_info_by_guid
set_guid_tbl_data-IsValid exec env devs db name guid t v = elim (Option-cases (device devs guid)) [
  | inl e ↦ elim (Option-cases (parse_device_reg_info env t)) [
    | inl p ↦ rw (e, cbccd_pgsql_set_guid_tbl_data, p, store_new, add_device_info_by_guid) v
    | inr (s, p) ↦
        rw (e, cbccd_pgsql_set_guid_tbl_data, p, store_new, add_device_info_by_guid)
          (add-IsValid devs (new_device guid s) v e)
  ]
  | inr (d, e) ↦ rw (e, cbccd_pgsql_set_guid_tbl_data) v
]

-- Storing under a guid that no device has, in whatever table, on a valid list of devices: where
-- parse_device_reg_info fails, as it does only where the JSON layer cannot parse the data, nothing
-- is stored and no statement is executed; else, also for data without a status, a device with the
-- guid and the status that it gives is added, the list stays valid and the other devices are as
-- they were.
pub set_guid_tbl_data-adds :
    {S : Type 0} (exec : Server S) (env : Env) (devs : DeviceMgr) (db : Db S) (name guid t : Text)
    → IsValid devs
    → device devs guid ≡ none
    → let store = cbccd_pgsql_set_guid_tbl_data exec env devs db name guid t in
      (parse_device_reg_info env t ≡ none → store ≡ (no_device_info, devs, db))
      × ((s : RegStatus)
          → parse_device_reg_info env t ≡ some s
          → (device store.1 guid ≡ some (new_device guid s))
            × IsValid store.1
            × ((g : Text) → guid ≢ g → device store.1 g ≡ device devs g))
unfolding cbccd_pgsql_set_guid_tbl_data cbccd_device_get_info_by_guid store_new
    add_device_info_by_guid
set_guid_tbl_data-adds exec env devs db name guid t v e = (
  λ p. rw (e, cbccd_pgsql_set_guid_tbl_data, p, store_new, add_device_info_by_guid) refl,
  λ s p.
      rw (e, cbccd_pgsql_set_guid_tbl_data, p, store_new, add_device_info_by_guid)
        (
          (device-add devs guid guid s v e).0,
          add-IsValid devs (new_device guid s) v e,
          λ g. (device-add devs guid g s v e).1,
        ),
)
