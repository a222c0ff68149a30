-- ===== src/Device/Agent.antt =====
-- Denying, deleting and allowing a device, and its OU: cbccd_device_agent_disable,
-- cbccd_device_agent_allow and cbccd_device_set_ou_info.
use chroot_cbccd.Base.{Bool, none, some, List, [], ◌∷◌, ◌++◌, map, if◌then◌else◌, Text, codes}
use chroot_cbccd.Device.{
  RegStatus, confirmed, blacklisted, reg_unknown, DeviceInfo, DeviceMgr, RespCode, ok,
  not_connected, Call, set_guid_tbl_data, rm_guid_tbl_data, send_cmd, free_socket, mon_remove_data,
  admin_delete_all_backups, report_delete_data, modify_guid, remove_device_info,
  cbccd_device_get_info_by_guid,
}
use chroot_cbccd.Device.Json.{Env, str_val, cached}
use chroot_cbccd.Device.Login.{top, under, set_dev_ou_info}

abbrev reg_status_str : RegStatus → Text
reg_status_str blacklisted = codes "BLACKLISTED"
reg_status_str confirmed = codes "CONFIRMED"
reg_status_str reg_unknown = codes "CONFIRMED"

-- The answer of `cbcc_json_update` is not looked at: if it fails, an array that nothing was
-- written to is stored.
unfoldable pub set_reg_status_into_db : Env → Text → RegStatus → List Call
set_reg_status_into_db env guid reg_status = elim (cached env (codes "device_info") guid) [
  | none ↦ []
  | some previous ↦
      set_guid_tbl_data (codes "device_info") guid
        (elim (env.json.update previous (
          (under (codes "status") (codes "registration"), str_val (reg_status_str reg_status))
          ∷ [])) [ none ↦ env.uninit | some updated ↦ updated ])
      ∷ []
]

-- The tables from which a deleted device is removed after the monitoring data.
abbrev device_tables : List Text
device_tables =
    codes "device_ou"
    ∷ codes "monitoring_dashboard"
    ∷ codes "monitoring_availability"
    ∷ codes "monitoring_hardware"
    ∷ codes "monitoring_license"
    ∷ codes "monitoring_network"
    ∷ codes "monitoring_resource"
    ∷ codes "monitoring_threat"
    ∷ codes "monitoring_version"
    ∷ codes "monitoring_service"
    ∷ codes "config_common"
    ∷ codes "device_inventory"
    ∷ codes "device_product"
    ∷ []

abbrev pub set_reg_status : DeviceMgr → Text → RegStatus → DeviceMgr
set_reg_status m guid reg_status = modify_guid m guid (λ p. record p { reg_status = reg_status })

abbrev disable_calls : Env → DeviceInfo → List Call
disable_calls env d =
    if d.is_logined
    then send_cmd d.sock
        (env.json.build ((top (codes "cmd"), str_val (codes "device.agent.disable")) ∷ []))
      ∷ []
    else []

unfoldable pub cbccd_device_agent_disable :
    Env → DeviceMgr → Bool → Text → RespCode × DeviceMgr × List Call
cbccd_device_agent_disable env m deny guid = elim (cbccd_device_get_info_by_guid m guid) [
  | none ↦ (not_connected, m, [])
  | some d ↦
      if deny
      then (
        ok,
        set_reg_status m guid blacklisted,
        disable_calls env d ++ set_reg_status_into_db env d.guid blacklisted,
      )
      else (
        ok,
        remove_device_info m guid,
        rm_guid_tbl_data (codes "device_info") d.guid
            ∷ free_socket d.sock
            ∷ mon_remove_data guid
            ∷ (map (λ name. rm_guid_tbl_data name guid) device_tables
                ++ (admin_delete_all_backups guid ∷ report_delete_data guid ∷ [])),
      )
]

unfoldable pub cbccd_device_agent_allow : Env → DeviceMgr → Text → RespCode × DeviceMgr × List Call
cbccd_device_agent_allow env m guid = elim (cbccd_device_get_info_by_guid m guid) [
  | none ↦ (not_connected, m, [])
  | some d ↦ (ok, set_reg_status m guid confirmed, set_reg_status_into_db env d.guid confirmed)
]

-- `ou` is the guid of the OU.
unfoldable pub cbccd_device_set_ou_info : Env → DeviceMgr → Text → Text → DeviceMgr × List Call
cbccd_device_set_ou_info env m guid ou = elim (cbccd_device_get_info_by_guid m guid) [
  | none ↦ (m, [])
  | some d ↦
      (modify_guid m guid (λ p. record p { ou_info = some ou }), set_dev_ou_info env ou d.guid)
]
