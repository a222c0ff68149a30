-- ===== src/Wapi/Kept/Agents.antt =====
-- Requests on devices.
use chroot_cbccd.Base.{
  ◌≡◌, refl, Bool, some, inl, inr, Bool-cases, Option-cases, Text, codes, bind-Ensures,
  Ensures-some,
}
use chroot_cbccd.Device.Access.{with_status}
use chroot_cbccd.Device.{
  confirmed, blacklisted, ok, DeviceInfo, find_device, DeviceMgr, has_guid,
  cbccd_device_get_info_by_guid,
}
use chroot_cbccd.Device.Pool.{IsValid, modify-IsValid, remove-IsValid}
use chroot_cbccd.Device.Json.{Env}
use chroot_cbccd.Device.Agent.{cbccd_device_agent_disable, cbccd_device_agent_allow}
use chroot_cbccd.Admin.Devices.{
  AnswerValid, create_backup-AnswerValid, send_action-AnswerValid, delete_backup-AnswerValid,
  send_restore_backup-AnswerValid,
}
use chroot_cbccd.Wapi.{WapiEnv, Daemon, WapiRequest, admin_env, dev_env, of_admin}
use chroot_cbccd.Wapi.Agents.{
  process_wapi_sysact_req, process_wapi_create_backup_req, process_wapi_restore_backup_req,
  process_wapi_delete_backup_req, process_wapi_disable_dev_req, process_wapi_allow_dev_req,
}
use chroot_cbccd.Wapi.Kept.{Sound, called-IsValid, with_data-Sound}
use chroot_cbccd.Wapi.Kept.Replies.{Good, admin-Sound, admin_text-Sound}

disable-IsValid :
    (env : Env) (m : DeviceMgr) (deny : Bool) (guid : Text)
    → IsValid m
    → IsValid (cbccd_device_agent_disable env m deny guid).1
unfolding cbccd_device_agent_disable
disable-IsValid env m deny guid v = elim (Option-cases (cbccd_device_get_info_by_guid m guid)) [
  | inl e ↦ rw (e, cbccd_device_agent_disable) v
  | inr (d, e) ↦ elim (Bool-cases deny) [
    | inl y ↦
        rw (e, cbccd_device_agent_disable, y)
          (modify-IsValid m (has_guid guid) (with_status blacklisted) (λ p. refl) v)
    | inr y ↦ rw (e, cbccd_device_agent_disable, y) (remove-IsValid m guid d v (known e))
  ]
]
  where
    known :
        {d : DeviceInfo}
        → cbccd_device_get_info_by_guid m guid ≡ some d
        → find_device (has_guid guid) m.dev_infos ≡ some d
    known e = unfold cbccd_device_get_info_by_guid in e

allow-IsValid :
    (env : Env) (m : DeviceMgr) (guid : Text)
    → IsValid m
    → IsValid (cbccd_device_agent_allow env m guid).1
unfolding cbccd_device_agent_allow
allow-IsValid env m guid v = elim (Option-cases (cbccd_device_get_info_by_guid m guid)) [
  | inl e ↦ rw (e, cbccd_device_agent_allow) v
  | inr (d, e) ↦
      rw (e, cbccd_device_agent_allow)
        (modify-IsValid m (has_guid guid) (with_status confirmed) (λ p. refl) v)
]

module _ {S : Type 0} (env : WapiEnv S) (d : Daemon S) (v : IsValid d.world.devs) where
  pub sysact_req-Sound : (req : WapiRequest) → Good env d v (process_wapi_sysact_req env d req)
  unfolding process_wapi_sysact_req
  sysact_req-Sound req = bind-Ensures (Sound d) req.content _ λ t e.
      admin-Sound env d v _ (send_action-AnswerValid (admin_env env d) d.world v req.action t)

  pub create_backup_req-Sound :
      (req : WapiRequest) → Good env d v (process_wapi_create_backup_req env d req)
  unfolding process_wapi_create_backup_req
  create_backup_req-Sound req = with_data-Sound env d v req.content _ _ λ is.
      admin_text-Sound env d v (codes "guid") _ _
        (create_backup-AnswerValid (admin_env env d) d.world v _ _ _ _)

  pub restore_backup_req-Sound :
      (req : WapiRequest) → Good env d v (process_wapi_restore_backup_req env d req)
  unfolding process_wapi_restore_backup_req
  restore_backup_req-Sound req =
      with_data-Sound env d v req.content _ _ λ is.
        admin-Sound env d v _ (send_restore_backup-AnswerValid (admin_env env d) d.world v _ _)

  pub delete_backup_req-Sound :
      (req : WapiRequest) → Good env d v (process_wapi_delete_backup_req env d req)
  unfolding process_wapi_delete_backup_req
  delete_backup_req-Sound req = with_data-Sound env d v req.content _ _ λ is.
      bind-Ensures (Sound d) _ (λ r. some (of_admin env d (ok, r.1)))
        λ r e. (
          Ensures-some AnswerValid _ r (delete_backup-AnswerValid (admin_env env d) d.world v _ _)
              e,
          λ x. refl,
        )

  pub disable_dev_req-Sound :
      (deny : Bool) (req : WapiRequest) → Good env d v (process_wapi_disable_dev_req env d req deny)
  unfolding process_wapi_disable_dev_req
  disable_dev_req-Sound deny req = with_data-Sound env d v req.content _ _ λ is. (
    called-IsValid env d v _ _ _ (disable-IsValid (dev_env env d) d.world.devs deny _ v),
    λ e. absurd (cc (e)),
  )

  pub allow_dev_req-Sound :
      (req : WapiRequest) → Good env d v (process_wapi_allow_dev_req env d req)
  unfolding process_wapi_allow_dev_req
  allow_dev_req-Sound req = with_data-Sound env d v req.content _ _ λ is. (
    called-IsValid env d v _ _ _ (allow-IsValid (dev_env env d) d.world.devs _ v),
    λ e. absurd (cc (e)),
  )
