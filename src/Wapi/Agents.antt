-- ===== src/Wapi/Agents.antt =====
-- Requests on devices: actions, backups, deleting, denying and allowing, and web credentials.
use chroot_cbccd.Base.{ℕ, ◌>>=◌, Bool, Option, none, some, List, [], ◌∷◌, Text, codes}
use chroot_cbccd.Json.Parse.{Request}
use chroot_cbccd.Device.{RespCode, ok, DeviceMgr, Call}
use chroot_cbccd.Device.Agent.{cbccd_device_agent_disable, cbccd_device_agent_allow}
use chroot_cbccd.Device.Login.{cbccd_device_get_webcred}
use chroot_cbccd.Admin.{cbccd_admin_send_create_backup_cmd}
use chroot_cbccd.Admin.Restore.{cbccd_admin_send_restore_backup_cmd, cbccd_admin_delete_backup}
use chroot_cbccd.Admin.Action.{cbccd_admin_send_action_cmd}
use chroot_cbccd.Wapi.{
  WapiEnv, Daemon, WapiRequest, Reply, dev_env, admin_env, called, plain, of_admin, with_data,
  random_guid, text_at, with_text, guid_len, text_of, must,
}

abbrev pub dev_guid_request : List Request
dev_guid_request = text_of (codes "dev_guid") guid_len ∷ []

-- CBCC_MAX_COMMENT_LEN and CBCC_MAX_UNAME_LEN are the sizes of the last two.
abbrev create_requests : List Request
create_requests =
    text_of (codes "dev_guid") guid_len
    ∷ text_of (codes "comment") 128
    ∷ text_of (codes "user") 64
    ∷ []

abbrev backup_requests : List Request
backup_requests =
    must (text_of (codes "dev_guid") guid_len) ∷ must (text_of (codes "backup_guid") guid_len) ∷ []

-- CBCC_MAX_HASH_LEN
abbrev pub hash_len : ℕ
hash_len = 64

module _ {S : Type 0} (env : WapiEnv S) (d : Daemon S) (req : WapiRequest) where
  unfoldable pub process_wapi_sysact_req : Option (Reply S)
  process_wapi_sysact_req = do
    t ← req.content
    r ← cbccd_admin_send_action_cmd (admin_env env d) d.world req.action t
    some (of_admin env d r)

  unfoldable pub process_wapi_create_backup_req : Option (Reply S)
  process_wapi_create_backup_req = with_data env d req.content create_requests λ is. do
    r ←
        cbccd_admin_send_create_backup_cmd (admin_env env d) d.world (random_guid env d)
          (text_at env d is 0) (text_at env d is 1) (text_at env d is 2)
    with_text env.admin.lib (codes "guid") (random_guid env d) (of_admin env d r)

  unfoldable pub process_wapi_restore_backup_req : Option (Reply S)
  process_wapi_restore_backup_req = with_data env d req.content backup_requests λ is. do
    r ←
        cbccd_admin_send_restore_backup_cmd (admin_env env d) d.world (text_at env d is 0)
          (text_at env d is 1)
    some (of_admin env d r)

  -- The answer of the deletion is not looked at.
  unfoldable pub process_wapi_delete_backup_req : Option (Reply S)
  process_wapi_delete_backup_req = with_data env d req.content backup_requests λ is. do
    r ←
        cbccd_admin_delete_backup (admin_env env d) d.world (text_at env d is 1)
          (text_at env d is 0)
    some (of_admin env d (ok, r.1))

  -- The device manager's answer is not looked at.
  abbrev of_device : RespCode × DeviceMgr × List Call → Reply S
  of_device (code, devs, calls) = record (plain env d ok) {
    daemon = called env d d.conf devs calls;
  }

  unfoldable pub process_wapi_disable_dev_req : Bool → Option (Reply S)
  process_wapi_disable_dev_req deny = with_data env d req.content dev_guid_request λ is. some (
      of_device (cbccd_device_agent_disable (dev_env env d) d.world.devs deny (text_at env d is 0)))

  unfoldable pub process_wapi_allow_dev_req : Option (Reply S)
  process_wapi_allow_dev_req = with_data env d req.content dev_guid_request λ is.
      some (of_device (cbccd_device_agent_allow (dev_env env d) d.world.devs (text_at env d is 0)))

  abbrev pub credential : RespCode × Option Text → Option (Reply S)
  credential (code, none) = some (plain env d code)
  credential (code, some t) = with_text env.admin.lib (codes "credential") t (plain env d code)

  unfoldable pub process_wapi_get_web_cred : Option (Reply S)
  process_wapi_get_web_cred =
      with_data env d req.content dev_guid_request
        λ is. credential (cbccd_device_get_webcred d.world.devs (text_at env d is 0) hash_len)
