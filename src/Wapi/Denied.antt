-- ===== src/Wapi/Denied.antt =====
-- A request that denies a device, and the login of the device afterwards.
use chroot_cbccd.Base.{
  ℕ, ◌≡◌, ◌≢◌, refl, sym, subst, ◌∙◌, true, false, Option, none, some, List, [], ◌∷◌, ◌++◌, inl,
  inr, Option-cases, Text, codes, Bool, if◌then◌else◌, str_eq→eq,
}
use chroot_cbccd.Json.Parse.{Item}
use chroot_cbccd.Device.{
  blacklisted, DeviceInfo, DeviceMgr, ok, Call, set_guid_tbl_data, send_cmd, rm_guid_tbl_data,
  set_cache, free_socket, mon_remove_data, admin_delete_all_backups, report_delete_data,
  cbccd_device_get_info_by_guid, has_guid,
}
use chroot_cbccd.Device.Pool.{IsValid, find_device-test}
use chroot_cbccd.Device.Json.{Env, cached}
use chroot_cbccd.Device.Agent.{cbccd_device_agent_disable, set_reg_status_into_db, set_reg_status}
use chroot_cbccd.Device.Login.{Command, is_blacklisted, parse_login, cbccd_device_login}
use chroot_cbccd.Device.Outcome.{device, cbccd_device_login-Outcome}
use chroot_cbccd.Device.Access.{with_status, agent_disable-Only}
use chroot_cbccd.Store.{cbccd_pgsql_set_guid_tbl_data}
use chroot_cbccd.Admin.{AdminEnv, World, put_data}
use chroot_cbccd.Wapi.{
  WapiEnv, Daemon, WapiRequest, Reply, dev_env, parse_data, text_at, call_once, call, perform_calls,
  called,
}
use chroot_cbccd.Wapi.ActType.{deny_dev_act}
use chroot_cbccd.Wapi.Agents.{dev_guid_request, process_wapi_disable_dev_req}
use chroot_cbccd.Wapi.Dispatch.{process_act}

-- A call that adds no device: a command, or a row under the guid of a known one.
abbrev Quiet : DeviceMgr → Call → Type 0
Quiet devs (send_cmd sock t) = Unit {0}
Quiet devs (set_guid_tbl_data name guid t) =
    (d : DeviceInfo) × (cbccd_device_get_info_by_guid devs guid ≡ some d)
Quiet devs c = ⊥

abbrev AllQuiet : DeviceMgr → List Call → Type 0
AllQuiet devs [] = Unit {0}
AllQuiet devs (c ∷ cs) = Quiet devs c × AllQuiet devs cs

AllQuiet-append :
    (devs : DeviceMgr) (cs es : List Call)
    → AllQuiet devs cs
    → AllQuiet devs es
    → AllQuiet devs (cs ++ es)
AllQuiet-append devs [] es h k = k
AllQuiet-append devs (c ∷ cs) es h k = (h.0, AllQuiet-append devs cs es h.1 k)

module _ {S : Type 0} (env : AdminEnv S) where
  call-devs : (w : World S) (c : Call) → Quiet w.devs c → (call env w c).devs ≡ w.devs
  unfolding call call_once put_data cbccd_pgsql_set_guid_tbl_data
  call-devs w (send_cmd sock t) q = refl
  call-devs w (set_guid_tbl_data name guid t) (d, e) = rw (e, cbccd_pgsql_set_guid_tbl_data) refl
  call-devs w (rm_guid_tbl_data name guid) q = elim q [ ]
  call-devs w (set_cache guid t) q = elim q [ ]
  call-devs w (free_socket sock) q = elim q [ ]
  call-devs w (mon_remove_data guid) q = elim q [ ]
  call-devs w (admin_delete_all_backups guid) q = elim q [ ]
  call-devs w (report_delete_data guid) q = elim q [ ]

  perform_calls-devs :
      (w : World S) (cs : List Call) → AllQuiet w.devs cs → (perform_calls env w cs).devs ≡ w.devs
  unfolding perform_calls
  perform_calls-devs w [] q = refl
  perform_calls-devs w (c ∷ cs) q =
      let same = call-devs w c q.0 in perform_calls-devs (call env w c) cs (rw same q.1) ∙ same

command-AllQuiet :
    (devs : DeviceMgr) (b : Bool) (sock : Option ℕ) (t : Text)
    → AllQuiet devs (if b then send_cmd sock t ∷ [] else [])
command-AllQuiet devs true sock t = (tt, tt)
command-AllQuiet devs false sock t = tt

status-AllQuiet :
    (env : Env) (devs : DeviceMgr) (guid : Text) (q : DeviceInfo)
    → cbccd_device_get_info_by_guid devs guid ≡ some q
    → AllQuiet devs (set_reg_status_into_db env guid blacklisted)
unfolding set_reg_status_into_db
status-AllQuiet env devs guid q e = elim (Option-cases (cached env (codes "device_info") guid)) [
  | inl n ↦ rw (n, set_reg_status_into_db) tt
  | inr (t, n) ↦ rw (n, set_reg_status_into_db) ((q, e), tt)
]

module _ (env : Env) (m : DeviceMgr) (guid : Text) (d : DeviceInfo) (v : IsValid m)
    (e : device m guid ≡ some d) where
  guid_eq : d.guid ≡ guid
  guid_eq = str_eq→eq d.guid guid (find_device-test (has_guid guid) m.dev_infos d e)

  -- What denying a known device calls: its command, and its row in the table of devices.
  deny-AllQuiet : let r = cbccd_device_agent_disable env m true guid in AllQuiet r.1 r.2
  unfolding cbccd_device_agent_disable cbccd_device_get_info_by_guid
  deny-AllQuiet =
      let own : device (set_reg_status m guid blacklisted) guid ≡ some (with_status blacklisted d) =
        rw (e, cbccd_device_agent_disable) at (agent_disable-Only env m true guid d v e).1.own in
      let n = set_reg_status m guid blacklisted in
      rw (e, cbccd_device_agent_disable)
        (AllQuiet-append n _ (set_reg_status_into_db env d.guid blacklisted)
          (command-AllQuiet n d.is_logined d.sock _)
          (status-AllQuiet env n d.guid (with_status blacklisted d)
            (subst (λ g. device n g ≡ some (with_status blacklisted d)) (sym guid_eq) own)))

-- A request that denies a device, known in a valid list, whose guid it gives: it is answered with
-- OK, without undefined behaviour, and afterwards whatever parses as a login under that guid, from
-- any socket, is refused.
pub deny_dev-cannot_login :
    {S : Type 0} (env : WapiEnv S) (d : Daemon S) (req : WapiRequest) (is : List (Option Item))
    (dev : DeviceInfo)
    → IsValid d.world.devs
    → parse_data env d req.content dev_guid_request ≡ some (some is)
    → device d.world.devs (text_at env d is 0) ≡ some dev
    → (r : Reply S) × (process_act env d deny_dev_act req ≡ some r)
      × (r.code ≡ ok)
      × ((login_env : Env) (sock : ℕ) (ip buffer : Text) (c : Command)
          → parse_login login_env buffer ≡ some c
          → c.guid ≡ text_at env d is 0
          → (cbccd_device_login login_env r.daemon.world.devs sock ip buffer).0 ≢ ok)
unfolding process_act process_wapi_disable_dev_req called
deny_dev-cannot_login env d req is dev v e known =
    let guid = text_at env d is 0 in
    let r = cbccd_device_agent_disable (dev_env env d) d.world.devs true guid in
    let only = (agent_disable-Only (dev_env env d) d.world.devs true guid dev v known).1 in
    (
      record { code = ok; resp_data = none; daemon = called env d d.conf r.1 r.2 },
      rw e refl,
      refl,
      λ login_env sock ip buffer c parses own.
          let same : (called env d d.conf r.1 r.2).world.devs ≡ r.1 =
            perform_calls-devs _ _ r.2
              (deny-AllQuiet (dev_env env d) d.world.devs guid dev v known) in
          rw same (λ h.
            let out =
              (cbccd_device_login-Outcome login_env r.1 sock ip buffer c only.valid parses).0 in
            let black : is_blacklisted (with_status blacklisted dev).reg_status ≡ false =
              (out.accepted h).not_denied (with_status blacklisted dev) (rw own only.own) in
            absurd (cc (black))),
    )
