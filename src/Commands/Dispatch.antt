-- ===== src/Commands/Dispatch.antt =====
-- What a message may do: who is answered, and whose login may change.
use chroot_cbccd.Base.{
  ℕ, ◌<◌, ◌≡◌, ◌≢◌, refl, ap, ◌∙◌, Bool, true, false, ◌==◌, Option, none, some, List, [], ◌∷◌, inl,
  inr, arith, get_elem?, Option-cases, Text, codes,
}
use chroot_cbccd.Clients.{CmdMgr, fd_setsize}
use chroot_cbccd.Clients.Highest.{IsRunning, Freed, cbccd_cmd_free_socket-Freed}
use chroot_cbccd.Commands.{
  CmdCode, login, monitor, deploy_obj, create_backup, restore_backup, action, report, agent_disable,
  check_config, keepalive, cmd_unknown, Handler, mon_set_data, config_send_data,
  admin_set_create_backup_info, report_set_data, Processed, handled_by, pass_data, logged,
  cbccd_cmd_send, login_response, sent_data, process_login, process_code, cbccd_get_cmd_code,
  cbccd_process_cmd, disconnect,
}
use chroot_cbccd.Device.{
  offline, ok, DeviceInfo, DeviceMgr, Call, has_guid, has_sock, find_device, modify_device,
  cbccd_device_get_info_by_sock,
}
use chroot_cbccd.Device.Json.{Env, field}
use chroot_cbccd.Device.Keepalive.{cbccd_device_update_status, cbccd_device_set_offline, set_off}
use chroot_cbccd.Device.Login.{top, cbccd_device_login, parse_login}
use chroot_cbccd.Device.Outcome.{device, flag, cbccd_device_login-Outcome}
use chroot_cbccd.Device.Pointers.{found-other, modify-own}
use chroot_cbccd.Device.Pool.{IsValid, KeepsGuid, modify-IsValid}

-- Every write that keepalive and disconnection do keeps the list of devices valid.
update_status-IsValid :
    (env : Env) (m : DeviceMgr) (sock : Option ℕ)
    → IsValid m
    → IsValid (cbccd_device_update_status env m sock)
unfolding cbccd_device_update_status
update_status-IsValid env m sock v = elim (Option-cases (cbccd_device_get_info_by_sock m sock)) [
  | inl e ↦ rw (e, cbccd_device_update_status) v
  | inr (d, e) ↦
      rw (e, cbccd_device_update_status)
        (modify-IsValid m (has_sock sock) (λ p. record p { updated_tm = env.now }) (λ p. refl) v)
]

set_offline-IsValid :
    (env : Env) (m : DeviceMgr) (sock : Option ℕ) (expired : Bool)
    → IsValid m
    → IsValid (cbccd_device_set_offline env m sock expired).0
unfolding cbccd_device_set_offline
set_offline-IsValid env m sock expired v =
    elim (Option-cases (cbccd_device_get_info_by_sock m sock)) [
      | inl e ↦ rw (e, cbccd_device_set_offline) v
      | inr (d, e) ↦
          rw (e, cbccd_device_set_offline) (modify-IsValid m (has_sock sock) set_off (λ p. refl) v)
    ]

-- The code and the data of a message; one that cannot be parsed is an unknown command.
abbrev code_and_data : Env → Option (List (Option Text)) → CmdCode × Option Text
code_and_data env none = (cmd_unknown, none)
code_and_data env (some fields) =
    (cbccd_get_cmd_code (field env fields 0), sent_data (get_elem? fields 1))

abbrev pub command_of : Env → Text → CmdCode × Option Text
command_of env buffer =
    code_and_data env (env.json.parse buffer (top (codes "cmd") ∷ top (codes "data") ∷ []))

process_cmd-code :
    (env : Env) (m : DeviceMgr) (sock : ℕ) (ip buffer : Text)
    → cbccd_process_cmd env m sock ip buffer
      ≡ process_code env m sock ip (command_of env buffer).0 (command_of env buffer).1
unfolding cbccd_process_cmd process_code
process_cmd-code env m sock ip buffer =
    elim (Option-cases (env.json.parse buffer (top (codes "cmd") ∷ top (codes "data") ∷ []))) [
      | inl e ↦ rw (e, cbccd_process_cmd) refl
      | inr (fields, e) ↦ rw (e, cbccd_process_cmd) refl
    ]

-- A write that leaves guid and login flag alone leaves everybody's login flag alone.
flag-modify :
    (test : DeviceInfo → Bool) (f : DeviceInfo → DeviceInfo) (ds : List DeviceInfo) (g : Text)
    → KeepsGuid f
    → ((d : DeviceInfo) → (f d).is_logined ≡ d.is_logined)
    → flag (find_device (has_guid g) (modify_device test f ds)) ≡ flag (find_device (has_guid g) ds)
unfolding find_device modify_device
flag-modify test f [] g k l = refl
flag-modify test f (d ∷ ds) g k l = ground (arith, k d, l d, flag-modify test f ds g k l)

update_status-flag :
    (env : Env) (m : DeviceMgr) (sock : Option ℕ) (g : Text)
    → flag (device (cbccd_device_update_status env m sock) g) ≡ flag (device m g)
unfolding cbccd_device_update_status
update_status-flag env m sock g = elim (Option-cases (cbccd_device_get_info_by_sock m sock)) [
  | inl e ↦ rw (e, cbccd_device_update_status) refl
  | inr (d, e) ↦
      rw (e, cbccd_device_update_status)
        (flag-modify (has_sock sock) (λ p. record p { updated_tm = env.now }) m.dev_infos g
          (λ p. refl) (λ p. refl))
]

login-IsValid :
    (env : Env) (m : DeviceMgr) (sock : ℕ) (ip buffer : Text)
    → IsValid m
    → IsValid (cbccd_device_login env m sock ip buffer).1
unfolding cbccd_device_login
login-IsValid env m sock ip buffer v = elim (Option-cases (parse_login env buffer)) [
  | inl e ↦ rw (e, cbccd_device_login) v
  | inr (c, e) ↦ (cbccd_device_login-Outcome env m sock ip buffer c v e).0.valid
]

-- What a login is answered: an accepted one with its code, a refused one with its code if some
-- device has the socket, and else not at all.
pub record Answered (env : Env) (m : DeviceMgr) (sock : ℕ) (ip content : Text) (p : Processed)
    : Type 0 where
  pub accepted :
      (cbccd_device_login env m sock ip content).0 ≡ ok → p.response ≡ some (login_response env ok)
  pub known :
      (d : DeviceInfo)
      → cbccd_device_get_info_by_sock p.devices (some sock) ≡ some d
      → p.response ≡ some (login_response env (cbccd_device_login env m sock ip content).0)
  pub stranger : cbccd_device_get_info_by_sock p.devices (some sock) ≡ none → p.response ≡ none

-- The device that a login accepted has the socket.
accepted-known :
    (env : Env) (m : DeviceMgr) (sock : ℕ) (ip content : Text)
    → IsValid m
    → (cbccd_device_login env m sock ip content).0 ≡ ok
    → (d : DeviceInfo) × (cbccd_device_get_info_by_sock
          (cbccd_device_login env m sock ip content).1
          (some sock)
        ≡ some d)
unfolding cbccd_device_login cbccd_device_get_info_by_sock
accepted-known env m sock ip content v h = elim (Option-cases (parse_login env content)) [
  | inl e ↦ absurd (cc (rw (e, cbccd_device_login) at h))
  | inr (c, e) ↦
      let out = (cbccd_device_login-Outcome env m sock ip content c v e).0 in
      let (q, there, logined, kept) = (out.accepted h).in_list in
      let n = (cbccd_device_login env m sock ip content).1 in
      found-other (has_guid c.guid) (has_sock (some sock)) n.dev_infos q there
        (rw logined.at_sock (eq_refl sock))
]
  where
    eq_refl : (s : ℕ) → (s == s) ≡ true
    eq_refl s = ground arith

send_known :
    (m : DeviceMgr) (sock : ℕ) (t : Text) (d : DeviceInfo)
    → cbccd_device_get_info_by_sock m (some sock) ≡ some d
    → cbccd_cmd_send m sock t ≡ some t
send_known m sock t d e = rw (e, cbccd_cmd_send) refl

send_stranger :
    (m : DeviceMgr) (sock : ℕ) (t : Text)
    → cbccd_device_get_info_by_sock m (some sock) ≡ none
    → cbccd_cmd_send m sock t ≡ none
send_stranger m sock t e = rw (e, cbccd_cmd_send) refl

login-Answered :
    (env : Env) (m : DeviceMgr) (sock : ℕ) (ip content : Text)
    → IsValid m
    → Answered env m sock ip content (logged env sock (cbccd_device_login env m sock ip content))
login-Answered env m sock ip content v =
    let r = cbccd_device_login env m sock ip content in
    record {
      accepted = λ h.
          let (d, e) = accepted-known env m sock ip content v h in
          send_known r.1 sock (login_response env r.0) d e
          ∙ ap (λ c. some (login_response env c)) h;
      known = λ d e. send_known r.1 sock (login_response env r.0) d e;
      stranger = λ e. send_stranger r.1 sock (login_response env r.0) e;
    }

-- What every command leaves intact, and whom it answers.
pub record Guarded (env : Env) (m : DeviceMgr) (sock : ℕ) (ip : Text) (code : CmdCode)
    (content : Option Text) (p : Processed) : Type 0 where
  pub valid : IsValid p.devices
  pub answered : (t : Text) → code ≡ login → content ≡ some t → Answered env m sock ip t p
  pub silent : code ≢ login → p.response ≡ none
  pub same_logins : code ≢ login → (g : Text) → flag (device p.devices g) ≡ flag (device m g)

-- The commands whose data is looked at.
abbrev pub needs_data : CmdCode → Bool
needs_data login = true
needs_data monitor = true
needs_data deploy_obj = true
needs_data create_backup = true
needs_data report = true
needs_data c = false

module _ (env : Env) (m : DeviceMgr) (sock : ℕ) (ip : Text) (content : Option Text)
    (v : IsValid m) where
  untouched :
      (code : CmdCode) (p : Processed)
      → code ≢ login
      → p.devices ≡ m
      → p.response ≡ none
      → Guarded env m sock ip code content p
  untouched code p h e r = record {
    valid = rw e v;
    answered = λ t k. absurd (h k);
    silent = λ _. r;
    same_logins = λ _ g. rw e refl;
  }

  passed :
      (code : CmdCode) (parses : Bool) (h : Option Text → Handler)
      → code ≢ login
      → content ≢ none
      → (p : Processed) × (pass_data m parses h content ≡ some p)
        × Guarded env m sock ip code content p
  passed code parses h n c = elim (Option-cases content) [
    | inl e ↦ absurd (c e)
    | inr (t, e) ↦ let p = handled_by m (h (some t)) in (p, rw e refl, untouched code p n refl refl)
  ]

  login-Guarded :
      content ≢ none
      → (p : Processed) × (process_login env m sock ip content ≡ some p)
        × Guarded env m sock ip login content p
  unfolding process_login
  login-Guarded c = elim (Option-cases content) [
    | inl e ↦ absurd (c e)
    | inr (t, e) ↦
        let r = cbccd_device_login env m sock ip t in
        (
          logged env sock r,
          rw (e, process_login) refl,
          record {
            valid = login-IsValid env m sock ip t v;
            answered = λ u _ k.
                let same : some u ≡ some t = cc (k, e) in
                let eq : u ≡ t = cc (same) in rw eq (login-Answered env m sock ip t v);
            silent = λ n. absurd (n refl);
            same_logins = λ n. absurd (n refl);
          },
        )
  ]

  process_code-Guarded :
      (code : CmdCode)
      → (needs_data code ≡ true → content ≢ none)
      → (p : Processed) × (process_code env m sock ip code content ≡ some p)
        × Guarded env m sock ip code content p
  unfolding process_code
  process_code-Guarded login h = login-Guarded (h refl)
  process_code-Guarded monitor h = passed monitor _ mon_set_data (λ e. cc) (h refl)
  process_code-Guarded deploy_obj h = passed deploy_obj _ config_send_data (λ e. cc) (h refl)
  process_code-Guarded create_backup h =
      passed create_backup true admin_set_create_backup_info (λ e. cc) (h refl)
  process_code-Guarded restore_backup h = (_, refl, untouched restore_backup _ (λ e. cc) refl refl)
  process_code-Guarded action h = (_, refl, untouched action _ (λ e. cc) refl refl)
  process_code-Guarded report h = passed report _ report_set_data (λ e. cc) (h refl)
  process_code-Guarded agent_disable h = (_, refl, untouched agent_disable _ (λ e. cc) refl refl)
  process_code-Guarded check_config h = (_, refl, untouched check_config _ (λ e. cc) refl refl)
  process_code-Guarded keepalive h = (
    _,
    refl,
    record {
      valid = update_status-IsValid env m (some sock) v;
      answered = λ t k. absurd (cc (k));
      silent = λ _. refl;
      same_logins = λ _. update_status-flag env m (some sock);
    },
  )
  process_code-Guarded cmd_unknown h = (_, refl, untouched cmd_unknown _ (λ e. cc) refl refl)

-- Any message that has data where its command's data is looked at: dispatching it is defined. The
-- list of devices stays valid. A login that is accepted is answered with its code, a refused one
-- with its code if some device has the socket, and else not at all; no other command is answered,
-- and none changes whether anybody is logged in. What the managers do with the data is not said.
pub cbccd_process_cmd-Guarded :
    (env : Env) (m : DeviceMgr) (sock : ℕ) (ip buffer : Text)
    → IsValid m
    → (needs_data (command_of env buffer).0 ≡ true → (command_of env buffer).1 ≢ none)
    → (p : Processed) × (cbccd_process_cmd env m sock ip buffer ≡ some p)
      × Guarded env m sock ip (command_of env buffer).0 (command_of env buffer).1 p
cbccd_process_cmd-Guarded env m sock ip buffer v h =
    let (code, content) = command_of env buffer in
    let (p, e, g) = process_code-Guarded env m sock ip content v code h in
    (p, process_cmd-code env m sock ip buffer ∙ e, g)

-- A device that has lost its connection.
abbrev pub gone : DeviceInfo → DeviceInfo
gone d = record d { sock = none; conn_status = offline; is_logined = false }

-- A client that is gone: nothing is undefined, the manager of the sockets keeps running without
-- the socket and its buffer, and the list of devices stays valid. If a device has the socket, it is
-- offline afterwards, without a socket and not logged in, and every other guid's device is as it
-- was; if none has, the list is as it was.
pub disconnect_lem :
    (env : Env) (cm : CmdMgr) (dm : DeviceMgr) (sock : ℕ)
    → IsRunning cm
    → IsValid dm
    → sock < fd_setsize
    → sock ≢ cm.cmd_srv_sock
    → (r : CmdMgr × DeviceMgr × List Call) × (disconnect env cm dm sock ≡ some r)
      × Freed cm sock r.0
      × IsValid r.1
      × ((d : DeviceInfo)
          → cbccd_device_get_info_by_sock dm (some sock) ≡ some d
          → (device r.1 d.guid ≡ some (gone d))
            × ((g : Text) → d.guid ≢ g → device r.1 g ≡ device dm g))
      × (cbccd_device_get_info_by_sock dm (some sock) ≡ none → r.1 ≡ dm)
unfolding disconnect cbccd_device_set_offline cbccd_device_get_info_by_sock
disconnect_lem env cm dm sock v w small other =
    let (n, e, f) = cbccd_cmd_free_socket-Freed cm sock v small other in
    let r = cbccd_device_set_offline env dm (some sock) false in
    (
      (n, r.0, r.1),
      rw e refl,
      f,
      set_offline-IsValid env dm (some sock) false w,
      λ d there.
          let write =
            modify-own (has_sock (some sock)) set_off dm.dev_infos d (λ p. refl) w.distinct there in
          rw (there, cbccd_device_set_offline) write,
      λ none_there. rw (none_there, cbccd_device_set_offline) refl,
    )
