-- ===== src/Device/Outcome.antt =====
-- What a login makes of the list of devices, on every path through the code.
use chroot_cbccd.Base.{
  take, true, ℕ, ◌≡◌, ◌≢◌, refl, ◌∙◌, ap, Bool, false, Option, none, some, List, [], ◌++◌, inl, inr,
  arith, if◌then◌else◌, Option-cases, Bool-cases, Text, str_eq, str_eq_iff, str_eq_refl, str_eq→eq,
}
use chroot_cbccd.Device.{
  online, RegStatus, DeviceInfo, DeviceMgr, RespCode, ok, json_invalid, secret_mismatched,
  device_in_blacklist, Call, has_guid, find_device, modify_guid, add_device_info,
  cbccd_device_get_info_by_guid,
}
use chroot_cbccd.Device.Json.{Env}
use chroot_cbccd.Device.Login.{
  Command, logged_in, is_blacklisted, new_device, parse_device_reg_info, add_device_info_by_guid,
  complete_login, create_log_objects_info, default_ou_calls, login_device, parse_login,
  cbccd_device_login,
}
use chroot_cbccd.Device.Pool.{
  find_device-test, IsValid, KeepsGuid, find-modify_self, find-modify_ne, find-append,
  modify-IsValid, add-IsValid, add-eq-append,
}

-- The device with a guid, and whether it is logged in.
abbrev pub device : DeviceMgr → Text → Option DeviceInfo
device m guid = find_device (has_guid guid) m.dev_infos

abbrev pub flag : Option DeviceInfo → Bool
flag none = false
flag (some d) = d.is_logined

-- A device that is logged in by a command, at a socket and from an address.
pub record IsLoggedIn (env : Env) (sock : ℕ) (ip : Text) (c : Command) (q : DeviceInfo)
    : Type 0 where
  pub own_guid : q.guid ≡ c.guid
  pub logined : q.is_logined ≡ true
  pub connected : q.conn_status ≡ online
  pub at_sock : q.sock ≡ some sock
  pub address : q.device_ipaddr ≡ take 31 ip
  pub credential : q.web_login_cred ≡ take 63 c.password
  pub time : q.updated_tm ≡ env.now

-- What a login leaves of the device there was.
pub record Kept (d q : DeviceInfo) : Type 0 where
  pub same_status : q.reg_status ≡ d.reg_status
  pub same_ou : q.ou_info ≡ d.ou_info
  pub same_monitor_tm : q.send_monitor_tm ≡ d.send_monitor_tm

-- A login that succeeded: the guid was not denied, and its device is logged in, with everything
-- else that it had, if it was known.
pub record Accepted (env : Env) (m : DeviceMgr) (sock : ℕ) (ip : Text) (c : Command) (n : DeviceMgr)
    : Type 0 where
  pub not_denied : (d : DeviceInfo) → device m c.guid ≡ some d → is_blacklisted d.reg_status ≡ false
  pub in_list :
      (q : DeviceInfo) × (device n c.guid ≡ some q)
      × IsLoggedIn env sock ip c q
      × ((d : DeviceInfo) → device m c.guid ≡ some d → Kept d q)

pub record Outcome (env : Env) (m : DeviceMgr) (sock : ℕ) (ip : Text) (c : Command)
    (r : RespCode × DeviceMgr × List Call) : Type 0 where
  pub valid : IsValid r.1
  pub others : (g : Text) → c.guid ≢ g → device r.1 g ≡ device m g
  pub accepted : r.0 ≡ ok → Accepted env m sock ip c r.1
  pub refused : r.0 ≢ ok → (g : Text) → flag (device r.1 g) ≡ flag (device m g)

unchanged :
    (env : Env) (m : DeviceMgr) (sock : ℕ) (ip : Text) (c : Command) (code : RespCode)
    → IsValid m
    → code ≢ ok
    → Outcome env m sock ip c (code, m, [])
unchanged env m sock ip c code v n = record {
  valid = v;
  others = λ g h. refl;
  accepted = λ e. absurd (n e);
  refused = λ e g. refl;
}

written :
    (env : Env) (sock : ℕ) (ip : Text) (c : Command) (d : DeviceInfo)
    → d.guid ≡ c.guid
    → IsLoggedIn env sock ip c (logged_in env sock ip c.password c.info d)
written env sock ip c d e = record {
  own_guid = e;
  logined = refl;
  connected = refl;
  at_sock = refl;
  address = refl;
  credential = refl;
  time = refl;
}

kept :
    (env : Env) (sock : ℕ) (ip : Text) (c : Command) (d p : DeviceInfo)
    → d ≡ p
    → Kept p (logged_in env sock ip c.password c.info d)
kept env sock ip c d p e = record {
  same_status = ap (λ x. x.reg_status) e;
  same_ou = ap (λ x. x.ou_info) e;
  same_monitor_tm = ap (λ x. x.send_monitor_tm) e;
}

known-Outcome :
    (env : Env) (m : DeviceMgr) (sock : ℕ) (ip : Text) (c : Command) (d : DeviceInfo)
    → IsValid m
    → device m c.guid ≡ some d
    → is_blacklisted d.reg_status ≡ false
    → Outcome env m sock ip c (complete_login env m sock ip c [])
known-Outcome env m sock ip c d v e white =
    let write = logged_in env sock ip c.password c.info in
    let keeps : KeepsGuid write = λ p. refl in
    let self = find-modify_self write m.dev_infos c.guid d keeps e in
    record {
      valid = modify-IsValid m (has_guid c.guid) write keeps v;
      others = λ g h. find-modify_ne write m.dev_infos c.guid g keeps h;
      accepted = λ _. record {
        not_denied = λ p q. ground (arith, e, q, white);
        in_list = (
          write d,
          self,
          written env sock ip c d
              (str_eq→eq d.guid c.guid (find_device-test (has_guid c.guid) m.dev_infos d e)),
          λ p q. kept env sock ip c d p (ground (arith, e, q)),
        );
      };
      refused = λ n. absurd (n refl);
    }

new-Outcome :
    (env : Env) (m : DeviceMgr) (sock : ℕ) (ip : Text) (c : Command) (s : RegStatus)
    (calls : List Call)
    → IsValid m
    → device m c.guid ≡ none
    → Outcome env m sock ip c
        (complete_login env (add_device_info m (new_device c.guid s)) sock ip c calls)
new-Outcome env m sock ip c s calls v e =
    let q = new_device c.guid s in
    let write = logged_in env sock ip c.password c.info in
    let keeps : KeepsGuid write = λ p. refl in
    let n = add_device_info m q in
    let there : device n c.guid ≡ some q =
      rw (add-eq-append m q v)
        (ground (arith, find-append m.dev_infos q c.guid, e, str_eq_refl c.guid)) in
    record {
      valid = modify-IsValid n (has_guid c.guid) write keeps (add-IsValid m q v e);
      others = λ g h.
          find-modify_ne write n.dev_infos c.guid g keeps h
          ∙ rw (add-eq-append m q v)
              (ground (arith, find-append m.dev_infos q g, str_eq_iff c.guid g));
      accepted = λ _. record {
        not_denied = λ p h. absurd (cc (e, h));
        in_list = (
          write q,
          find-modify_self write n.dev_infos c.guid q keeps there,
          written env sock ip c q refl,
          λ p h. absurd (cc (e, h)),
        );
      };
      refused = λ k. absurd (k refl);
    }

denied-Outcome :
    (env : Env) (m : DeviceMgr) (sock : ℕ) (ip : Text) (c : Command) (d : DeviceInfo)
    → IsValid m
    → device m c.guid ≡ some d
    → Outcome env m sock ip c
        (device_in_blacklist, modify_guid m c.guid (λ p. record p { sock = some sock }), [])
denied-Outcome env m sock ip c d v e =
    let write : DeviceInfo → DeviceInfo = λ p. record p { sock = some sock } in
    let keeps : KeepsGuid write = λ p. refl in
    record {
      valid = modify-IsValid m (has_guid c.guid) write keeps v;
      others = λ g h. find-modify_ne write m.dev_infos c.guid g keeps h;
      accepted = λ k. absurd (cc);
      refused = λ k g. elim (Bool-cases (str_eq c.guid g)) [
        | inl s ↦
            let same : c.guid ≡ g = str_eq→eq c.guid g s in
            rw (← same) (rw (find-modify_self write m.dev_infos c.guid d keeps e, e))
        | inr s ↦ ap flag (
            find-modify_ne write m.dev_infos c.guid g keeps
              (λ h. absurd (ground (arith, str_eq_iff c.guid g))))
      ];
    }

-- `login_device`, path by path.
login_device-known :
    (env : Env) (m : DeviceMgr) (sock : ℕ) (ip : Text) (c : Command) (d : DeviceInfo)
    → device m c.guid ≡ some d
    → login_device env m sock ip c ≡ (
        if is_blacklisted d.reg_status
        then (device_in_blacklist, modify_guid m c.guid (λ p. record p { sock = some sock }), [])
        else complete_login env m sock ip c [])
unfolding login_device cbccd_device_get_info_by_guid
login_device-known env m sock ip c d e = rw (e, login_device)

add_device_info_by_guid-some :
    (env : Env) (m : DeviceMgr) (guid info : Text) (s : RegStatus)
    → parse_device_reg_info env info ≡ some s
    → add_device_info_by_guid env m guid info ≡ some (add_device_info m (new_device guid s))
unfolding add_device_info_by_guid
add_device_info_by_guid-some env m guid info s e = rw (e, add_device_info_by_guid)

add_device_info_by_guid-none :
    (env : Env) (m : DeviceMgr) (guid info : Text)
    → parse_device_reg_info env info ≡ none
    → add_device_info_by_guid env m guid info ≡ none
unfolding add_device_info_by_guid
add_device_info_by_guid-none env m guid info e = rw (e, add_device_info_by_guid)

login_device-new :
    (env : Env) (m : DeviceMgr) (sock : ℕ) (ip : Text) (c : Command)
    → device m c.guid ≡ none
    → login_device env m sock ip c ≡ elim (add_device_info_by_guid env m c.guid c.info) [
      | none ↦ (json_invalid, m, [])
      | some m' ↦
          complete_login env m' sock ip c
            (create_log_objects_info env c.guid c.info ++ default_ou_calls env c.guid)
    ]
unfolding login_device cbccd_device_get_info_by_guid
login_device-new env m sock ip c e = rw (e, login_device)

login_device-Outcome :
    (env : Env) (m : DeviceMgr) (sock : ℕ) (ip : Text) (c : Command)
    → IsValid m
    → Outcome env m sock ip c (login_device env m sock ip c)
login_device-Outcome env m sock ip c v = elim (Option-cases (device m c.guid)) [
  | inl e ↦
      rw (login_device-new env m sock ip c e)
        (elim (Option-cases (parse_device_reg_info env c.info)) [
          | inl bad ↦
              rw (add_device_info_by_guid-none env m c.guid c.info bad)
                (unchanged env m sock ip c json_invalid v (λ h. cc))
          | inr (s, good) ↦ rw (add_device_info_by_guid-some env m c.guid c.info s good) (
              new-Outcome env m sock ip c s
                (create_log_objects_info env c.guid c.info ++ default_ou_calls env c.guid) v e)
        ])
  | inr (d, e) ↦
      rw (login_device-known env m sock ip c d e) (elim (Bool-cases (is_blacklisted d.reg_status)) [
        | inl black ↦ rw black (denied-Outcome env m sock ip c d v e)
        | inr white ↦ rw white (known-Outcome env m sock ip c d v e white)
      ])
]

login-parsed :
    (env : Env) (m : DeviceMgr) (sock : ℕ) (ip buffer : Text) (c : Command)
    → parse_login env buffer ≡ some c
    → cbccd_device_login env m sock ip buffer ≡ (
        if str_eq c.secret m.secret_key
        then login_device env m sock ip c
        else (secret_mismatched, m, []))
unfolding cbccd_device_login
login-parsed env m sock ip buffer c e = rw (e, cbccd_device_login)

-- A login command that parses, on a valid list: the list stays valid and every other guid's device
-- is as it was. On success the secret was right, the guid was not denied, and its device, the one
-- there was or a new one, is logged in at this socket, with the address, credential and
-- time of the login. On any refusal nobody's login flag is changed.
pub cbccd_device_login-Outcome :
    (env : Env) (m : DeviceMgr) (sock : ℕ) (ip buffer : Text) (c : Command)
    → IsValid m
    → parse_login env buffer ≡ some c
    → let r = cbccd_device_login env m sock ip buffer in
      Outcome env m sock ip c r × (r.0 ≡ ok → c.secret ≡ m.secret_key)
cbccd_device_login-Outcome env m sock ip buffer c v e =
    rw (login-parsed env m sock ip buffer c e) (elim (Bool-cases (str_eq c.secret m.secret_key)) [
      | inl s ↦
          rw s (login_device-Outcome env m sock ip c v, λ _. str_eq→eq c.secret m.secret_key s)
      | inr s ↦ rw s (unchanged env m sock ip c secret_mismatched v (λ h. cc), λ h. absurd (cc))
    ])
