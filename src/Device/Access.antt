-- ===== src/Device/Access.antt =====
-- Who may log in: denying, deleting and allowing a device, followed by a login.
use chroot_cbccd.Base.{
  take, ℕ, ◌≡◌, ◌≢◌, refl, Bool, true, false, Option, none, some, inl, inr, Option-cases,
  Bool-cases, Text, snprintf,
}
use chroot_cbccd.Device.{
  RegStatus, confirmed, blacklisted, DeviceInfo, DeviceMgr, ok, has_guid, remove_device_info,
  cbccd_device_get_info_by_guid,
}
use chroot_cbccd.Device.Agent.{set_reg_status, cbccd_device_agent_disable, cbccd_device_agent_allow}
use chroot_cbccd.Device.Json.{Env}
use chroot_cbccd.Device.Login.{
  Command, is_blacklisted, parse_login, cbccd_device_login, cbccd_device_get_webcred,
}
use chroot_cbccd.Device.Outcome.{device, flag, cbccd_device_login-Outcome}
use chroot_cbccd.Device.Pool.{
  IsValid, KeepsGuid, find-modify_self, find-modify_ne, find-unlink_self, find-unlink_ne,
  modify-IsValid, remove-IsValid, remove-eq-unlink,
}

-- The device with the guid is `o` afterwards, and every other one is as it was.
pub record Only (m n : DeviceMgr) (guid : Text) (o : Option DeviceInfo) : Type 0 where
  pub valid : IsValid n
  pub own : device n guid ≡ o
  pub others : (g : Text) → guid ≢ g → device n g ≡ device m g

abbrev pub with_status : RegStatus → DeviceInfo → DeviceInfo
with_status s d = record d { reg_status = s }

set_reg_status-Only :
    (m : DeviceMgr) (guid : Text) (s : RegStatus) (d : DeviceInfo)
    → IsValid m
    → device m guid ≡ some d
    → Only m (set_reg_status m guid s) guid (some (with_status s d))
set_reg_status-Only m guid s d v e =
    let keeps : KeepsGuid (with_status s) = λ p. refl in
    record {
      valid = modify-IsValid m (has_guid guid) (with_status s) keeps v;
      own = find-modify_self (with_status s) m.dev_infos guid d keeps e;
      others = λ g h. find-modify_ne (with_status s) m.dev_infos guid g keeps h;
    }

remove-Only :
    (m : DeviceMgr) (guid : Text) (d : DeviceInfo)
    → IsValid m
    → device m guid ≡ some d
    → Only m (remove_device_info m guid) guid none
remove-Only m guid d v e = record {
  valid = remove-IsValid m guid d v e;
  own = rw (remove-eq-unlink m guid d v e) (find-unlink_self m.dev_infos guid v.distinct);
  others = λ g h. rw (remove-eq-unlink m guid d v e) (find-unlink_ne m.dev_infos guid g h);
}

-- What is left of a device that is denied, or deleted.
abbrev pub disabled : Bool → DeviceInfo → Option DeviceInfo
disabled true d = some (with_status blacklisted d)
disabled false d = none

-- Disabling a known device denies or deletes that device alone, and keeps the list valid.
pub agent_disable-Only :
    (env : Env) (m : DeviceMgr) (deny : Bool) (guid : Text) (d : DeviceInfo)
    → IsValid m
    → device m guid ≡ some d
    → let r = cbccd_device_agent_disable env m deny guid in
      (r.0 ≡ ok) × Only m r.1 guid (disabled deny d)
unfolding cbccd_device_agent_disable cbccd_device_get_info_by_guid
agent_disable-Only env m true guid d v e =
    rw (e, cbccd_device_agent_disable) (refl, set_reg_status-Only m guid blacklisted d v e)
agent_disable-Only env m false guid d v e =
    rw (e, cbccd_device_agent_disable) (refl, remove-Only m guid d v e)

-- Allowing a known device confirms that device alone, and keeps the list valid.
pub agent_allow-Only :
    (env : Env) (m : DeviceMgr) (guid : Text) (d : DeviceInfo)
    → IsValid m
    → device m guid ≡ some d
    → let r = cbccd_device_agent_allow env m guid in
      (r.0 ≡ ok) × Only m r.1 guid (some (with_status confirmed d))
unfolding cbccd_device_agent_allow cbccd_device_get_info_by_guid
agent_allow-Only env m guid d v e =
    rw (e, cbccd_device_agent_allow) (refl, set_reg_status-Only m guid confirmed d v e)

-- A device that has been denied cannot log in: whatever it sends under its guid, from any socket,
-- the login is refused, and nobody's login flag is changed by the attempt.
pub denied_cannot_login :
    (env : Env) (m : DeviceMgr) (guid : Text) (d : DeviceInfo) (sock : ℕ) (ip buffer : Text)
    (c : Command)
    → IsValid m
    → device m guid ≡ some d
    → parse_login env buffer ≡ some c
    → c.guid ≡ guid
    → let n = (cbccd_device_agent_disable env m true guid).1 in
      let r = cbccd_device_login env n sock ip buffer in
      (r.0 ≢ ok) × ((g : Text) → flag (device r.1 g) ≡ flag (device n g))
denied_cannot_login env m guid d sock ip buffer c v e p own =
    let (_, only) = agent_disable-Only env m true guid d v e in
    let n = (cbccd_device_agent_disable env m true guid).1 in
    let (out, _) = cbccd_device_login-Outcome env n sock ip buffer c only.valid p in
    let refused : (cbccd_device_login env n sock ip buffer).0 ≢ ok = λ h.
      let black : is_blacklisted (with_status blacklisted d).reg_status ≡ false =
        (out.accepted h).not_denied (with_status blacklisted d) (rw own only.own) in
      absurd (cc (black)) in
    (refused, out.refused refused)

-- After a login that succeeded the web credential of the device is what the login sent, cut to
-- the sizes of the arrays.
pub login-get_webcred :
    (env : Env) (m : DeviceMgr) (sock : ℕ) (ip buffer : Text) (c : Command) (s : ℕ)
    → IsValid m
    → parse_login env buffer ≡ some c
    → let r = cbccd_device_login env m sock ip buffer in
      r.0 ≡ ok
      → cbccd_device_get_webcred r.1 c.guid s ≡ (ok, some (snprintf s (take 63 c.password)))
unfolding cbccd_device_get_webcred cbccd_device_get_info_by_guid
login-get_webcred env m sock ip buffer c s v p h =
    let (q, e, l, _) =
      ((cbccd_device_login-Outcome env m sock ip buffer c v p).0.accepted h).in_list in
    rw (e, cbccd_device_get_webcred, l.logined, l.credential) refl

-- A web credential is given out exactly for a device that is known and logged in.
pub get_webcred-logined :
    (m : DeviceMgr) (guid : Text) (s : ℕ)
    → (cbccd_device_get_webcred m guid s).0 ≡ ok
    → flag (device m guid) ≡ true
unfolding cbccd_device_get_webcred cbccd_device_get_info_by_guid
get_webcred-logined m guid s h = elim (Option-cases (device m guid)) [
  | inl e ↦ absurd (cc (rw (e, cbccd_device_get_webcred) at h))
  | inr (d, e) ↦ elim (Bool-cases d.is_logined) [
    | inl l ↦ rw e l
    | inr l ↦ absurd (cc (rw (e, cbccd_device_get_webcred, l) at h))
  ]
]
