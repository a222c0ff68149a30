-- ===== src/Device/Login.antt =====
-- The login of a device: cbccd_device_login and the functions it calls.
use chroot_cbccd.Base.{
  ℕ, ◌+◌, Bool, true, false, Option, none, some, List, [], ◌∷◌, ◌++◌, if◌then◌else◌, Text, codes,
  str_eq, snprintf,
}
use chroot_cbccd.Device.{
  RegStatus, confirmed, blacklisted, reg_unknown, online, DeviceInfo, DeviceMgr, RespCode, ok,
  json_invalid, secret_mismatched, device_in_blacklist, not_connected, not_logined, Call,
  set_guid_tbl_data, set_cache, get_device_reg_status, modify_guid, add_device_info,
  cbccd_device_get_info_by_guid,
}
use chroot_cbccd.Device.Json.{Env, Key, str_val, int_val, field, cached}

abbrev pub top : Text → Key
top key = record { parent_key = none; key = key }

abbrev pub under : Text → Text → Key
under parent_key key = record { parent_key = some parent_key; key = key }

-- A registration status that is not known counts as confirmed.
abbrev known_status : RegStatus → RegStatus
known_status reg_unknown = confirmed
known_status confirmed = confirmed
known_status blacklisted = blacklisted

unfoldable pub parse_device_reg_info : Env → Text → Option RegStatus
parse_device_reg_info env jstr =
    elim (env.json.parse jstr (under (codes "status") (codes "registration") ∷ [])) [
      | none ↦ none
      | some fields ↦ some (known_status (get_device_reg_status (field env fields 0)))
    ]

-- The structure after `memset` and the first two writes.
abbrev pub new_device : Text → RegStatus → DeviceInfo
new_device guid reg_status = record {
  sock = some 0;
  is_logined = false;
  conn_status = online;
  reg_status = reg_status;
  guid = guid;
  device_ipaddr = [];
  ou_info = none;
  role_type = 0;
  web_login_cred = [];
  updated_tm = 0;
  send_monitor_tm = 0;
}

unfoldable pub add_device_info_by_guid : Env → DeviceMgr → Text → Text → Option DeviceMgr
add_device_info_by_guid env m guid jstr = elim (parse_device_reg_info env jstr) [
  | none ↦ none
  | some reg_status ↦ some (add_device_info m (new_device guid reg_status))
]

unfoldable pub set_dev_ou_info : Env → Text → Text → List Call
set_dev_ou_info env ou_guid dev_guid =
    set_guid_tbl_data (codes "device_ou") dev_guid
      (env.json.build ((top (codes "ou"), str_val ou_guid) ∷ []))
    ∷ []

unfoldable pub create_log_objects_info : Env → Text → Text → List Call
create_log_objects_info env guid jstr = elim (env.json.parse jstr (top (codes "name") ∷ [])) [
  | none ↦ []
  | some fields ↦
      let hname = field env fields 0 in
      set_cache guid (
        env.json.build (
          (top (codes "show"), int_val 1)
          ∷ (top (codes "comment"), str_val hname)
          ∷ (top (codes "ref"), str_val guid)
          ∷ (top (codes "name"), str_val hname)
          ∷ (top (codes "class"), str_val (codes "devices"))
          ∷ (top (codes "type"), str_val (codes "UTM"))
          ∷ []))
      ∷ []
]

-- The flags of the roles, each of which is one bit.
pub record Roles : Type 0 where
  pub admin : Bool
  pub report : Bool
  pub monitor : Bool
  pub config : Bool

abbrev add_role : Roles → Text → Roles
add_role r name =
    if str_eq name (codes "device.admin")
    then record r { admin = true }
    else if str_eq name (codes "device.report")
    then record r { report = true }
    else if str_eq name (codes "device.config")
    then record r { config = true }
    else if str_eq name (codes "device.monitor")
    then record r { monitor = true }
    else r

unfoldable pub add_roles : Roles → List Text → Roles
add_roles r [] = r
add_roles r (name ∷ names) = add_roles (add_role r name) names

abbrev role_bits : Roles → ℕ
role_bits r =
    (if r.admin then 1 else 0)
    + ((if r.report then 2 else 0) + ((if r.monitor then 4 else 0) + (if r.config then 8 else 0)))

unfoldable pub get_role_type : Env → Text → ℕ
get_role_type env jstr = elim (env.json.parse_roles jstr) [
  | none ↦ 0
  | some names ↦
      role_bits (
        add_roles (record { admin = false; report = false; monitor = false; config = false }) names)
]

-- `set_device_status`: the device info in the database says that the device is online.
unfoldable pub set_device_status : Env → Text → Text → Text → List Call
set_device_status env guid device_ipaddr jstr = elim (cached env (codes "device_info") guid) [
  | none ↦ set_guid_tbl_data (codes "device_info") guid jstr ∷ []
  | some previous ↦
      elim (env.json.update previous (
        (under (codes "address") (codes "ipv4_public"), str_val device_ipaddr)
        ∷ (under (codes "status") (codes "connection"), str_val (codes "ONLINE"))
        ∷ (under (codes "status") (codes "registration"), str_val (codes "CONFIRMED"))
        ∷ (under (codes "status") (codes "device"), str_val (codes "PINGABLE"))
        ∷ (under (codes "status") (codes "timestamp"), int_val env.now)
        ∷ [])) [
          | none ↦ []
          | some updated ↦ set_guid_tbl_data (codes "device_info") guid updated ∷ []
        ]
]

-- The device after a login: the writes from the socket to the login flag.
abbrev pub logged_in : Env → ℕ → Text → Text → Text → DeviceInfo → DeviceInfo
logged_in env sock ipaddr cred jstr d = record d {
  sock = some sock;
  device_ipaddr = snprintf 32 ipaddr;
  web_login_cred = snprintf 64 cred;
  role_type = get_role_type env jstr;
  updated_tm = env.now;
  conn_status = online;
  is_logined = true;
}

abbrev pub is_blacklisted : RegStatus → Bool
is_blacklisted blacklisted = true
is_blacklisted confirmed = false
is_blacklisted reg_unknown = false

-- The arrays that the login command fills.
pub record Command : Type 0 where
  pub guid : Text
  pub secret : Text
  pub password : Text
  pub info : Text

unfoldable pub parse_login : Env → Text → Option Command
parse_login env buffer =
    elim (env.json.parse buffer (
      top (codes "guid")
      ∷ top (codes "secret")
      ∷ top (codes "password")
      ∷ top (codes "device.info")
      ∷ [])) [
        | none ↦ none
        | some fields ↦ some (record {
          guid = field env fields 0;
          secret = field env fields 1;
          password = field env fields 2;
          info = field env fields 3;
        })
      ]

-- The end of the login, from the IP address on.
abbrev pub complete_login :
    Env → DeviceMgr → ℕ → Text → Command → List Call → RespCode × DeviceMgr × List Call
complete_login env m sock ipaddr c calls = (
  ok,
  modify_guid m c.guid (logged_in env sock ipaddr c.password c.info),
  calls ++ set_device_status env c.guid (snprintf 32 ipaddr) c.info,
)

abbrev pub default_ou_calls : Env → Text → List Call
default_ou_calls env guid = elim env.default_ou [
  | none ↦ []
  | some ou ↦ set_dev_ou_info env ou guid
]

-- A login of the guid that was sent, once the secret has been checked.
unfoldable pub login_device :
    Env → DeviceMgr → ℕ → Text → Command → RespCode × DeviceMgr × List Call
login_device env m sock ipaddr c = elim (cbccd_device_get_info_by_guid m c.guid) [
  | none ↦ elim (add_device_info_by_guid env m c.guid c.info) [
    | none ↦ (json_invalid, m, [])
    | some m' ↦
        complete_login env m' sock ipaddr c
          (create_log_objects_info env c.guid c.info ++ default_ou_calls env c.guid)
  ]
  | some d ↦
      if is_blacklisted d.reg_status
      then (device_in_blacklist, modify_guid m c.guid (λ p. record p { sock = some sock }), [])
      else complete_login env m sock ipaddr c []
]

unfoldable pub cbccd_device_login :
    Env → DeviceMgr → ℕ → Text → Text → RespCode × DeviceMgr × List Call
cbccd_device_login env m sock ipaddr buffer = elim (parse_login env buffer) [
  | none ↦ (json_invalid, m, [])
  | some c ↦
      if str_eq c.secret m.secret_key
      then login_device env m sock ipaddr c
      else (secret_mismatched, m, [])
]

-- `cbccd_device_get_webcred` into an array of `s` bytes.
unfoldable pub cbccd_device_get_webcred : DeviceMgr → Text → ℕ → RespCode × Option Text
cbccd_device_get_webcred m guid s = elim (cbccd_device_get_info_by_guid m guid) [
  | none ↦ (not_connected, none)
  | some d ↦ if d.is_logined then (ok, some (snprintf s d.web_login_cred)) else (not_logined, none)
]
