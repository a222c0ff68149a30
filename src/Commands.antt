-- ===== src/Commands.antt =====
-- The command processor of cbccd/cbccd_cmd.c: command names and codes, the dispatch of a message,
-- and what happens when a client is gone.
pub mod Codes
pub mod Dispatch
use chroot_cbccd.Base.{
  ℕ, zero, suc, Bool, true, false, Option, none, some, List, [], ◌∷◌, ◌>>=◌, get_elem?,
  if◌then◌else◌, Text, codes, str_eq,
}
use chroot_cbccd.Clients.{CmdMgr, cbccd_cmd_free_socket}
use chroot_cbccd.Device.{
  DeviceInfo, cbccd_device_get_info_by_sock, DeviceMgr, Call, RespCode, ok, unknown_act,
  unknown_tbl, not_found_guid, not_found_ou, unknown_obj_type, obj_is_using, ou_name_duplicate,
  not_connected, not_logined, secret_mismatched, device_in_blacklist, confd_failed, json_invalid,
  create_backup_failed, no_exist_backup, no_valid_backup, db_oper_failed, send_failed, out_of_mem,
  file_oper_failed,
}
use chroot_cbccd.Device.Json.{Env, Json, Value, int_val, field}
use chroot_cbccd.Device.Keepalive.{cbccd_device_update_status, cbccd_device_set_offline}
use chroot_cbccd.Device.Login.{top, cbccd_device_login}

-- enum CBCC_CMD_CODES
pub data CmdCode : Type 0 where
  login monitor deploy_obj create_backup restore_backup : CmdCode
  action report agent_disable check_config keepalive cmd_unknown : CmdCode

-- The array of the names, each with its index as a code; it ends with NULL.
unfoldable pub cbcc_cmd_names : List (Text × CmdCode)
cbcc_cmd_names =
    (codes "device.login", login)
    ∷ (codes "device.monitor", monitor)
    ∷ (codes "device.deploy.object", deploy_obj)
    ∷ (codes "device.create.backup", create_backup)
    ∷ (codes "device.restore.backup", restore_backup)
    ∷ (codes "device.action", action)
    ∷ (codes "device.report", report)
    ∷ (codes "device.agent.disable", agent_disable)
    ∷ (codes "device.config.check", check_config)
    ∷ (codes "device.keepalive", keepalive)
    ∷ []

unfoldable pub code_from : List (Text × CmdCode) → Text → CmdCode
code_from [] name = cmd_unknown
code_from ((n, c) ∷ names) name = if str_eq name n then c else code_from names name

unfoldable pub cbccd_get_cmd_code : Text → CmdCode
cbccd_get_cmd_code name = code_from cbcc_cmd_names name

-- The numbers of enum CBCC_RESP_CODE.
unfoldable pub resp_number : RespCode → ℕ
resp_number ok = 0
resp_number unknown_act = 1
resp_number unknown_tbl = 2
resp_number not_found_guid = 3
resp_number not_found_ou = 4
resp_number unknown_obj_type = 5
resp_number obj_is_using = 6
resp_number ou_name_duplicate = 7
resp_number not_connected = 10
resp_number not_logined = 11
resp_number secret_mismatched = 12
resp_number device_in_blacklist = 13
resp_number confd_failed = 20
resp_number json_invalid = 25
resp_number create_backup_failed = 26
resp_number no_exist_backup = 27
resp_number no_valid_backup = 28
resp_number db_oper_failed = 35
resp_number send_failed = 40
resp_number out_of_mem = 41
resp_number file_oper_failed = 50

-- The managers that take the data of a command; a missing "data" is NULL.
pub data Handler : Type 0 where
  mon_set_data config_send_data admin_set_create_backup_info report_set_data : Option Text → Handler

-- What the processing of one message did: the devices, the calls of the device manager, the
-- manager that was given the data, and the response that was sent to the client.
pub record Processed : Type 0 where
  pub devices : DeviceMgr
  pub calls : List Call
  pub handler : Option Handler
  pub response : Option Text

abbrev idle : DeviceMgr → Processed
idle m = record { devices = m; calls = []; handler = none; response = none }

abbrev pub handled_by : DeviceMgr → Handler → Processed
handled_by m h = record (idle m) { handler = some h }

-- `cbccd_cmd_send`, which sends nothing where no device has the socket.
abbrev pub cbccd_cmd_send : DeviceMgr → ℕ → Text → Option Text
cbccd_cmd_send m sock cmd = elim (cbccd_device_get_info_by_sock m (some sock)) [
  | none ↦ none
  | some d ↦ some cmd
]

abbrev pub login_response : Env → RespCode → Text
login_response env code = env.json.build ((top (codes "code"), int_val (resp_number code)) ∷ [])

abbrev pub logged : Env → ℕ → RespCode × DeviceMgr × List Call → Processed
logged env sock r = record {
  devices = r.1;
  calls = r.2;
  handler = none;
  response = cbccd_cmd_send r.1 sock (login_response env r.0);
}

-- The login of a client, and its response. Without "data" the parser is given NULL.
pub process_login : Env → DeviceMgr → ℕ → Text → Option Text → Option Processed
process_login env m sock ip none = none
process_login env m sock ip (some content) =
    some (logged env sock (cbccd_device_login env m sock ip content))

-- A manager that takes data looks for the device first and goes no further unless it is logged in;
-- only taking a backup does without. Beyond that, it gives missing data to the parser as NULL.
abbrev is_sender : Option DeviceInfo → Bool
is_sender none = false
is_sender (some d) = d.is_logined

abbrev pub pass_data : DeviceMgr → Bool → (Option Text → Handler) → Option Text → Option Processed
pass_data m parses h none = if parses then none else some (handled_by m (h none))
pass_data m parses h (some t) = some (handled_by m (h (some t)))

pub process_code : Env → DeviceMgr → ℕ → Text → CmdCode → Option Text → Option Processed
process_code env m sock ip login content = process_login env m sock ip content
process_code env m sock ip monitor content =
    pass_data m (is_sender (cbccd_device_get_info_by_sock m (some sock))) mon_set_data content
process_code env m sock ip deploy_obj content =
    pass_data m (is_sender (cbccd_device_get_info_by_sock m (some sock))) config_send_data content
process_code env m sock ip create_backup content =
    pass_data m true admin_set_create_backup_info content
process_code env m sock ip restore_backup content = some (idle m)
process_code env m sock ip action content = some (idle m)
process_code env m sock ip report content =
    pass_data m (is_sender (cbccd_device_get_info_by_sock m (some sock))) report_set_data content
process_code env m sock ip agent_disable content = some (idle m)
process_code env m sock ip check_config content = some (idle m)
process_code env m sock ip keepalive content =
    some (record (idle m) { devices = cbccd_device_update_status env m (some sock) })
process_code env m sock ip cmd_unknown content = some (idle m)

abbrev pub sent_data : Option (Option Text) → Option Text
sent_data none = none
sent_data (some content) = content

-- `cbccd_process_cmd` of a message from `sock`, whose address is `ip`.
pub cbccd_process_cmd : Env → DeviceMgr → ℕ → Text → Text → Option Processed
cbccd_process_cmd env m sock ip buffer =
    elim (env.json.parse buffer (top (codes "cmd") ∷ top (codes "data") ∷ [])) [
      | none ↦ some (idle m)
      | some fields ↦
          process_code env m sock ip (cbccd_get_cmd_code (field env fields 0))
            (sent_data (get_elem? fields 1))
    ]

-- A client that is gone: its socket is freed and its device set offline.
pub disconnect : Env → CmdMgr → DeviceMgr → ℕ → Option (CmdMgr × DeviceMgr × List Call)
disconnect env cm dm sock = do
  freed ← cbccd_cmd_free_socket cm (some sock)
  let r = cbccd_device_set_offline env dm (some sock) false
  some (freed, r.0, r.1)
