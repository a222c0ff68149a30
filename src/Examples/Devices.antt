-- ===== src/Examples/Devices.antt =====
-- Runs of the device manager, the client sockets and the command processor.
use chroot_cbccd.Base.{
  ℕ, ◌≡◌, ◌≢◌, refl, true, false, Option, none, some, List, [], ◌∷◌, map, take, arith,
  if◌then◌else◌, Text, codes, str_eq,
}
use chroot_cbccd.Cache.{Row, TblInfo, cbccd_pgsql_cache_get_tbl_data, table_at, matching_data}
use chroot_cbccd.Cache.Names.{tbl_names, max_tbl_num, cbccd_pgsql_get_tbl_idx, index_from}
use chroot_cbccd.Clients.{CmdMgr, FdSet, set_bit, cbccd_cmd_free_socket}
use chroot_cbccd.Clients.Highest.{IsRunning, Freed, cbccd_cmd_free_socket-Freed}
use chroot_cbccd.Commands.{Processed, cbccd_process_cmd, disconnect}
use chroot_cbccd.Commands.Dispatch.{
  Guarded, command_of, cbccd_process_cmd-Guarded, gone, disconnect_lem,
}
use chroot_cbccd.Device.{
  cbccd_device_get_info_by_sock, confirmed, online, DeviceInfo, DeviceMgr, ok, Call, find_device,
}
use chroot_cbccd.Device.Access.{denied_cannot_login}
use chroot_cbccd.Device.Agent.{cbccd_device_agent_disable}
use chroot_cbccd.Device.Json.{Env, Json, cached}
use chroot_cbccd.Device.Keepalive.{check_keepalive_status}
use chroot_cbccd.Device.Login.{Command, parse_login, cbccd_device_login}
use chroot_cbccd.Device.Outcome.{device, flag, Outcome, cbccd_device_login-Outcome}
use chroot_cbccd.Device.Pool.{IsValid}
use chroot_cbccd.Device.Silence.{
  Apart, Connected, expire, AllUpdated, expiry_updates, check_keepalive_status-expire,
}

-- A parser that reads one login command, for any other text one keepalive command, and an
-- empty JSON object elsewhere.
abbrev the_login : Text
the_login = codes "login"

abbrev the_fields : List (Option Text)
the_fields = some (codes "g1") ∷ some (codes "s") ∷ some (codes "pw") ∷ some (codes "i") ∷ []

abbrev demo_json : Json
demo_json = record {
  parse = λ text keys.
      if str_eq text the_login
      then some the_fields
      else some (some (codes "device.keepalive") ∷ none ∷ []);
  parse_roles = λ text. none;
  build = λ members. codes "{}";
  update = λ text members. none;
}

abbrev pub demo_env : Env
demo_env = record { json = demo_json; tables = []; now = 100; default_ou = none; uninit = [] }

-- A parser that reads a message that holds the login as its data.
abbrev login_env : Env
login_env = record demo_env {
  json = record demo_json {
    parse = λ text keys.
        if str_eq text the_login
        then some the_fields
        else some (some (codes "device.login") ∷ some the_login ∷ []);
  };
}

abbrev pub demo_device : Text → ℕ → ℕ → DeviceInfo
demo_device guid sock updated_tm = record {
  sock = some sock;
  is_logined = true;
  conn_status = online;
  reg_status = confirmed;
  guid = guid;
  device_ipaddr = codes "10.0.0.1";
  ou_info = none;
  role_type = 1;
  web_login_cred = codes "old";
  updated_tm = updated_tm;
  send_monitor_tm = 0;
}

abbrev pub demo_mgr : DeviceMgr
demo_mgr = record {
  num_of_devices = 2;
  dev_infos = demo_device (codes "g1") 5 90 ∷ demo_device (codes "g2") 6 50 ∷ [];
  secret_key = codes "s";
}

pub demo_mgr-IsValid : IsValid demo_mgr
unfolding find_device str_eq
demo_mgr-IsValid = record { counted = refl; distinct = (refl, (refl, tt)) }

abbrev the_command : Command
the_command = record {
  guid = codes "g1";
  secret = codes "s";
  password = codes "pw";
  info = codes "i";
}

login_parses : parse_login demo_env the_login ≡ some the_command
unfolding parse_login str_eq
login_parses = refl

g1_known : device demo_mgr (codes "g1") ≡ some (demo_device (codes "g1") 5 90)
unfolding find_device str_eq
g1_known = refl

cbccd_device_login-Outcome_example :
    let r = cbccd_device_login demo_env demo_mgr 9 (codes "10.0.0.2") the_login in
    Outcome demo_env demo_mgr 9 (codes "10.0.0.2") the_command r
    × (r.0 ≡ ok → codes "s" ≡ codes "s")
cbccd_device_login-Outcome_example =
    cbccd_device_login-Outcome demo_env demo_mgr 9 (codes "10.0.0.2") the_login the_command
      demo_mgr-IsValid login_parses

denied_cannot_login_example :
    let n = (cbccd_device_agent_disable demo_env demo_mgr true (codes "g1")).1 in
    let r = cbccd_device_login demo_env n 9 (codes "10.0.0.2") the_login in
    (r.0 ≢ ok) × ((g : Text) → flag (device r.1 g) ≡ flag (device n g))
denied_cannot_login_example =
    denied_cannot_login demo_env demo_mgr (codes "g1") (demo_device (codes "g1") 5 90) 9
      (codes "10.0.0.2") the_login the_command demo_mgr-IsValid g1_known login_parses refl

demo_mgr-Apart : Apart demo_mgr.dev_infos
unfolding find_device
demo_mgr-Apart = (λ s e. ground arith, (λ s e. ground arith, tt))

demo_mgr-Connected : Connected demo_mgr.dev_infos
demo_mgr-Connected = (λ e. (5, refl), (λ e. (6, refl), tt))

-- Every table has a row for each of the two devices, and every update of a row gives one text.
abbrev row_of : Text → Row
row_of guid = record { guid = guid; row_data = codes "{}"; changelog_type = []; rev = 0 }

abbrev two_rows : Text → TblInfo
two_rows name = record {
  tbl_name = name;
  rows_count = 2;
  rows = row_of (codes "g1") ∷ row_of (codes "g2") ∷ [];
  total_rev = 0;
}

abbrev cached_env : Env
cached_env = record demo_env {
  json = record demo_json { update = λ text members. some (codes "off") };
  tables = map two_rows (take max_tbl_num tbl_names);
}

all_updated : AllUpdated cached_env (λ guid. codes "off") demo_mgr.dev_infos
unfolding cached cbccd_pgsql_cache_get_tbl_data table_at matching_data cbccd_pgsql_get_tbl_idx
    index_from tbl_names str_eq
all_updated = ((codes "{}", refl, refl), ((codes "{}", refl, refl), tt))

-- At 100, the second device has been silent for 50 seconds.
check_keepalive_status-expire_example : check_keepalive_status cached_env demo_mgr 100 ≡ (
  record demo_mgr { dev_infos = map (expire 100) demo_mgr.dev_infos },
  expiry_updates (λ guid. codes "off") 100 demo_mgr.dev_infos,
)
check_keepalive_status-expire_example =
    check_keepalive_status-expire cached_env demo_mgr 100 (λ guid. codes "off") demo_mgr-Apart
      demo_mgr-Connected all_updated

-- The listening socket is 3, one client is 5.
abbrev demo_fds : FdSet
demo_fds = set_bit true 5 (set_bit true 3 (λ i. false))

abbrev demo_cmd : CmdMgr
demo_cmd = record {
  no_ssl = false;
  cmd_srv_sock = 3;
  max_fd = some 5;
  fds = demo_fds;
  buffer_list = record { count = 0; buffers = [] };
  ipaddr = λ i. [];
  sport = λ i. 0;
  ssl = λ i. false;
  closed = [];
}

demo_cmd-IsRunning : IsRunning demo_cmd
demo_cmd-IsRunning = record {
  highest = (refl, λ i h. ground arith);
  listening = refl;
  buffers = record { counted = refl; distinct = tt };
}

cbccd_cmd_free_socket-Freed_example :
    (n : CmdMgr) × (cbccd_cmd_free_socket demo_cmd (some 5) ≡ some n) × Freed demo_cmd 5 n
cbccd_cmd_free_socket-Freed_example =
    cbccd_cmd_free_socket-Freed demo_cmd 5 demo_cmd-IsRunning (omega arith)
      (λ e. absurd (omega arith))

disconnect_lem_example :
    (r : CmdMgr × DeviceMgr × List Call) × (disconnect demo_env demo_cmd demo_mgr 5 ≡ some r)
    × Freed demo_cmd 5 r.0
    × IsValid r.1
    × ((d : DeviceInfo)
        → cbccd_device_get_info_by_sock demo_mgr (some 5) ≡ some d
        → (device r.1 d.guid ≡ some (gone d))
          × ((g : Text) → d.guid ≢ g → device r.1 g ≡ device demo_mgr g))
    × (cbccd_device_get_info_by_sock demo_mgr (some 5) ≡ none → r.1 ≡ demo_mgr)
disconnect_lem_example =
    disconnect_lem demo_env demo_cmd demo_mgr 5 demo_cmd-IsRunning demo_mgr-IsValid (omega arith)
      (λ e. absurd (omega arith))

-- The login arrives at socket 9, with data.
abbrev login_message : Text
login_message = codes "message"

login_code : (command_of login_env login_message).1 ≡ some the_login
unfolding str_eq
login_code = refl

cbccd_process_cmd-Guarded_example :
    (p : Processed) × (cbccd_process_cmd login_env demo_mgr 9 (codes "10.0.0.2") login_message
      ≡ some p)
    × Guarded login_env demo_mgr 9
        (codes "10.0.0.2")
        (command_of login_env login_message).0
        (command_of login_env login_message).1
        p
cbccd_process_cmd-Guarded_example =
    cbccd_process_cmd-Guarded login_env demo_mgr 9 (codes "10.0.0.2") login_message demo_mgr-IsValid
      (λ e n. absurd (cc (login_code, n)))
