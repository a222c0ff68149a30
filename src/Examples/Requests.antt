-- ===== src/Examples/Requests.antt =====
-- Runs of requests of the web interface.
use chroot_cbccd.Base.{
  ℕ, ◌≡◌, ◌≢◌, ◌↔◌, refl, Bool, true, false, Option, none, some, List, [], ◌∷◌, arith, ◌==◌, ◌||◌,
  Text, codes, str_eq,
}
use chroot_cbccd.Json.Tree.{Members, string_node, object_node, no_members, member, lookup}
use chroot_cbccd.Json.Search.{cbcc_get_jobj_by_key, find_in}
use chroot_cbccd.Json.Parse.{
  Item, str_val, cbcc_json_parse_from_buffer, parse_root, cbcc_jobj_parse, parse_one, find_value,
  check_obj_validation, read_value,
}
use chroot_cbccd.Device.{ok, find_device}
use chroot_cbccd.Device.Json.{Env}
use chroot_cbccd.Device.Login.{Command, parse_login, cbccd_device_login}
use chroot_cbccd.Device.Outcome.{device}
use chroot_cbccd.Wapi.{WapiEnv, Daemon, WapiRequest, Reply, parse_data}
use chroot_cbccd.Wapi.ActType.{deny_dev_act, get_wapi_act_type}
use chroot_cbccd.Wapi.Agents.{dev_guid_request}
use chroot_cbccd.Wapi.Dispatch.{process_act}
use chroot_cbccd.Wapi.Denied.{deny_dev-cannot_login}
use chroot_cbccd.Wapi.Names.{act_name, get_wapi_act_type-names}
use chroot_cbccd.Examples.Texts.{object_text, reading}
use chroot_cbccd.Examples.Devices.{demo_device, demo_mgr, demo_mgr-IsValid}
use chroot_cbccd.Json.Edit.{cbcc_json_build, build_members, build_one, build_value, in_parent}
use chroot_cbccd.Device.{is_ok}
use chroot_cbccd.Device.Pool.{IsValid}
use chroot_cbccd.Wapi.ActType.{act_index}
use chroot_cbccd.Wapi.Agents.{process_wapi_disable_dev_req}
use chroot_cbccd.Wapi.Dispatch.{
  wapi_request, req_requests, process_request, process_buffer, send_wapi_response,
  cbccd_process_wapi_request,
}
use chroot_cbccd.Wapi.Kept.ReadOnly.{reads_only}
use chroot_cbccd.Wapi.Kept.Requests.{process_wapi_request-Sound}
use chroot_cbccd.Wapi.Io.{WapiIo, received, recv_would_block, without_sock, serve_client}
use chroot_cbccd.Wapi.Served.{IsServing, Closed, turn_of, serve_client-Closed}
use chroot_cbccd.Examples.Texts.{put_member}
use chroot_cbccd.Examples.Backups.{backup_env, backup_world}

-- A request that denies the device g1, and no OUs.
abbrev pub denying : Members
denying = member (codes "action") (string_node (codes "deny_dev")) (
    member (codes "type") (string_node (codes "device_info")) (
      member (codes "data")
        (object_node (member (codes "dev_guid") (string_node (codes "g1")) no_members)) no_members))

abbrev pub demo_wapi : Members → WapiEnv (Unit {0})
demo_wapi ms = record {
  admin = record backup_env { lib = reading ms };
  depth = 5;
  uninit_texts = [];
}

abbrev pub demo_daemon : Daemon (Unit {0})
demo_daemon = record {
  world = backup_world;
  conf = record {
    ou_list = record { count = 0; default_ou_info = none; ou_infos = [] };
    next_addr = 1;
  };
}

abbrev deny_g1 : WapiRequest
deny_g1 = record {
  action = codes "deny_dev";
  type = codes "device_info";
  content = some object_text;
}

abbrev guid_item : List (Option Item)
guid_item = some (str_val (codes "g1")) ∷ []

deny_parses :
    parse_data (demo_wapi denying) demo_daemon (some object_text) dev_guid_request
    ≡ some (some guid_item)
unfolding parse_data cbcc_json_parse_from_buffer parse_root cbcc_jobj_parse parse_one find_value
    cbcc_get_jobj_by_key find_in lookup check_obj_validation read_value str_eq
deny_parses = refl

g1_there : device demo_mgr (codes "g1") ≡ some (demo_device (codes "g1") 5 90)
unfolding find_device str_eq
g1_there = refl

deny_dev-cannot_login_example :
    (r : Reply (Unit {0})) × (process_act (demo_wapi denying) demo_daemon deny_dev_act deny_g1
      ≡ some r)
    × (r.code ≡ ok)
    × ((login_env : Env) (sock : ℕ) (ip buffer : Text) (c : Command)
        → parse_login login_env buffer ≡ some c
        → c.guid ≡ codes "g1"
        → (cbccd_device_login login_env r.daemon.world.devs sock ip buffer).0 ≢ ok)
deny_dev-cannot_login_example =
    deny_dev-cannot_login (demo_wapi denying) demo_daemon deny_g1 guid_item
      (demo_device (codes "g1") 5 90) demo_mgr-IsValid deny_parses g1_there

get_wapi_act_type-names_example :
    (get_wapi_act_type (codes "deny_dev") ≡ deny_dev_act)
    ↔ (codes "deny_dev" ≡ act_name deny_dev_act)
get_wapi_act_type-names_example =
    get_wapi_act_type-names (codes "deny_dev") deny_dev_act (λ e. absurd (cc (e)))

abbrev after : Option (Text × Daemon (Unit {0})) → Text × Daemon (Unit {0})
after none = ([], demo_daemon)
after (some p) = p

abbrev is_there : Option (Text × Daemon (Unit {0})) → Bool
is_there none = false
is_there (some p) = true

after-some : (o : Option (Text × Daemon (Unit {0}))) → is_there o ≡ true → o ≡ some (after o)
after-some none e = absurd (cc (e))
after-some (some p) e = refl

answered_there :
    is_there (cbccd_process_wapi_request (demo_wapi denying) demo_daemon object_text) ≡ true
unfolding cbccd_process_wapi_request process_buffer process_request process_act wapi_request
    get_wapi_act_type act_index process_wapi_disable_dev_req send_wapi_response parse_data
    cbcc_json_parse_from_buffer parse_root cbcc_jobj_parse parse_one find_value cbcc_get_jobj_by_key
    find_in lookup check_obj_validation read_value str_eq cbcc_json_build build_members build_one
    build_value in_parent put_member
answered_there = refl

-- The response and the daemon after the request.
abbrev handled : Text × Daemon (Unit {0})
handled = after (cbccd_process_wapi_request (demo_wapi denying) demo_daemon object_text)

deny_is_handled :
    cbccd_process_wapi_request (demo_wapi denying) demo_daemon object_text ≡ some handled
deny_is_handled = after-some _ answered_there

process_wapi_request-Sound_example :
    (r : Reply (Unit {0})) × (process_buffer (demo_wapi denying) demo_daemon object_text ≡ some r)
    × (send_wapi_response (reading denying) r.code r.resp_data ≡ some handled.0)
    × (handled.1 ≡ r.daemon)
    × IsValid handled.1.world.devs
    × (is_ok r.code ≡ false → handled.1.conf ≡ demo_daemon.conf)
    × ((is : List (Option Item))
        → cbcc_json_parse_from_buffer (reading denying) object_text req_requests ≡ some (some is)
        → reads_only (get_wapi_act_type (wapi_request is).action) ≡ true
        → handled.1 ≡ demo_daemon)
process_wapi_request-Sound_example =
    process_wapi_request-Sound (demo_wapi denying) demo_daemon handled.1 object_text handled.0
      demo_mgr-IsValid deny_is_handled

-- A thread that watches its listening socket 3 and a client 5.
abbrev demo_io : WapiIo
demo_io = record { wapi_sock = 3; max_fd = some 5; fds = λ n. n == 3 || n == 5; closed = [] }

demo_io-IsServing : IsServing demo_io
demo_io-IsServing = record { highest = (refl, λ i h. ground (arith)); listened = refl }

serve_client-Closed_example :
    (serve_client
        (demo_wapi denying)
        demo_daemon
        demo_io
        5
        (recv_would_block ∷ received object_text ∷ [])
      ≡ turn_of (demo_wapi denying) demo_daemon demo_io 5 (some (received object_text)))
    × Closed demo_io 5 (without_sock demo_io 5)
serve_client-Closed_example =
    serve_client-Closed (demo_wapi denying) demo_daemon demo_io 5 demo_io-IsServing (omega arith)
      (omega arith) (recv_would_block ∷ received object_text ∷ [])
