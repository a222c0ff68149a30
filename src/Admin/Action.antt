-- ===== src/Admin/Action.antt =====
-- Actions on devices: reading them from the table, when one is due, and sending the command.
use chroot_cbccd.Base.{
  ℕ, ◌+◌, Bool, true, false, not, ◌&&◌, Option, none, some, List, [], ◌∷◌, ◌>>=◌, ◌==◌, ltb,
  if◌then◌else◌, Text, codes, str_eq,
}
use chroot_cbccd.Json.Parse.{
  Request, Item, pairs, int_vals, string_type, int_type, int_array_type, obj_pairs_type,
  cbcc_json_parse_from_buffer,
}
use chroot_cbccd.Json.Edit.{Jobj, new_object, cbcc_json_build, cbcc_json_update}
use chroot_cbccd.Cache.{cbccd_pgsql_cache_get_tbl_rows}
use chroot_cbccd.Cache.Names.{cbccd_pgsql_get_tbl_idx}
use chroot_cbccd.Digests.{create_random_guid}
use chroot_cbccd.Device.{
  RespCode, ok, not_connected, not_logined, send_failed, json_invalid,
  cbccd_device_get_info_by_guid,
}
use chroot_cbccd.Config.Deploy.{text_jobj, jobj}
use chroot_cbccd.Admin.{
  AdminEnv, World, sent, request, text_after, int_after, text_under, happened, put_data, get_data,
}

-- enum CBCC_ACTION_TYPE, enum CBCC_EXEC_TYPE and enum CBCC_ACT_STATUS, without UNKNOWN
pub data ActionType : Type 0 where
  reboot shutdown prefetch firmware pattern_update : ActionType

pub data ExecType : Type 0 where
  once daily : ExecType

pub data ActStatus : Type 0 where
  sched pending act_failure act_success finished : ActStatus

-- The walk over an array of names, which ends at NULL.
unfoldable pub find_name {ℓ} : {A : Type ℓ} → List (A × Text) → Text → Option A
find_name [] name = none
find_name ((a, n) ∷ rest) name = if str_eq n name then some a else find_name rest name

abbrev pub act_status_strs : List (ActStatus × Text)
act_status_strs =
    (sched, codes "scheduled")
    ∷ (pending, codes "pending")
    ∷ (act_failure, codes "failure")
    ∷ (act_success, codes "success")
    ∷ (finished, codes "finished")
    ∷ []

abbrev pub status_str : ActStatus → Text
status_str sched = codes "scheduled"
status_str pending = codes "pending"
status_str act_failure = codes "failure"
status_str act_success = codes "success"
status_str finished = codes "finished"

abbrev pub exec_type_strs : List (ExecType × Text)
exec_type_strs = (once, codes "once") ∷ (daily, codes "daily") ∷ []

abbrev pub action_type_strs : List (ActionType × Text)
action_type_strs =
    (reboot, codes "reboot_device")
    ∷ (shutdown, codes "shutdown_device")
    ∷ (prefetch, codes "prefetch_update")
    ∷ (firmware, codes "install_firmware")
    ∷ (pattern_update, codes "install_pattern")
    ∷ []

abbrev pub action_str : ActionType → Text
action_str reboot = codes "reboot_device"
action_str shutdown = codes "shutdown_device"
action_str prefetch = codes "prefetch_update"
action_str firmware = codes "install_firmware"
action_str pattern_update = codes "install_pattern"

unfoldable pub get_action_status : Text → Option ActStatus
get_action_status s = find_name act_status_strs s

unfoldable pub get_exec_type : Text → Option ExecType
get_exec_type s = find_name exec_type_strs s

unfoldable pub get_action_type : Text → Option ActionType
get_action_type s = find_name action_type_strs s

-- struct cbccd_admin_action_info; the status is only looked at while it is parsed.
pub record ActionInfo : Type 0 where
  pub act_type : ActionType
  pub exec_type : ExecType
  pub dev_guids : List (Text × Text)
  pub days : List ℕ
  pub start : ℕ
  pub start_time : ℕ
  pub take_action : Bool

-- CBCC_ADMIN_DB_FETCH_INTERVAL
abbrev pub fetch_interval : ℕ
fetch_interval = 60

abbrev pub in_window : ℕ → ℕ → Bool
in_window start t = ltb start t && ltb t (start + fetch_interval)

-- The loop over the days, with the day of the week and the seconds since its start.
unfoldable pub day_hit : ℕ → ℕ × ℕ → List ℕ → Bool
day_hit start local [] = false
day_hit start local (d ∷ ds) =
    if (local.0 == d) && in_window start local.1 then true else day_hit start local ds

-- `check_act_start_time`: whether to take the action.
unfoldable pub is_due : (ℕ → ℕ × ℕ) → ℕ → ActionInfo → Bool
is_due local_day now a = elim a.exec_type [
  | once ↦ in_window a.start_time now
  | daily ↦ day_hit a.start (local_day now) a.days
]

abbrev act_requests : List Request
act_requests =
    request string_type 64 none (codes "action")
    ∷ request obj_pairs_type 0 none (codes "devices")
    ∷ request string_type 32 (some (codes "schedule")) (codes "exec")
    ∷ request int_array_type 0 (some (codes "schedule")) (codes "days")
    ∷ request int_type 0 (some (codes "schedule")) (codes "start")
    ∷ request int_type 0 none (codes "starttime")
    ∷ request string_type 64 none (codes "status")
    ∷ []

abbrev pairs_after : Option Item → List (Text × Text)
pairs_after (some (pairs ps)) = ps
pairs_after i = []

abbrev ints_after : Option Item → List ℕ
ints_after (some (int_vals is)) = is
ints_after i = []

abbrev timed : (ℕ → ℕ × ℕ) → ℕ → ActionInfo → ActionInfo
timed local_day now a = record a { take_action = is_due local_day now a }

-- The types, in the order of the code; `memset` makes an action one to reboot once, not taken.
abbrev typed :
    (ℕ → ℕ × ℕ) → ℕ → ActionInfo → Option ActionType → Option ExecType → Option ActionInfo
typed local_day now a (some act) (some exec) =
    some (timed local_day now (record a { act_type = act; exec_type = exec }))
typed local_day now a act exec = none

abbrev by_status : (ℕ → ℕ × ℕ) → ℕ → ActionInfo → Text → Text → Option ActStatus → Option ActionInfo
by_status local_day now a act exec none = none
by_status local_day now a act exec (some finished) = some a
by_status local_day now a act exec (some s) =
    typed local_day now a (get_action_type act) (get_exec_type exec)

abbrev act_info : (ℕ → ℕ × ℕ) → ℕ → Text → List (Option Item) → Option ActionInfo
act_info local_day now uninit (a ∷ g ∷ e ∷ d ∷ s ∷ t ∷ u ∷ is) =
    by_status local_day now
      (record {
        act_type = reboot;
        exec_type = once;
        dev_guids = pairs_after g;
        days = ints_after d;
        start = int_after 0 s;
        start_time = int_after 0 t;
        take_action = false;
      })
      (text_after uninit a) (text_after uninit e) (get_action_status (text_after uninit u))
act_info local_day now uninit is = none

module _ {S : Type 0} (env : AdminEnv S) where
  -- `parse_act_info`; -1 is `some none`.
  unfoldable pub parse_act_info : Text → Option (Option ActionInfo)
  parse_act_info act_data = do
    r ← cbcc_json_parse_from_buffer env.lib act_data act_requests
    some (elim r [ none ↦ none | some is ↦ act_info env.local_day env.dev.now env.dev.uninit is ])

  abbrev pub action_table : Text
  action_table = codes "action_info"

  abbrev put_updated : World S → Text → Option Text → World S
  put_updated w act_guid none = w
  put_updated w act_guid (some t) = put_data env w action_table act_guid t

  -- What `set_act_status` and `set_act_final_status` share.
  unfoldable pub update_action : World S → Text → List Jobj → Option (World S)
  update_action w act_guid jobjs = do
    old ← get_data env w action_table act_guid
    elim old [
      | none ↦ some w
      | some t ↦ do r ← cbcc_json_update env.lib t jobjs 4096; some (put_updated w act_guid r)
    ]

  unfoldable pub set_act_status : World S → Text → Text → ActStatus → Option (World S)
  set_act_status w act_guid dev_guid status =
      update_action w act_guid
        (jobj dev_guid new_object ∷ text_under dev_guid (codes "status") (status_str status) ∷ [])

  unfoldable pub set_act_final_status : World S → Text → ActStatus → Option (World S)
  set_act_final_status w act_guid status =
      update_action w act_guid (text_jobj (codes "status") (status_str status) ∷ [])

  unfoldable pub action_cmd : Text → Text → Option Text
  action_cmd guid act_type_str = cbcc_json_build env.lib (
      text_jobj (codes "cmd") (codes "device.action")
      ∷ jobj (codes "data") new_object
      ∷ text_under (codes "data") (codes "guid") guid
      ∷ text_under (codes "data") (codes "action.types") act_type_str
      ∷ [])

  -- `send_act_cmd` with a device's guid: one device.
  unfoldable pub send_to_device : World S → Text → Text → RespCode × World S
  send_to_device w dev_guid cmd = elim (cbccd_device_get_info_by_guid w.devs dev_guid) [
    | none ↦ (not_connected, w)
    | some d ↦
        if not d.is_logined
        then (not_logined, w)
        else (if env.sends d.sock cmd then ok else send_failed, happened env w (sent d.sock cmd))
  ]

  -- One round of the loop over an action's devices.
  unfoldable pub send_action_to : World S → Text → Text → Text → Option (World S)
  send_action_to w act_guid cmd dev_guid = elim (cbccd_device_get_info_by_guid w.devs dev_guid) [
    | none ↦ set_act_status w act_guid dev_guid act_failure
    | some d ↦
        if not d.is_logined
        then set_act_status w act_guid dev_guid act_failure
        else set_act_status (happened env w (sent d.sock cmd)) act_guid dev_guid
            (if env.sends d.sock cmd then act_success else act_failure)
  ]

  unfoldable pub send_action_to_all : World S → Text → Text → List (Text × Text) → Option (World S)
  send_action_to_all w act_guid cmd [] = some w
  send_action_to_all w act_guid cmd ((dev_guid, t) ∷ rest) = do
    next ← send_action_to w act_guid cmd dev_guid
    send_action_to_all next act_guid cmd rest

  abbrev finish : World S → Text → ExecType → Option (World S)
  finish w act_guid once = set_act_final_status w act_guid finished
  finish w act_guid daily = some w

  -- `send_act_cmd` for a scheduled action.
  unfoldable pub send_scheduled : World S → Text → ActionInfo → Option (World S)
  send_scheduled w act_guid a = do
    cmd ← action_cmd act_guid (action_str a.act_type)
    next ← send_action_to_all w act_guid cmd a.dev_guids
    finish next act_guid a.exec_type

  -- The loop of `admin_fetch_actions_from_db` over the rows, which are a copy.
  unfoldable pub take_actions : World S → List (Text × Text) → Option (World S)
  take_actions w [] = some w
  take_actions w ((guid, t) ∷ rest) = do
    info ← parse_act_info t
    next ← elim info [
      | none ↦ some w
      | some a ↦ if a.take_action then send_scheduled w guid a else some w
    ]
    take_actions next rest

  unfoldable pub admin_fetch_actions_from_db : World S → Option (World S)
  admin_fetch_actions_from_db w = do
    rows ← cbccd_pgsql_cache_get_tbl_rows w.db.tbl_infos (cbccd_pgsql_get_tbl_idx action_table)
    take_actions w rows

  abbrev or_unwritten : Option Text → Text
  or_unwritten none = env.dev.uninit
  or_unwritten (some t) = t

  abbrev guid_after : List (Option Item) → Text
  guid_after [] = env.dev.uninit
  guid_after (i ∷ is) = text_after env.dev.uninit i

  abbrev guid_request : Request
  guid_request = record (request string_type 128 none (codes "guid")) { must_specify = true }

  -- The action has a random guid.
  unfoldable pub cbccd_admin_send_action_cmd : World S → Text → Text → Option (RespCode × World S)
  cbccd_admin_send_action_cmd w act_str content = do
    r ← cbcc_json_parse_from_buffer env.lib content (guid_request ∷ [])
    elim r [
      | none ↦ some (json_invalid, w)
      | some is ↦ do
        cmd ← action_cmd (or_unwritten (create_random_guid env.ssl env.dev.now env.random)) act_str
        some (send_to_device w (guid_after is) cmd)
    ]
