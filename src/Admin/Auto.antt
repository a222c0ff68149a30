-- ===== src/Admin/Auto.antt =====
-- Automatic backups: when one is due, who takes it, and which are kept.
pub mod Deletion
use chroot_cbccd.Base.{
  ℕ, ◌+◌, ◌*◌, Bool, true, false, not, ◌&&◌, Option, none, some, List, [], ◌∷◌, ◌++◌, ◌>>=◌, ◌==◌,
  ltb, length, if◌then◌else◌, Text, codes, str_eq,
}
use chroot_cbccd.Memory.{add_int}
use chroot_cbccd.Json.Tree.{JsonC}
use chroot_cbccd.Json.Parse.{Request, Item, string_type, int_type, cbcc_json_parse_from_buffer}
use chroot_cbccd.Json.Edit.{Jobj, int_given, cbcc_json_build}
use chroot_cbccd.Digests.{create_random_guid}
use chroot_cbccd.Device.{DeviceInfo}
use chroot_cbccd.Config.Deploy.{text_jobj, jobj}
use chroot_cbccd.Admin.{
  AdminEnv, World, sent, request, text_after, int_after, happened, put_data, get_data,
  build_backup_cmd,
}

-- enum CBCC_AUTO_BA_INTERVAL_TYPE, without UNKNOWN
pub data Interval : Type 0 where
  daily weekly monthly : Interval

-- `get_ba_interval_type`; `none` is UNKNOWN.
unfoldable pub get_ba_interval_type : Text → Option Interval
get_ba_interval_type s =
    if str_eq s (codes "daily")
    then some daily
    else if str_eq s (codes "weekly")
    then some weekly
    else if str_eq s (codes "monthly")
    then some monthly
    else none

abbrev pub ba_interval_strs : Interval → Text
ba_interval_strs daily = codes "daily"
ba_interval_strs weekly = codes "weekly"
ba_interval_strs monthly = codes "monthly"

-- What is added to the start time.
abbrev pub seconds : Interval → ℕ
seconds daily = 86400
seconds weekly = 604800
seconds monthly = 2592000

-- struct cbccd_auto_backup_info; `memset` makes the interval daily.
pub record AutoBackupInfo : Type 0 where
  pub status : ℕ
  pub interval_type : Interval
  pub max_keep_backups : ℕ
  pub enqueued_starttime : ℕ
  pub next_starttime : ℕ
  pub take_backup : Bool

abbrev pub auto_table : Text
auto_table = codes "auto_backup_info"

-- The text that `update_auto_backup_info` stores.
unfoldable pub auto_backup_text : JsonC → AutoBackupInfo → Option Text
auto_backup_text lib info = cbcc_json_build lib (
    text_jobj (codes "ba_interval") (ba_interval_strs info.interval_type)
    ∷ jobj (codes "status") (int_given info.status)
    ∷ jobj (codes "ba_max") (int_given info.max_keep_backups)
    ∷ jobj (codes "enqueued_starttime") (int_given info.enqueued_starttime)
    ∷ jobj (codes "next_starttime") (int_given info.next_starttime)
    ∷ [])

abbrev pub auto_requests : List Request
auto_requests =
    request string_type 32 none (codes "ba_interval")
    ∷ request int_type 0 none (codes "status")
    ∷ request int_type 0 none (codes "ba_max")
    ∷ request int_type 0 none (codes "enqueued_starttime")
    ∷ request int_type 0 none (codes "next_starttime")
    ∷ []

-- The check of the start time. The sum is an int's, and undefined where it overflows.
unfoldable pub check_starttime : ℕ → AutoBackupInfo → Option AutoBackupInfo
check_starttime now info =
    if ltb info.enqueued_starttime now && ltb now info.next_starttime
    then (add_int info.next_starttime (seconds info.interval_type) >>= λ next. some (record info {
      take_backup = true;
      enqueued_starttime = info.next_starttime;
      next_starttime = next;
    }))
    else some info

abbrev with_interval : ℕ → AutoBackupInfo → Option Interval → Option (Option AutoBackupInfo)
with_interval now info none = some none
with_interval now info (some i) =
    check_starttime now (record info { interval_type = i }) >>= λ r. some (some r)

-- What follows the parse; -1 is `some none`.
unfoldable pub schedule : ℕ → Text → AutoBackupInfo → Option (Option AutoBackupInfo)
schedule now interval info =
    if info.status == 0
    then some (some info)
    else with_interval now info (get_ba_interval_type interval)

abbrev read_info : ℕ → Text → List (Option Item) → Option (Option AutoBackupInfo)
read_info now uninit (b ∷ s ∷ m ∷ e ∷ n ∷ is) = schedule now (text_after uninit b) (record {
  status = int_after 0 s;
  interval_type = daily;
  max_keep_backups = int_after 0 m;
  enqueued_starttime = int_after 0 e;
  next_starttime = int_after 0 n;
  take_backup = false;
})
read_info now uninit is = some none

-- `parse_auto_backup_info_from_db` of the text in the table.
unfoldable pub parse_auto_backup_info : JsonC → ℕ → Text → Text → Option (Option AutoBackupInfo)
parse_auto_backup_info lib now uninit t = do
  r ← cbcc_json_parse_from_buffer lib t auto_requests
  elim r [ none ↦ some none | some is ↦ read_info now uninit is ]

module _ {S : Type 0} (env : AdminEnv S) (w : World S) where
  unfoldable pub parse_auto_backup_info_from_db : Option (Option AutoBackupInfo)
  parse_auto_backup_info_from_db = do
    old ← get_data env w auto_table (codes "1")
    elim old [
      | none ↦ some none
      | some t ↦ parse_auto_backup_info env.lib env.dev.now env.dev.uninit t
    ]

  unfoldable pub update_auto_backup_info : AutoBackupInfo → Option (World S)
  update_auto_backup_info info = do
    t ← auto_backup_text env.lib info
    some (put_data env w auto_table (codes "1") t)

module _ {S : Type 0} (env : AdminEnv S) where
  -- The loop over the devices; the answer of cbccd_cmd_send is only logged.
  unfoldable pub send_to_devices : World S → Text → List DeviceInfo → World S
  send_to_devices w cmd [] = w
  send_to_devices w cmd (d ∷ ds) =
      send_to_devices (if d.is_logined then happened env w (sent d.sock cmd) else w) cmd ds

  -- The guid stays unwritten where MD5 cannot be used.
  abbrev or_uninit : Option Text → Text
  or_uninit none = env.dev.uninit
  or_uninit (some t) = t

  unfoldable pub send_backup_cmd_to_devices : World S → Option (World S)
  send_backup_cmd_to_devices w = do
    cmd ←
        build_backup_cmd env.lib true
          (or_uninit (create_random_guid env.ssl env.dev.now env.random)) (codes "Auto Backup")
          (codes "admin")
    some (send_to_devices w cmd w.devs.dev_infos)
