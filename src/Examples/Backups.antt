-- ===== src/Examples/Backups.antt =====
-- Runs of automatic backups, of a backup that is restored, and of an action.
use chroot_cbccd.Base.{
  ℕ, ◌>>=◌, ◌+◌, ◌≤◌, ◌≡◌, refl, Bool, true, false, ◌&&◌, some, List, [], ◌∷◌, ◌++◌, map, take,
  arith, ltb, length, if◌then◌else◌, Text, codes, str_eq,
}
use chroot_cbccd.Memory.{add_int}
use chroot_cbccd.Json.Tree.{Members, object_node, string_node, no_members, member, JsonC, lookup}
use chroot_cbccd.Json.Search.{in_member, find_in, change_by_key, cbcc_get_jobj_by_key}
use chroot_cbccd.Json.Parse.{
  cbcc_json_parse_from_buffer, parse_root, cbcc_jobj_parse, parse_one, find_value,
  check_obj_validation, read_value,
}
use chroot_cbccd.Json.Edit.{
  cbcc_json_build, build_members, build_one, build_value, in_parent, cbcc_json_add, add_members,
  add_given,
}
use chroot_cbccd.Json.RoundTrip.{ReadsBack}
use chroot_cbccd.Cache.{TblInfo, cbccd_pgsql_cache_get_tbl_data, table_at, matching_data}
use chroot_cbccd.Cache.Names.{tbl_names, max_tbl_num, cbccd_pgsql_get_tbl_idx, index_from}
use chroot_cbccd.Store.{sql_failed, Server, cbccd_pgsql_set_guid_tbl_data, store_data}
use chroot_cbccd.Device.{DeviceInfo, ok, cbccd_device_get_info_by_guid, find_device}
use chroot_cbccd.Digests.{
  read_file, get_md5sum_of_buffer, hex_text, base64_encode, get_md5sum_of_file,
  get_base64_encoded_from_file,
}
use chroot_cbccd.Admin.{AdminEnv, World, sent, happened, get_data, put_data}
use chroot_cbccd.Admin.Backup.{BackupInfo, get_backup_info_from_db}
use chroot_cbccd.Admin.Restore.{
  set_backup_file_contents, send_restore, set_restore_result_into_db, build_restore_backup_cmd,
  cbccd_admin_send_restore_backup_cmd,
}
use chroot_cbccd.Admin.Auto.{
  daily, seconds, AutoBackupInfo, auto_backup_text, check_starttime, parse_auto_backup_info,
}
use chroot_cbccd.Admin.Auto.Deletion.{TsInfo, remove_old_auto_backup_infos}
use chroot_cbccd.Admin.Slots.{count, AllOlder}
use chroot_cbccd.Admin.Kept.{delete_all, remove_old_auto_backup_infos_lem}
use chroot_cbccd.Admin.Schedule.{auto_members, taken, auto_backup-once}
use chroot_cbccd.Admin.Liveness.{checks, spans, final, auto_backup-live}
use chroot_cbccd.Admin.Action.{ActionInfo, reboot, once, is_due}
use chroot_cbccd.Admin.Sending.{Checked, send_restore_backup_cmd-Checked, is_due-once}
use chroot_cbccd.Examples.Texts.{object_text, reading, reading-IsLawful, put_member, cut_member}
use chroot_cbccd.Examples.Devices.{demo_env, demo_mgr}
use chroot_cbccd.Examples.Configs.{demo_ssl}

-- An automatic backup every day, due in the first day.
abbrev every_day : AutoBackupInfo
every_day = record {
  status = 1;
  interval_type = daily;
  max_keep_backups = 1;
  enqueued_starttime = 100;
  next_starttime = 86500;
  take_backup = false;
}

abbrev the_auto : Members
the_auto = auto_members (reading no_members) (taken every_day)

abbrev auto_lib : JsonC
auto_lib = reading the_auto

auto_lib-ReadsBack : ReadsBack auto_lib
auto_lib-ReadsBack = record { string_back = λ t. refl; int_back = λ i n. refl }

auto_printed : (check_starttime 200 every_day >>= auto_backup_text auto_lib) ≡ some object_text
unfolding auto_backup_text check_starttime add_int cbcc_json_build build_members build_one
    build_value in_parent
auto_printed = refl

auto_read :
    auto_lib.tokener_parse
      (auto_lib.get_string (object_node (auto_members auto_lib (taken every_day))))
    ≡ some (object_node (auto_members auto_lib (taken every_day)))
unfolding str_eq put_member
auto_read = refl

auto_backup-once_example :
    (r : AutoBackupInfo) × (parse_auto_backup_info auto_lib 90000 [] object_text ≡ some (some r))
    × (r.take_backup ≡ (ltb 86500 90000 && ltb 90000 (86500 + seconds daily)))
    × (r.interval_type ≡ daily)
    × (r.max_keep_backups ≡ 1)
auto_backup-once_example =
    auto_backup-once auto_lib every_day 200 90000 [] object_text (reading-IsLawful the_auto)
      auto_lib-ReadsBack auto_read refl (omega arith) (omega arith) (omega arith) (omega arith)
      (omega arith) auto_printed

abbrev three_checks : List ℕ
three_checks = 140 ∷ 60000 ∷ 90000 ∷ []

auto_backup-live_example :
    (n : ℕ) × (r : AutoBackupInfo) × (checks three_checks every_day ≡ some (n, r))
    × (r.enqueued_starttime ≡ 100 + spans n (seconds daily))
    × (r.next_starttime ≡ r.enqueued_starttime + seconds daily)
    × (final 80 three_checks ≤ r.enqueued_starttime)
auto_backup-live_example =
    auto_backup-live three_checks 80 every_day refl (omega arith)
      (omega arith, omega arith, (omega arith, omega arith, (omega arith, omega arith, tt)))
      (omega arith)

-- A server that answers nothing, and tables with the row of one device each.
abbrev pub no_server : Server (Unit {0})
no_server s t = (sql_failed, s)

abbrev pub one_table : Text → TblInfo
one_table name = record {
  tbl_name = name;
  rows_count = 1;
  rows = record { guid = codes "g1"; row_data = object_text; changelog_type = []; rev = 0 } ∷ [];
  total_rev = 0;
}

abbrev zeros : Text
zeros = codes "00000000000000000000000000000000"

abbrev the_backups : Members
the_backups =
    member (codes "b1")
      (object_node (
        member (codes "name") (string_node (codes "f"))
          (member (codes "md5") (string_node zeros) no_members)))
      no_members

abbrev pub backup_env : AdminEnv (Unit {0})
backup_env = record {
  exec = no_server;
  lib = reading the_backups;
  ssl = demo_ssl;
  sends = λ sock cmd. true;
  opens_in = true;
  opens_out = true;
  random = 7;
  uninit_int = 0;
  local_day = λ t. (0, 0);
  dev = demo_env;
}

abbrev pub backup_world : World (Unit {0})
backup_world = record {
  db = record {
    server = tt;
    tbl_infos = map one_table (take max_tbl_num tbl_names);
    changelog_info = record { tbl_name = []; rows_count = 0; rows = []; total_rev = 0 };
  };
  devs = demo_mgr;
  files = λ path. some (1 ∷ []);
  events = [];
}

abbrev two_backups : List TsInfo
two_backups =
    record { timestamp = 9; guid = codes "b1" } ∷ record { timestamp = 5; guid = codes "b2" } ∷ []

remove_old_auto_backup_infos_lem_example :
    (gone : List TsInfo) × (kept : List TsInfo) × (remove_old_auto_backup_infos backup_env
        (codes "g1")
        backup_world
        two_backups
        1
      ≡ delete_all backup_env (codes "g1") backup_world gone)
    × ((f : TsInfo → Bool) → count f gone + count f kept ≡ count f two_backups)
    × (length kept ≡ (if ltb 1 (length two_backups) then 1 else length two_backups))
    × AllOlder gone kept
remove_old_auto_backup_infos_lem_example =
    remove_old_auto_backup_infos_lem backup_env (codes "g1") backup_world two_backups 1
      (omega arith, (omega arith, tt)) (omega arith)

restored :
    cbccd_admin_send_restore_backup_cmd backup_env backup_world (codes "g1") (codes "b1")
    ≡ some (ok, happened backup_env backup_world (sent (some 5) object_text))
unfolding cbccd_admin_send_restore_backup_cmd get_backup_info_from_db get_data
    cbccd_pgsql_cache_get_tbl_data table_at matching_data cbccd_pgsql_get_tbl_idx index_from
    tbl_names str_eq cbcc_json_parse_from_buffer parse_root cbcc_jobj_parse parse_one find_value
    cbcc_get_jobj_by_key find_in lookup check_obj_validation read_value set_backup_file_contents
    get_md5sum_of_file read_file get_md5sum_of_buffer hex_text get_base64_encoded_from_file
    base64_encode build_restore_backup_cmd cbcc_json_build build_members build_one build_value
    in_parent put_member send_restore cbccd_device_get_info_by_guid find_device
    set_restore_result_into_db cbcc_json_add add_members add_given put_data
    cbccd_pgsql_set_guid_tbl_data store_data change_by_key cut_member in_member
restored = refl

send_restore_backup_cmd-Checked_example :
    (info : BackupInfo) × (filled : BackupInfo) × (cmd : Text) × (d : DeviceInfo)
    × (get_backup_info_from_db backup_env backup_world (codes "g1") (codes "b1") ≡ some (some info))
    × Checked backup_env backup_world (codes "g1") info filled
    × (build_restore_backup_cmd backup_env.lib filled ≡ some cmd)
    × (cbccd_device_get_info_by_guid demo_mgr (codes "g1") ≡ some d)
    × (d.is_logined ≡ true)
    × (backup_env.sends d.sock cmd ≡ true)
    × ((happened backup_env backup_world (sent (some 5) object_text)).events
        ≡ backup_world.events ++ (sent d.sock cmd ∷ []))
send_restore_backup_cmd-Checked_example =
    send_restore_backup_cmd-Checked backup_env backup_world
      (happened backup_env backup_world (sent (some 5) object_text)) (codes "g1") (codes "b1")
      restored

abbrev reboot_at : ℕ → ActionInfo
reboot_at t = record {
  act_type = reboot;
  exec_type = once;
  dev_guids = [];
  days = [];
  start = 0;
  start_time = t;
  take_action = false;
}

is_due-once_example :
    ((is_due (λ t. (0, 0)) 500 (reboot_at 500) && is_due (λ t. (0, 0)) 561 (reboot_at 500)) ≡ false)
    × ((reboot_at 500).start_time ≡ 500
        → (is_due (λ t. (0, 0)) 500 (reboot_at 500) ≡ false)
          × (is_due (λ t. (0, 0)) 561 (reboot_at 500) ≡ false))
is_due-once_example = is_due-once (λ t. (0, 0)) (reboot_at 500) 500 561 refl (omega arith)
