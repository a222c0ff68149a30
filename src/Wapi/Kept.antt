-- ===== src/Wapi/Kept.antt =====
-- What no request does: break the list of devices, or change the configuration and refuse.
pub mod Replies
pub mod Tables
pub mod Agents
pub mod Ous
pub mod ReadOnly
pub mod Requests
use chroot_cbccd.Base.{
  ◌≡◌, refl, Option, List, [], ◌∷◌, inl, inr, Bool-cases, Text, Ensures, bind-Ensures,
  split-Ensures,
}
use chroot_cbccd.Json.Parse.{Request, Item}
use chroot_cbccd.Json.Edit.{cbcc_json_build}
use chroot_cbccd.Device.{
  RespCode, is_ok, DeviceMgr, Call, set_guid_tbl_data, rm_guid_tbl_data, set_cache, send_cmd,
  free_socket, mon_remove_data, admin_delete_all_backups, report_delete_data,
}
use chroot_cbccd.Device.Pool.{IsValid}
use chroot_cbccd.Monitor.{cbccd_mon_remove_data}
use chroot_cbccd.Report.{
  Effect, database, remove_dir, make_dir, write_file, run_command, cbccd_report_delete_data,
}
use chroot_cbccd.Config.{ConfigMgr}
use chroot_cbccd.Config.Manage.{Answer}
use chroot_cbccd.Config.Answers.{Keeps, AnswerKeeps}
use chroot_cbccd.Admin.{AdminEnv, World, Event, happened}
use chroot_cbccd.Admin.Restore.{cbccd_admin_delete_all_backups}
use chroot_cbccd.Admin.Devices.{WorldValid, AnswerValid, put_data-WorldValid}
use chroot_cbccd.Wapi.{
  WapiEnv, Daemon, Reply, call_once, calls_once, effects, call, perform_calls, called, answered,
  of_admin, or_invalid, parse_data, with_data, with_text,
}

module _ {S : Type 0} (env : AdminEnv S) where
  call_once-WorldValid : (w : World S) (c : Call) → WorldValid w → WorldValid (call_once env w c)
  unfolding call_once cbccd_admin_delete_all_backups
  call_once-WorldValid w (set_guid_tbl_data name guid t) v = put_data-WorldValid env w v name guid t
  call_once-WorldValid w (rm_guid_tbl_data name guid) v = v
  call_once-WorldValid w (set_cache guid t) v = v
  call_once-WorldValid w (send_cmd sock t) v = v
  call_once-WorldValid w (free_socket sock) v = v
  call_once-WorldValid w (admin_delete_all_backups guid) v = v
  call_once-WorldValid w (mon_remove_data guid) v = v
  call_once-WorldValid w (report_delete_data guid) v = v

  calls_once-WorldValid :
      (w : World S) (cs : List Call) → WorldValid w → WorldValid (calls_once env w cs)
  unfolding calls_once
  calls_once-WorldValid w [] v = v
  calls_once-WorldValid w (c ∷ cs) v =
      calls_once-WorldValid (call_once env w c) cs (call_once-WorldValid w c v)

  effects-WorldValid :
      (w : World S) (es : List Effect) → WorldValid w → WorldValid (effects env w es)
  unfolding effects
  effects-WorldValid w [] v = v
  effects-WorldValid w (database c ∷ es) v =
      effects-WorldValid (call_once env w c) es (call_once-WorldValid w c v)
  effects-WorldValid w (Effect.remove_path p ∷ es) v =
      effects-WorldValid (happened env w (Event.remove_path p)) es v
  effects-WorldValid w (remove_dir p ∷ es) v = effects-WorldValid w es v
  effects-WorldValid w (make_dir p ∷ es) v = effects-WorldValid w es v
  effects-WorldValid w (write_file p t ∷ es) v = effects-WorldValid w es v
  effects-WorldValid w (run_command t ∷ es) v = effects-WorldValid w es v

  call-WorldValid : (w : World S) (c : Call) → WorldValid w → WorldValid (call env w c)
  unfolding call
  call-WorldValid w (mon_remove_data guid) v =
      calls_once-WorldValid w (cbccd_mon_remove_data guid) v
  call-WorldValid w (report_delete_data guid) v =
      effects-WorldValid w (cbccd_report_delete_data guid) v
  call-WorldValid w (set_guid_tbl_data name guid t) v = call_once-WorldValid w _ v
  call-WorldValid w (rm_guid_tbl_data name guid) v = call_once-WorldValid w _ v
  call-WorldValid w (set_cache guid t) v = call_once-WorldValid w _ v
  call-WorldValid w (send_cmd sock t) v = call_once-WorldValid w _ v
  call-WorldValid w (free_socket sock) v = call_once-WorldValid w _ v
  call-WorldValid w (admin_delete_all_backups guid) v = call_once-WorldValid w _ v

  perform_calls-WorldValid :
      (w : World S) (cs : List Call) → WorldValid w → WorldValid (perform_calls env w cs)
  unfolding perform_calls
  perform_calls-WorldValid w [] v = v
  perform_calls-WorldValid w (c ∷ cs) v =
      perform_calls-WorldValid (call env w c) cs (call-WorldValid w c v)

-- The list of devices is valid afterwards, and the configuration is as it was unless the code is
-- OK.
abbrev pub Sound : {S : Type 0} → Daemon S → Reply S → Type 0
Sound d r = Keeps d.conf r.code r.daemon.conf r.daemon.world.devs

module _ {S : Type 0} (env : WapiEnv S) (d : Daemon S) (v : IsValid d.world.devs) where
  pub called-IsValid :
      (conf : ConfigMgr) (devs : DeviceMgr) (calls : List Call)
      → IsValid devs
      → IsValid (called env d conf devs calls).world.devs
  unfolding called
  called-IsValid conf devs calls h = perform_calls-WorldValid _ _ calls h

  called-conf :
      (conf : ConfigMgr) (devs : DeviceMgr) (calls : List Call)
      → (called env d conf devs calls).conf ≡ conf
  unfolding called
  called-conf conf devs calls = refl

  pub answered-Sound : (a : Answer) → AnswerKeeps d.conf a → Sound d (answered env d a)
  answered-Sound a h =
      (called-IsValid a.mgr a.devs a.calls h.0, λ e. rw (called-conf a.mgr a.devs a.calls) (h.1 e))

  pub of_admin-Sound : (r : RespCode × World S) → AnswerValid r → Sound d (of_admin env d r)
  of_admin-Sound r h = (h, λ e. refl)

  pub with_data-Sound :
      (content : Option Text) (rs : List Request) (k : List (Option Item) → Option (Reply S))
      → ((is : List (Option Item)) → Ensures (Sound d) (k is))
      → Ensures (Sound d) (with_data env d content rs k)
  with_data-Sound content rs k h =
      split-Ensures (Sound d) (parse_data env d content rs) (or_invalid env d k) (v, λ e. refl) h

  pub with_text-Sound :
      (key t : Text) (r : Reply S) → Sound d r → Ensures (Sound d) (with_text env.admin.lib key t r)
  unfolding with_text
  with_text-Sound key t r h = elim (Bool-cases (is_ok r.code)) [
    | inl y ↦
        rw (y, with_text) (bind-Ensures (Sound d) (cbcc_json_build env.admin.lib _) _ (λ resp e. h))
    | inr y ↦ rw (y, with_text) h
  ]
