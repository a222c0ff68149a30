-- ===== src/Wapi/Kept/ReadOnly.antt =====
-- Requests that only read: get, list, get_cache, get_cache_rev and get_web_cred.
use chroot_cbccd.Base.{
  ◌≡◌, refl, Bool, true, false, Option, none, some, List, inl, inr, Option-cases, Bool-cases, Text,
  Ensures, bind-Ensures, split-Ensures,
}
use chroot_cbccd.Json.Parse.{Request, Item}
use chroot_cbccd.Json.Edit.{cbcc_json_build}
use chroot_cbccd.Cache.{cbccd_pgsql_cache_get_tbl_data}
use chroot_cbccd.Cache.Names.{cbccd_pgsql_get_tbl_idx}
use chroot_cbccd.Device.{RespCode, is_ok}
use chroot_cbccd.Device.Login.{cbccd_device_get_webcred}
use chroot_cbccd.Store.{
  cbccd_pgsql_cache_get_tbl_list, cbccd_pgsql_get_cache, cbccd_pgsql_get_cache_rev,
}
use chroot_cbccd.Wapi.{
  WapiEnv, Daemon, WapiRequest, Reply, parse_data, or_invalid, with_data, with_text,
}
use chroot_cbccd.Wapi.ActType.{
  ActType, add_act, delete_act, edit_act, get_act, list_act, reboot_act, shutdown_act, prefetch_act,
  firmware_act, pattern_act, create_backup_act, delete_backup_act, restore_backup_act, add_obj_act,
  delete_obj_act, edit_obj_act, get_cache_act, get_cache_rev_act, create_ou_act, edit_ou_act,
  delete_ou_act, set_default_ou_act, delete_dev_act, deny_dev_act, allow_dev_act, get_web_cred_act,
  unknown_type,
}
use chroot_cbccd.Wapi.Tables.{
  get_row, process_wapi_get_req, process_wapi_list_req, process_wapi_get_cache_req,
  process_wapi_get_cache_rev_req,
}
use chroot_cbccd.Wapi.Agents.{credential, process_wapi_get_web_cred, hash_len}
use chroot_cbccd.Wapi.Dispatch.{process_act}

abbrev pub reads_only : ActType → Bool
reads_only get_act = true
reads_only list_act = true
reads_only get_cache_act = true
reads_only get_cache_rev_act = true
reads_only get_web_cred_act = true
reads_only unknown_type = true
reads_only _ = false

abbrev pub Unchanged : {S : Type 0} → Daemon S → Reply S → Type 0
Unchanged d r = r.daemon ≡ d

module _ {S : Type 0} (env : WapiEnv S) (d : Daemon S) where
  with_data-Unchanged :
      (content : Option Text) (rs : List Request) (k : List (Option Item) → Option (Reply S))
      → ((is : List (Option Item)) → Ensures (Unchanged d) (k is))
      → Ensures (Unchanged d) (with_data env d content rs k)
  with_data-Unchanged content rs k h =
      split-Ensures (Unchanged d) (parse_data env d content rs) (or_invalid env d k) refl h

  get_req-Unchanged : (req : WapiRequest) → Ensures (Unchanged d) (process_wapi_get_req env d req)
  unfolding process_wapi_get_req get_row
  get_req-Unchanged req = elim (Option-cases (cbccd_pgsql_get_tbl_idx req.type)) [
    | inl n ↦ rw (n, process_wapi_get_req) refl
    | inr (idx, n) ↦
        rw (n, process_wapi_get_req)
          (with_data-Unchanged req.content _ _ λ is.
            split-Ensures (Unchanged d) (cbccd_pgsql_cache_get_tbl_data d.world.db.tbl_infos _ _) _
              refl (λ row. refl))
  ]

  list_req-Unchanged : (req : WapiRequest) → Ensures (Unchanged d) (process_wapi_list_req env d req)
  unfolding process_wapi_list_req
  list_req-Unchanged req = elim (Option-cases (cbccd_pgsql_get_tbl_idx req.type)) [
    | inl n ↦ rw (n, process_wapi_list_req) refl
    | inr (idx, n) ↦
        rw (n, process_wapi_list_req)
          (bind-Ensures (Unchanged d)
            (cbccd_pgsql_cache_get_tbl_list env.admin.lib d.world.db.tbl_infos (some idx)) _
            (λ t e. refl))
  ]

  get_cache_req-Unchanged :
      (req : WapiRequest) → Ensures (Unchanged d) (process_wapi_get_cache_req env d req)
  unfolding process_wapi_get_cache_req
  get_cache_req-Unchanged req = with_data-Unchanged req.content _ _ λ is.
      bind-Ensures (Unchanged d) (cbccd_pgsql_get_cache env.admin.lib d.world.db.changelog_info _) _
        (λ t e. refl)

  get_cache_rev_req-Unchanged : Ensures (Unchanged d) (process_wapi_get_cache_rev_req env d)
  unfolding process_wapi_get_cache_rev_req
  get_cache_rev_req-Unchanged =
      bind-Ensures (Unchanged d) (cbccd_pgsql_get_cache_rev env.admin.lib d.world.db.changelog_info)
        _ (λ t e. refl)

  credential-Unchanged :
      (req : WapiRequest) (c : RespCode × Option Text)
      → Ensures (Unchanged d) (credential env d req c)
  unfolding with_text
  credential-Unchanged req (code, none) = refl
  credential-Unchanged req (code, some t) = elim (Bool-cases (is_ok code)) [
    | inl y ↦
        rw (y, with_text)
          (bind-Ensures (Unchanged d) (cbcc_json_build env.admin.lib _) _ (λ resp e. refl))
    | inr y ↦ rw (y, with_text) refl
  ]

  get_web_cred-Unchanged :
      (req : WapiRequest) → Ensures (Unchanged d) (process_wapi_get_web_cred env d req)
  unfolding process_wapi_get_web_cred
  get_web_cred-Unchanged req =
      with_data-Unchanged req.content _ _
        (λ is. credential-Unchanged req (cbccd_device_get_webcred d.world.devs _ hash_len))

  -- A request that only reads, or whose action is not known, leaves the daemon as it is.
  pub process_act-Unchanged :
      (a : ActType) (req : WapiRequest)
      → reads_only a ≡ true
      → Ensures (Unchanged d) (process_act env d a req)
  unfolding process_act
  process_act-Unchanged get_act req e = get_req-Unchanged req
  process_act-Unchanged list_act req e = list_req-Unchanged req
  process_act-Unchanged get_cache_act req e = get_cache_req-Unchanged req
  process_act-Unchanged get_cache_rev_act req e = get_cache_rev_req-Unchanged
  process_act-Unchanged get_web_cred_act req e = get_web_cred-Unchanged req
  process_act-Unchanged unknown_type req e = refl
  process_act-Unchanged add_act req e = absurd (cc (e))
  process_act-Unchanged delete_act req e = absurd (cc (e))
  process_act-Unchanged edit_act req e = absurd (cc (e))
  process_act-Unchanged reboot_act req e = absurd (cc (e))
  process_act-Unchanged shutdown_act req e = absurd (cc (e))
  process_act-Unchanged prefetch_act req e = absurd (cc (e))
  process_act-Unchanged firmware_act req e = absurd (cc (e))
  process_act-Unchanged pattern_act req e = absurd (cc (e))
  process_act-Unchanged create_backup_act req e = absurd (cc (e))
  process_act-Unchanged delete_backup_act req e = absurd (cc (e))
  process_act-Unchanged restore_backup_act req e = absurd (cc (e))
  process_act-Unchanged add_obj_act req e = absurd (cc (e))
  process_act-Unchanged delete_obj_act req e = absurd (cc (e))
  process_act-Unchanged edit_obj_act req e = absurd (cc (e))
  process_act-Unchanged create_ou_act req e = absurd (cc (e))
  process_act-Unchanged edit_ou_act req e = absurd (cc (e))
  process_act-Unchanged delete_ou_act req e = absurd (cc (e))
  process_act-Unchanged set_default_ou_act req e = absurd (cc (e))
  process_act-Unchanged delete_dev_act req e = absurd (cc (e))
  process_act-Unchanged deny_dev_act req e = absurd (cc (e))
  process_act-Unchanged allow_dev_act req e = absurd (cc (e))
