-- ===== src/Wapi/Kept/Tables.antt =====
-- Requests on tables and on configuration objects.
use chroot_cbccd.Base.{
  refl, if◌then◌else◌, Bool, true, false, inl, inr, Bool-cases, Option-cases, Text, codes,
  bind-Ensures, split-Ensures,
}
use chroot_cbccd.Cache.{cbccd_pgsql_cache_get_tbl_data}
use chroot_cbccd.Cache.Names.{cbccd_pgsql_get_tbl_idx}
use chroot_cbccd.Device.Pool.{IsValid}
use chroot_cbccd.Store.Devices.{set_guid_tbl_data-IsValid}
use chroot_cbccd.Config.Answers.{add_object-Keeps, delete_object-Keeps, edit_object-Keeps}
use chroot_cbccd.Wapi.{WapiEnv, Daemon, WapiRequest, config_env, parse_data}
use chroot_cbccd.Wapi.Tables.{
  store_row, add_object, add_row, delete_object, edit_object, edit_row, process_wapi_add_req,
  process_wapi_delete_req, process_wapi_edit_req,
}
use chroot_cbccd.Wapi.Kept.{Sound, with_data-Sound, with_text-Sound}
use chroot_cbccd.Wapi.Kept.Replies.{Good, answer-Sound, answer_text-Sound}

module _ {S : Type 0} (env : WapiEnv S) (d : Daemon S) (v : IsValid d.world.devs) where
  store_row-Sound : (name guid t : Text) → Sound d (store_row env d name guid t)
  unfolding store_row
  store_row-Sound name guid t =
      (set_guid_tbl_data-IsValid env.admin.exec _ d.world.devs d.world.db name guid t v, λ e. refl)

  add_object-Sound : (type guid t : Text) → Good env d v (add_object env d type guid t)
  unfolding add_object
  add_object-Sound type guid t =
      answer_text-Sound env d v (codes "guid") _ _
        (add_object-Keeps (config_env env d) d.conf d.world.devs v _ type t)

  add_row-Sound : (type guid t : Text) → Good env d v (add_row env d type guid t)
  unfolding add_row
  add_row-Sound type guid t =
      with_text-Sound env d v (codes "guid") guid (store_row env d type guid t)
        (store_row-Sound type guid t)

  add_either-Sound :
      (is_object : Bool) (type guid t : Text)
      → Good env d v (if is_object then add_object env d type guid t else add_row env d type guid t)
  add_either-Sound true type guid t = add_object-Sound type guid t
  add_either-Sound false type guid t = add_row-Sound type guid t

  pub add_req-Sound :
      (is_object : Bool) (req : WapiRequest)
      → Good env d v (process_wapi_add_req env d is_object req)
  unfolding process_wapi_add_req
  add_req-Sound is_object req = elim (Option-cases (cbccd_pgsql_get_tbl_idx req.type)) [
    | inl n ↦ rw (n, process_wapi_add_req) (v, λ e. refl)
    | inr (idx, n) ↦
        rw (n, process_wapi_add_req)
          (bind-Ensures (Sound d) req.content _ λ t e.
            bind-Ensures (Sound d) (parse_data env d req.content _) _
              λ r f. add_either-Sound is_object req.type _ t)
  ]

  delete_object-Sound : (type guid : Text) → Good env d v (delete_object env d type guid)
  unfolding delete_object
  delete_object-Sound type guid =
      answer-Sound env d v _
        (delete_object-Keeps (config_env env d) d.conf d.world.devs v guid type)

  pub delete_req-Sound :
      (is_object : Bool) (req : WapiRequest)
      → Good env d v (process_wapi_delete_req env d is_object req)
  unfolding process_wapi_delete_req
  delete_req-Sound true req =
      with_data-Sound env d v req.content _ _ (λ is. delete_object-Sound req.type _)
  delete_req-Sound false req = with_data-Sound env d v req.content _ _ (λ is. (v, λ e. refl))

  edit_object-Sound : (type guid t : Text) → Good env d v (edit_object env d type guid t)
  unfolding edit_object
  edit_object-Sound type guid t =
      answer-Sound env d v _
        (edit_object-Keeps (config_env env d) d.conf d.world.devs v guid type t)

  edit_row-Sound : (type guid t : Text) → Good env d v (edit_row env d type guid t)
  unfolding edit_row
  edit_row-Sound type guid t =
      split-Ensures (Sound d) (cbccd_pgsql_cache_get_tbl_data d.world.db.tbl_infos _ _) _
        (v, λ e. refl) (λ old. store_row-Sound type guid t)

  pub edit_req-Sound :
      (is_object : Bool) (req : WapiRequest)
      → Good env d v (process_wapi_edit_req env d is_object req)
  unfolding process_wapi_edit_req
  edit_req-Sound is_object req = elim (Option-cases (cbccd_pgsql_get_tbl_idx req.type)) [
    | inl n ↦ rw (n, process_wapi_edit_req) (v, λ e. refl)
    | inr (idx, n) ↦ elim (Bool-cases is_object) [
      | inl y ↦
          rw (n, process_wapi_edit_req, y)
            (with_data-Sound env d v req.content _ _ (λ is. edit_object-Sound req.type _ _))
      | inr y ↦
          rw (n, process_wapi_edit_req, y)
            (with_data-Sound env d v req.content _ _ (λ is. edit_row-Sound req.type _ _))
    ]
  ]
