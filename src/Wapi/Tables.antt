-- ===== src/Wapi/Tables.antt =====
-- Requests on tables and on configuration objects: add, delete, edit, get, list, get_cache and
-- get_cache_rev.
use chroot_cbccd.Base.{
  ◌++◌, ◌>>=◌, Bool, Option, none, some, List, [], ◌∷◌, if◌then◌else◌, Text, codes, snprintf,
}
use chroot_cbccd.Json.Parse.{Request, Item, int_type, object_type}
use chroot_cbccd.Cache.{cbccd_pgsql_cache_get_tbl_data}
use chroot_cbccd.Cache.Names.{cbccd_pgsql_get_tbl_idx}
use chroot_cbccd.Device.{RespCode, ok, unknown_tbl, not_found_guid, db_oper_failed, DeviceMgr}
use chroot_cbccd.Store.{
  Db, StoreCode, stored, not_stored, no_device_info, cbccd_pgsql_set_guid_tbl_data,
  cbccd_pgsql_cache_get_tbl_list, cbccd_pgsql_get_cache, cbccd_pgsql_get_cache_rev,
}
use chroot_cbccd.Config.Manage.{
  cbccd_config_add_object, cbccd_config_delete_object, cbccd_config_edit_object,
}
use chroot_cbccd.Admin.{request}
use chroot_cbccd.Wapi.{
  WapiEnv, Daemon, WapiRequest, Reply, dev_env, admin_env, config_env, without_row, with_world,
  answered, plain, parse_data, with_data, random_guid, text_at, int_at, with_text, guid_len,
  text_of, must,
}

-- CBCC_MAX_COL_DATA_LEN is the size of "data".
abbrev pub guid_requests : List Request
guid_requests = must (text_of (codes "guid") guid_len) ∷ []

abbrev pub edit_requests : List Request
edit_requests =
    must (text_of (codes "guid") guid_len)
    ∷ must (request object_type 4096 none (codes "data"))
    ∷ []

abbrev pub store_resp : StoreCode → RespCode
store_resp stored = ok
store_resp not_stored = db_oper_failed
store_resp no_device_info = db_oper_failed

module _ {S : Type 0} (env : WapiEnv S) (d : Daemon S) where
  abbrev pub store_reply : StoreCode × DeviceMgr × Db S → Reply S
  store_reply (code, devs, db) = record {
    code = store_resp code;
    resp_data = none;
    daemon = with_world env d (record (d.world) { db = db; devs = devs });
  }

  -- `cbccd_pgsql_set_guid_tbl_data`, whose answer matters here.
  unfoldable pub store_row : Text → Text → Text → Reply S
  store_row name guid t = store_reply (
      cbccd_pgsql_set_guid_tbl_data env.admin.exec (dev_env env d) d.world.devs d.world.db name guid
        t)

  abbrev chosen_guid : Option (List (Option Item)) → Text
  chosen_guid none = random_guid env d
  chosen_guid (some is) = text_at env d is 0

  abbrev obj_guid : Text → Text
  obj_guid guid = snprintf guid_len (codes "REF_" ++ guid)

  unfoldable pub add_object : Text → Text → Text → Option (Reply S)
  add_object type guid t = do
    a ← cbccd_config_add_object (config_env env d) d.conf d.world.devs (obj_guid guid) type t
    with_text env.admin.lib (codes "guid") (obj_guid guid) (answered env d a)

  unfoldable pub add_row : Text → Text → Text → Option (Reply S)
  add_row type guid t = with_text env.admin.lib (codes "guid") guid (store_row type guid t)

  -- A guid that is not given, or data that cannot be parsed: the guid is a random one.
  unfoldable pub process_wapi_add_req : Bool → WapiRequest → Option (Reply S)
  process_wapi_add_req is_object req = elim (cbccd_pgsql_get_tbl_idx req.type) [
    | none ↦ some (plain env d unknown_tbl)
    | some idx ↦ do
      t ← req.content
      r ← parse_data env d req.content guid_requests
      if is_object
          then add_object req.type (chosen_guid r) t
          else add_row req.type (chosen_guid r) t
  ]

  abbrev delete_row : Text → Text → Reply S
  delete_row type guid = record (plain env d ok) {
    daemon = with_world env d (without_row (admin_env env d) d.world type guid);
  }

  unfoldable pub delete_object : Text → Text → Option (Reply S)
  delete_object type guid = do
    a ← cbccd_config_delete_object (config_env env d) d.conf d.world.devs guid type
    some (answered env d a)

  unfoldable pub process_wapi_delete_req : Bool → WapiRequest → Option (Reply S)
  process_wapi_delete_req is_object req = with_data env d req.content guid_requests λ is.
      if is_object
      then delete_object req.type (text_at env d is 0)
      else some (delete_row req.type (text_at env d is 0))

  unfoldable pub edit_object : Text → Text → Text → Option (Reply S)
  edit_object type guid t = do
    a ← cbccd_config_edit_object (config_env env d) d.conf d.world.devs guid type t
    some (answered env d a)

  -- A row must be there before it is edited.
  unfoldable pub edit_row : Text → Text → Text → Option (Reply S)
  edit_row type guid t = do
    old ←
        cbccd_pgsql_cache_get_tbl_data d.world.db.tbl_infos (cbccd_pgsql_get_tbl_idx type)
          (some guid)
    elim old [ none ↦ some (plain env d not_found_guid) | some row ↦ some (store_row type guid t) ]

  unfoldable pub process_wapi_edit_req : Bool → WapiRequest → Option (Reply S)
  process_wapi_edit_req is_object req = elim (cbccd_pgsql_get_tbl_idx req.type) [
    | none ↦ some (plain env d unknown_tbl)
    | some idx ↦ with_data env d req.content edit_requests λ is.
        if is_object
        then edit_object req.type (text_at env d is 0) (text_at env d is 1)
        else edit_row req.type (text_at env d is 0) (text_at env d is 1)
  ]

  abbrev pub found_row : Option Text → Reply S
  found_row none = plain env d not_found_guid
  found_row (some t) = record (plain env d ok) { resp_data = some t }

  unfoldable pub get_row : Text → Text → Option (Reply S)
  get_row type guid = do
    row ←
        cbccd_pgsql_cache_get_tbl_data d.world.db.tbl_infos (cbccd_pgsql_get_tbl_idx type)
          (some guid)
    some (found_row row)

  unfoldable pub process_wapi_get_req : WapiRequest → Option (Reply S)
  process_wapi_get_req req = elim (cbccd_pgsql_get_tbl_idx req.type) [
    | none ↦ some (plain env d unknown_tbl)
    | some idx ↦
        with_data env d req.content guid_requests λ is. get_row req.type (text_at env d is 0)
  ]

  unfoldable pub process_wapi_list_req : WapiRequest → Option (Reply S)
  process_wapi_list_req req = elim (cbccd_pgsql_get_tbl_idx req.type) [
    | none ↦ some (plain env d unknown_tbl)
    | some idx ↦ do
      t ← cbccd_pgsql_cache_get_tbl_list env.admin.lib d.world.db.tbl_infos (some idx)
      some (record (plain env d ok) { resp_data = some t })
  ]

  unfoldable pub process_wapi_get_cache_req : WapiRequest → Option (Reply S)
  process_wapi_get_cache_req req =
      with_data env d req.content (request int_type 0 none (codes "rev") ∷ []) λ is. do
        t ← cbccd_pgsql_get_cache env.admin.lib d.world.db.changelog_info (int_at env d is 0)
        some (record (plain env d ok) { resp_data = t })

  -- `pocess_wapi_get_cache_rev_req`
  unfoldable pub process_wapi_get_cache_rev_req : Option (Reply S)
  process_wapi_get_cache_rev_req = do
    t ← cbccd_pgsql_get_cache_rev env.admin.lib d.world.db.changelog_info
    some (record (plain env d ok) { resp_data = some t })
