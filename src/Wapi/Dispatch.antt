-- ===== src/Wapi/Dispatch.antt =====
-- cbccd_process_wapi_request: a request is parsed, handled by its action, and answered.
use chroot_cbccd.Base.{◌++◌, ◌>>=◌, true, false, Option, none, some, List, [], ◌∷◌, Text, codes}
use chroot_cbccd.Json.Tree.{JsonC}
use chroot_cbccd.Json.Parse.{
  Request, Item, string_type, object_big_type, cbcc_json_parse_from_buffer,
}
use chroot_cbccd.Json.Edit.{Given, new_object, object_text, int_given, cbcc_json_build}
use chroot_cbccd.Device.{RespCode, unknown_act, json_invalid}
use chroot_cbccd.Config.Deploy.{jobj}
use chroot_cbccd.Commands.{resp_number}
use chroot_cbccd.Admin.{request, text_after, big_after}
use chroot_cbccd.Wapi.{WapiEnv, Daemon, WapiRequest, Reply, item_at, plain}
use chroot_cbccd.Wapi.ActType.{
  ActType, add_act, delete_act, edit_act, get_act, list_act, reboot_act, shutdown_act, prefetch_act,
  firmware_act, pattern_act, create_backup_act, delete_backup_act, restore_backup_act, add_obj_act,
  delete_obj_act, edit_obj_act, get_cache_act, get_cache_rev_act, create_ou_act, edit_ou_act,
  delete_ou_act, set_default_ou_act, delete_dev_act, deny_dev_act, allow_dev_act, get_web_cred_act,
  unknown_type, get_wapi_act_type,
}
use chroot_cbccd.Wapi.Tables.{
  process_wapi_add_req, process_wapi_delete_req, process_wapi_edit_req, process_wapi_get_req,
  process_wapi_list_req, process_wapi_get_cache_req, process_wapi_get_cache_rev_req,
}
use chroot_cbccd.Wapi.Agents.{
  process_wapi_sysact_req, process_wapi_create_backup_req, process_wapi_restore_backup_req,
  process_wapi_delete_backup_req, process_wapi_disable_dev_req, process_wapi_allow_dev_req,
  process_wapi_get_web_cred,
}
use chroot_cbccd.Wapi.Ous.{
  process_wapi_create_ou_req, process_wapi_edit_ou_req, process_wapi_delete_ou_req,
  process_wapi_set_default_ou_req,
}

-- CBCC_MAX_WAPI_ACT_LEN and CBCC_MAX_TBL_NAME_LEN are the sizes of the first two.
abbrev pub req_requests : List Request
req_requests =
    request string_type 64 none (codes "action")
    ∷ request string_type 128 none (codes "type")
    ∷ request object_big_type 0 none (codes "data")
    ∷ []

-- The request was cleared before.
unfoldable pub wapi_request : List (Option Item) → WapiRequest
wapi_request is = record {
  action = text_after [] (item_at is 0);
  type = text_after [] (item_at is 1);
  content = big_after none (item_at is 2);
}

-- The response without data has an empty object.
abbrev data_given : Option Text → Given
data_given none = new_object
data_given (some t) = object_text t

-- `send_wapi_response`: what is sent, with a line feed at its end.
unfoldable pub send_wapi_response : JsonC → RespCode → Option Text → Option Text
send_wapi_response lib code resp_data = do
  t ← cbcc_json_build lib (
      jobj (codes "code") (int_given (resp_number code))
      ∷ jobj (codes "data") (data_given resp_data)
      ∷ [])
  some (t ++ codes "\n")

module _ {S : Type 0} (env : WapiEnv S) (d : Daemon S) where
  -- The switch over the actions.
  unfoldable pub process_act : ActType → WapiRequest → Option (Reply S)
  process_act add_act req = process_wapi_add_req env d false req
  process_act delete_act req = process_wapi_delete_req env d false req
  process_act edit_act req = process_wapi_edit_req env d false req
  process_act get_act req = process_wapi_get_req env d req
  process_act list_act req = process_wapi_list_req env d req
  process_act reboot_act req = process_wapi_sysact_req env d req
  process_act shutdown_act req = process_wapi_sysact_req env d req
  process_act prefetch_act req = process_wapi_sysact_req env d req
  process_act firmware_act req = process_wapi_sysact_req env d req
  process_act pattern_act req = process_wapi_sysact_req env d req
  process_act create_backup_act req = process_wapi_create_backup_req env d req
  process_act delete_backup_act req = process_wapi_delete_backup_req env d req
  process_act restore_backup_act req = process_wapi_restore_backup_req env d req
  process_act add_obj_act req = process_wapi_add_req env d true req
  process_act delete_obj_act req = process_wapi_delete_req env d true req
  process_act edit_obj_act req = process_wapi_edit_req env d true req
  process_act get_cache_act req = process_wapi_get_cache_req env d req
  process_act get_cache_rev_act req = process_wapi_get_cache_rev_req env d
  process_act create_ou_act req = process_wapi_create_ou_req env d req
  process_act edit_ou_act req = process_wapi_edit_ou_req env d req
  process_act delete_ou_act req = process_wapi_delete_ou_req env d req
  process_act set_default_ou_act req = process_wapi_set_default_ou_req env d req
  process_act delete_dev_act req = process_wapi_disable_dev_req env d req false
  process_act deny_dev_act req = process_wapi_disable_dev_req env d req true
  process_act allow_dev_act req = process_wapi_allow_dev_req env d req
  process_act get_web_cred_act req = process_wapi_get_web_cred env d req
  process_act unknown_type req = some (plain env d unknown_act)

  unfoldable pub process_request : WapiRequest → Option (Reply S)
  process_request req = process_act (get_wapi_act_type req.action) req

  abbrev pub process_parsed : Option (List (Option Item)) → Option (Reply S)
  process_parsed none = some (plain env d json_invalid)
  process_parsed (some is) = process_request (wapi_request is)

  unfoldable pub process_buffer : Text → Option (Reply S)
  process_buffer wapi_buf =
      cbcc_json_parse_from_buffer env.admin.lib wapi_buf req_requests >>= process_parsed

  -- `cbccd_process_wapi_request`: the response that is sent, and the daemon afterwards.
  unfoldable pub cbccd_process_wapi_request : Text → Option (Text × Daemon S)
  cbccd_process_wapi_request wapi_buf = do
    r ← process_buffer wapi_buf
    resp ← send_wapi_response env.admin.lib r.code r.resp_data
    some (resp, r.daemon)
