-- ===== src/Wapi/Ous.antt =====
-- Requests on organisational units: create, edit, delete and make the default one.
use chroot_cbccd.Base.{◌>>=◌, Option, none, some, List, [], ◌∷◌, codes}
use chroot_cbccd.Json.Parse.{Request, str_array_type}
use chroot_cbccd.Device.{ok}
use chroot_cbccd.Config.Manage.{
  cbccd_config_create_ou, cbccd_config_edit_ou, cbccd_config_delete_ou, cbccd_config_set_default_ou,
}
use chroot_cbccd.Admin.{request}
use chroot_cbccd.Wapi.{
  WapiEnv, Daemon, WapiRequest, Reply, config_env, answered, with_data, random_guid, text_at,
  texts_at, with_text, guid_len, text_of,
}

-- CBCC_MAX_OU_NAME_LEN and CBCC_MAX_COMMENT_LEN are 128, too.
abbrev ou_requests : List Request
ou_requests =
    text_of (codes "ou_name") 128
    ∷ text_of (codes "comment") 128
    ∷ request str_array_type 0 none (codes "dev_guids")
    ∷ []

abbrev ou_guid_request : Request
ou_guid_request = text_of (codes "ou_guid") guid_len

module _ {S : Type 0} (env : WapiEnv S) (d : Daemon S) (req : WapiRequest) where
  unfoldable pub process_wapi_create_ou_req : Option (Reply S)
  process_wapi_create_ou_req = with_data env d req.content ou_requests λ is. do
    a ←
        cbccd_config_create_ou (config_env env d) d.conf d.world.devs (random_guid env d)
          (text_at env d is 0) (text_at env d is 1) (texts_at env d is 2)
    with_text env.admin.lib (codes "guid") (random_guid env d) (answered env d a)

  unfoldable pub process_wapi_edit_ou_req : Option (Reply S)
  process_wapi_edit_ou_req = with_data env d req.content (ou_guid_request ∷ ou_requests) λ is. do
    a ←
        cbccd_config_edit_ou (config_env env d) d.conf d.world.devs (text_at env d is 0)
          (text_at env d is 1) (text_at env d is 2) (texts_at env d is 3)
    some (answered env d a)

  -- The configuration's answer is void.
  unfoldable pub process_wapi_delete_ou_req : Option (Reply S)
  process_wapi_delete_ou_req = with_data env d req.content (ou_guid_request ∷ []) λ is. do
    a ← cbccd_config_delete_ou (config_env env d) d.conf d.world.devs (text_at env d is 0)
    some (record (answered env d a) { code = ok })

  unfoldable pub process_wapi_set_default_ou_req : Option (Reply S)
  process_wapi_set_default_ou_req = with_data env d req.content (ou_guid_request ∷ []) λ is. do
    a ← cbccd_config_set_default_ou (config_env env d) d.conf d.world.devs (text_at env d is 0)
    some (answered env d a)
