-- ===== src/Config/Deploy.antt =====
-- What an OU's devices are sent: make_config_list, cbccd_config_send_data and the deploy status.
use chroot_cbccd.Base.{
  ℕ, zero, suc, ◌+◌, Bool, true, false, not, Option, none, some, List, [], ◌∷◌, ◌++◌, ◌>>=◌, ◌==◌,
  ltb, length, get_elem?, if◌then◌else◌, Status, success, failure, Text, codes, str_eq,
}
use chroot_cbccd.Digests.{get_md5sum_of_buffer}
use chroot_cbccd.ObjectNames.{get_objtype_by_tblname}
use chroot_cbccd.Cache.{cbccd_pgsql_cache_get_tbl_data}
use chroot_cbccd.Cache.Names.{cbccd_pgsql_get_tbl_idx}
use chroot_cbccd.Device.{
  DeviceInfo, DeviceMgr, Call, set_guid_tbl_data, send_cmd, cbccd_device_get_info_by_sock,
}
use chroot_cbccd.Json.Parse.{max_json_arr_size, max_json_arr_field_len}
use chroot_cbccd.Json.Edit.{
  Given, new_object, object_text, string_given, obj_array_given, Jobj, cbcc_json_build,
  cbcc_json_add,
}
use chroot_cbccd.Config.{
  ObjectType, config_obj_types, type_number, ConfigObject, OuInfo, ConfigMgr, Located, located,
  get_ou_info,
}
use chroot_cbccd.Config.References.{ConfigEnv, parse_text, is_fw, check_obj_fw_ref}

-- An object to build a text of: without a parent, and under one.
abbrev pub text_jobj : Text → Text → Jobj
text_jobj key t = record { key = key; parent_key = none; value = string_given (some t) }

abbrev pub jobj : Text → Given → Jobj
jobj key given = record { key = key; parent_key = none; value = given }

abbrev pub jobj_under : Text → Text → Given → Jobj
jobj_under parent key given = record { key = key; parent_key = some parent; value = given }

-- `config_obj_types[type]`
abbrev entry_name : Option (ObjectType × Text) → Text
entry_name none = []
entry_name (some e) = e.1

abbrev pub type_name : ObjectType → Text
type_name type = entry_name (get_elem? config_obj_types (type_number type))

-- Whether an object goes into the list of the OU with a guid: the `continue`s of the loop.
unfoldable pub goes_into : ConfigEnv → List Located → Text → Located → Option Bool
goes_into env ls guid l =
    if not l.1.is_set
    then some false
    else if str_eq l.0 guid
    then some true
    else if is_fw l.1.obj_type
    then check_obj_fw_ref env ls l.1 guid
    else some false

unfoldable pub object_json : ConfigEnv → ConfigObject → Option Text
object_json env o = cbcc_json_build env.lib (
    text_jobj (codes "guid") o.obj_guid
    ∷ text_jobj (codes "type") (get_objtype_by_tblname (type_name o.obj_type) 128)
    ∷ jobj (codes "data") (object_text o.obj_data)
    ∷ [])

-- The copy into the next field of the array, with neither size looked at.
unfoldable pub push_text : List Text → Text → Option (List Text)
push_text arr t =
    if ltb (length arr) max_json_arr_size
    then if ltb (length t) max_json_arr_field_len then some (arr ++ (t ∷ [])) else none
    else none

unfoldable pub add_conf : ConfigEnv → List Located → Text → List Text → Located → Option (List Text)
add_conf env ls guid arr l = do
  goes ← goes_into env ls guid l
  if goes then (object_json env l.1 >>= push_text arr) else some arr

-- The nested loops of `make_config_list_for_ou`, over the objects of all OUs.
unfoldable pub collect :
    ConfigEnv → List Located → Text → List Text → List Located → Option (List Text)
collect env ls guid arr [] = some arr
collect env ls guid arr (l ∷ rest) = do
  next ← add_conf env ls guid arr l
  collect env ls guid next rest

-- The array of the sum is left as it was if there is none.
abbrev or_old : Text → Option Text → Text
or_old old none = old
or_old old (some s) = s

unfoldable pub make_config_list_for_ou : ConfigEnv → List Located → OuInfo → Option OuInfo
make_config_list_for_ou env ls ou = do
  arr ← collect env ls ou.ou_guid [] ls
  t ← cbcc_json_build env.lib (jobj (codes "deploy.objects") (obj_array_given (some arr)) ∷ [])
  some (record ou {
    conf_obj_arr = arr;
    conf_md5sum = or_old ou.conf_md5sum (get_md5sum_of_buffer env.ssl t);
  })

-- `make_config_list`: the lists are made of what the OUs hold, which it does not change.
unfoldable pub make_lists : ConfigEnv → List Located → List OuInfo → Option (List OuInfo)
make_lists env ls [] = some []
make_lists env ls (ou ∷ ous) = do
  made ← make_config_list_for_ou env ls ou
  rest ← make_lists env ls ous
  some (made ∷ rest)

unfoldable pub make_config_list : ConfigEnv → List OuInfo → Option (List OuInfo)
make_config_list env ous = make_lists env (located ous) ous

abbrev objects_of : Option OuInfo → List ConfigObject
objects_of none = []
objects_of (some ou) = ou.conf_objs

abbrev array_of : Option OuInfo → Option (List Text)
array_of none = none
array_of (some ou) = some ou.conf_obj_arr

-- `send_deploy_config_cmd`: what is sent.
unfoldable pub deploy_cmd : ConfigEnv → Option OuInfo → Option Text
deploy_cmd env ou = cbcc_json_build env.lib (
    text_jobj (codes "cmd") (codes "device.deploy.object")
    ∷ jobj (codes "data") new_object
    ∷ jobj_under (codes "data") (codes "deploy.objects") (obj_array_given (array_of ou))
    ∷ [])

-- `deploy_st_tbl_names`
abbrev pub deploy_st_tbl_names : List Text
deploy_st_tbl_names =
    codes "global_object_network_group"
    ∷ codes "global_object_network_host"
    ∷ codes "global_object_network_network"
    ∷ codes "global_object_service_ah"
    ∷ codes "global_object_service_esp"
    ∷ codes "global_object_service_icmp"
    ∷ codes "global_object_service_ip"
    ∷ codes "global_object_service_tcp"
    ∷ codes "global_object_service_udp"
    ∷ codes "global_object_service_tcpudp"
    ∷ codes "global_object_service_group"
    ∷ codes "global_object_time_recurring"
    ∷ codes "global_object_time_single"
    ∷ codes "global_object_packetfilter_packetfilter"
    ∷ []

-- `add_deploy_status`: the empty status, and one with another object. The pointer to the new text
-- is not written if the old one cannot be parsed, and is used all the same.
abbrev init_status : ConfigEnv → Option Text
init_status env = cbcc_json_build env.lib (jobj (codes "status") new_object ∷ [])

abbrev written : Option Text → Option Text
written t = t

unfoldable pub add_deploy_status : ConfigEnv → Text → Text → Option Text
add_deploy_status env old guid = do
  r ←
      cbcc_json_add env.lib old
        (jobj_under (codes "status") guid (string_given (some (codes "success"))) ∷ [])
  written r

unfoldable pub add_statuses : ConfigEnv → ℕ → Text → List ConfigObject → Option Text
add_statuses env i t [] = some t
add_statuses env i t (o ∷ os) = do
  next ←
      (if not (type_number o.obj_type == i)
        then some t
        else if not o.is_set
        then some t
        else add_deploy_status env t o.obj_guid)
  add_statuses env i next os

-- One round of `set_deploy_status`: the status of the objects of one type.
unfoldable pub status_text : ConfigEnv → ℕ → List ConfigObject → Option Text
status_text env i os = do empty ← init_status env; add_statuses env i empty os

-- `set_deploy_status`, with `rounds` rounds of its loop left, at index `i`.
unfoldable pub status_rounds : ConfigEnv → Text → List ConfigObject → ℕ → ℕ → Option (List Call)
status_rounds env dev_guid os zero i = some []
status_rounds env dev_guid os (suc rounds) i = do
  t ← status_text env i os
  table ← get_elem? deploy_st_tbl_names i
  calls ← status_rounds env dev_guid os rounds (i + 1)
  some (set_guid_tbl_data table dev_guid t ∷ calls)

-- CBCC_CONFIG_OBJECT_TYPE_UNKNOWN
abbrev pub num_obj_types : ℕ
num_obj_types = 16

unfoldable pub set_deploy_status : ConfigEnv → Text → Option OuInfo → Option (List Call)
set_deploy_status env dev_guid ou = status_rounds env dev_guid (objects_of ou) num_obj_types 0

-- Sending, and the status if it was sent.
unfoldable pub deploy : ConfigEnv → DeviceInfo → Option OuInfo → Option (List Call)
deploy env d ou = do
  cmd ← deploy_cmd env ou
  statuses ← (if env.sends d.sock cmd then set_deploy_status env d.guid ou else some [])
  some (send_cmd d.sock cmd ∷ statuses)

abbrev pub md5_of : Option OuInfo → Text
md5_of none = []
md5_of (some ou) = ou.conf_md5sum

-- Nothing is sent if the device has the sum of its OU's list, or none where its OU is not known.
unfoldable pub compare_sum : ConfigEnv → DeviceInfo → Text → Option OuInfo → Option (List Call)
compare_sum env d sum ou = if str_eq (md5_of ou) sum then some [] else deploy env d ou

abbrev with_calls : Option (List Call) → Option (Status × List Call)
with_calls calls = calls >>= λ cs. some (success, cs)

-- The work for a device that is logged in, once its sum and the text of its OU were read.
unfoldable pub send_to :
    ConfigEnv → ConfigMgr → DeviceInfo → Text → Option Text → Option (Status × List Call)
send_to env m d sum none = some (failure, [])
send_to env m d sum (some jstr) = do
  ou_guid ← parse_text env jstr (codes "ou") 128 false
  elim ou_guid [
    | none ↦ some (success, [])
    | some guid ↦ with_calls (compare_sum env d sum (get_ou_info m.ou_list guid))
  ]

unfoldable pub cbccd_config_send_data :
    ConfigEnv → ConfigMgr → DeviceMgr → ℕ → Text → Option (Status × List Call)
cbccd_config_send_data env m devs sock cmd_data =
    elim (cbccd_device_get_info_by_sock devs (some sock)) [
      | none ↦ some (failure, [])
      | some d ↦ if not d.is_logined then some (failure, []) else do
        sum ← parse_text env cmd_data (codes "md5sum") 33 false
        elim sum [
          | none ↦ some (failure, [])
          | some s ↦
              cbccd_pgsql_cache_get_tbl_data env.dev.tables
                (cbccd_pgsql_get_tbl_idx (codes "device_ou")) (some d.guid)
              >>= send_to env m d s
        ]
    ]

-- `send_check_config_cmd`: to every device that is logged in.
unfoldable pub check_calls : Text → List DeviceInfo → List Call
check_calls cmd [] = []
check_calls cmd (d ∷ ds) =
    if d.is_logined then send_cmd d.sock cmd ∷ check_calls cmd ds else check_calls cmd ds

unfoldable pub send_check_config_cmd : ConfigEnv → DeviceMgr → Option (List Call)
send_check_config_cmd env devs = do
  cmd ← cbcc_json_build env.lib (text_jobj (codes "cmd") (codes "device.config.check") ∷ [])
  some (check_calls cmd devs.dev_infos)
