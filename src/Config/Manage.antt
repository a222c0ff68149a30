-- ===== src/Config/Manage.antt =====
-- What the web API calls: objects are added, edited and deleted, OUs created, edited, deleted and
-- made the default.
use chroot_cbccd.Base.{
  ℕ, ◌+◌, Bool, true, false, not, ◌&&◌, Option, none, some, List, [], ◌∷◌, ◌++◌, take, ◌>>=◌, ltb,
  if◌then◌else◌, Text, codes, str_eq,
}
use chroot_cbccd.Device.{
  DeviceInfo, DeviceMgr, RespCode, ok, not_found_guid, not_found_ou, unknown_obj_type, obj_is_using,
  ou_name_duplicate, json_invalid, Call, set_guid_tbl_data, rm_guid_tbl_data,
}
use chroot_cbccd.Device.Agent.{cbccd_device_set_ou_info}
use chroot_cbccd.Json.Edit.{cbcc_json_build}
use chroot_cbccd.Config.{
  ObjectType, get_obj_type, ref_count, ConfigObject, OuInfo, OuList, ConfigMgr, Located,
  get_config_obj, modify_object, new_object, append_object, modify_ou, delete_config_obj, find_ou,
  get_ou_info, remove_ou_info, add_ou_info, set_flag,
}
use chroot_cbccd.Config.References.{ConfigEnv, parse_text, set_config_objs_refs}
use chroot_cbccd.Config.Deploy.{text_jobj, make_config_list, send_check_config_cmd}

-- An answer with the managers afterwards and the calls that were made.
pub record Answer : Type 0 where
  pub code : RespCode
  pub mgr : ConfigMgr
  pub devs : DeviceMgr
  pub calls : List Call

abbrev pub unchanged : RespCode → ConfigMgr → DeviceMgr → Answer
unchanged code m devs = record { code = code; mgr = m; devs = devs; calls = [] }

abbrev pub refused : RespCode → ConfigMgr → DeviceMgr → Option Answer
refused code m devs = some (unchanged code m devs)

abbrev with_ous : ConfigMgr → List OuInfo → ConfigMgr
with_ous m ous = record m { ou_list = record (m.ou_list) { ou_infos = ous } }

-- The two calls that follow each change of an object.
unfoldable pub rebuild : ConfigEnv → List OuInfo → Option (List OuInfo)
rebuild env ous = set_config_objs_refs env ous >>= make_config_list env

-- `set_ou_tbl_data`
abbrev ou_table : Text → Text
ou_table type = take 127 (type ++ codes "_ou")

unfoldable pub set_ou_tbl_data : ConfigEnv → Text → Text → Text → Option (List Call)
set_ou_tbl_data env ou_guid obj_guid type = do
  t ← cbcc_json_build env.lib (text_jobj (codes "ou") ou_guid ∷ [])
  some (set_guid_tbl_data (ou_table type) obj_guid t ∷ [])

abbrev filled : ℕ → Text → ObjectType → Text → ConfigObject
filled addr guid type content = record (new_object addr guid) {
  obj_data = content;
  obj_type = type;
  is_set = true;
}

unfoldable pub insert_object :
    ConfigEnv → ConfigMgr → DeviceMgr → Text → Text → ObjectType → Text → Text → Option Answer
insert_object env m devs ou_guid guid type type_str content = do
  let o = filled m.next_addr guid type content
  ous ← rebuild env (modify_ou ou_guid (append_object o) m.ou_list.ou_infos)
  ou_calls ← set_ou_tbl_data env ou_guid guid type_str
  checks ← send_check_config_cmd env devs
  some (record {
    code = ok;
    mgr = record (with_ous m ous) { next_addr = m.next_addr + 1 };
    devs = devs;
    calls = set_guid_tbl_data type_str guid content ∷ (ou_calls ++ checks);
  })

unfoldable pub add_to_ou :
    ConfigEnv → ConfigMgr → DeviceMgr → Text → Text → Text → Text → Option Answer
add_to_ou env m devs ou_guid guid type_str content = elim (get_ou_info m.ou_list ou_guid) [
  | none ↦ refused not_found_ou m devs
  | some ou ↦ elim (get_obj_type type_str) [
    | none ↦ refused unknown_obj_type m devs
    | some type ↦ insert_object env m devs ou_guid guid type type_str content
  ]
]

unfoldable pub cbccd_config_add_object :
    ConfigEnv → ConfigMgr → DeviceMgr → Text → Text → Text → Option Answer
cbccd_config_add_object env m devs guid type_str content = do
  ou_guid ← parse_text env content (codes "ou") 128 true
  elim ou_guid [
    | none ↦ refused json_invalid m devs
    | some g ↦ add_to_ou env m devs g guid type_str content
  ]

unfoldable pub drop_object :
    ConfigEnv → ConfigMgr → DeviceMgr → Located → Text → Text → Option Answer
drop_object env m devs l guid type_str = do
  ous ← rebuild env (delete_config_obj l.1.addr m.ou_list.ou_infos)
  checks ← send_check_config_cmd env devs
  some (record {
    code = ok;
    mgr = with_ous m ous;
    devs = devs;
    calls = rm_guid_tbl_data type_str guid ∷ rm_guid_tbl_data (ou_table type_str) guid ∷ checks;
  })

unfoldable pub cbccd_config_delete_object :
    ConfigEnv → ConfigMgr → DeviceMgr → Text → Text → Option Answer
cbccd_config_delete_object env m devs guid type_str =
    elim (get_config_obj m.ou_list.ou_infos guid) [
      | none ↦ refused not_found_guid m devs
      | some l ↦
          if ltb 0 (ref_count l.1.ref_objs)
          then refused obj_is_using m devs
          else drop_object env m devs l guid type_str
    ]

abbrev set_data : Text → ConfigObject → ConfigObject
set_data content o = record o { obj_data = content }

unfoldable pub change_object :
    ConfigEnv → ConfigMgr → DeviceMgr → Located → Text → Text → Text → Option Answer
change_object env m devs l guid type_str content = do
  ous ← rebuild env (modify_object l.1.addr (set_data content) m.ou_list.ou_infos)
  checks ← send_check_config_cmd env devs
  some (record {
    code = ok;
    mgr = with_ous m ous;
    devs = devs;
    calls = set_guid_tbl_data type_str guid content ∷ checks;
  })

unfoldable pub cbccd_config_edit_object :
    ConfigEnv → ConfigMgr → DeviceMgr → Text → Text → Text → Option Answer
cbccd_config_edit_object env m devs guid type_str content =
    elim (get_config_obj m.ou_list.ou_infos guid) [
      | none ↦ refused not_found_guid m devs
      | some l ↦ change_object env m devs l guid type_str content
    ]

-- `set_ou_info_into_db`
unfoldable pub set_ou_info_into_db : ConfigEnv → Text → Text → Text → Option (List Call)
set_ou_info_into_db env guid name comment = do
  t ←
      cbcc_json_build env.lib
        (text_jobj (codes "name") name ∷ text_jobj (codes "comment") comment ∷ [])
  some (set_guid_tbl_data (codes "ou_info") guid t ∷ [])

-- Calls of `cbccd_device_set_ou_info` one after another.
unfoldable pub set_devices : ConfigEnv → DeviceMgr → Text → List Text → DeviceMgr × List Call
set_devices env devs ou [] = (devs, [])
set_devices env devs ou (g ∷ gs) =
    let (next, calls) = cbccd_device_set_ou_info env.dev devs g ou in
    let (last, more) = set_devices env next ou gs in (last, calls ++ more)

unfoldable pub has_name : Text → List OuInfo → Bool
has_name name [] = false
has_name name (ou ∷ ous) = if str_eq name ou.ou_name then true else has_name name ous

abbrev pub created : ConfigMgr → OuList → List Call → DeviceMgr × List Call → Answer
created m l calls set = record {
  code = ok;
  mgr = record m { ou_list = l };
  devs = set.0;
  calls = calls ++ set.1;
}

unfoldable pub cbccd_config_create_ou :
    ConfigEnv → ConfigMgr → DeviceMgr → Text → Text → Text → List Text → Option Answer
cbccd_config_create_ou env m devs guid name comment dev_guids =
    if has_name name m.ou_list.ou_infos then refused ou_name_duplicate m devs else do
      l ← add_ou_info m.ou_list guid name
      calls ← set_ou_info_into_db env guid name comment
      some (created m l calls (set_devices env devs guid dev_guids))

-- Another OU with a name.
unfoldable pub taken_by_other : Text → Text → List OuInfo → Bool
taken_by_other guid name [] = false
taken_by_other guid name (p ∷ ps) =
    if not (str_eq guid p.ou_guid) && str_eq name p.ou_name
    then true
    else taken_by_other guid name ps

unfoldable pub in_list : Text → List Text → Bool
in_list g [] = false
in_list g (h ∷ hs) = if str_eq g h then true else in_list g hs

abbrev pub same_ou : Option Text → Text → Bool
same_ou none guid = false
same_ou (some g) guid = str_eq g guid

-- The default OU, where a device is moved to it: it must be there.
unfoldable pub default_guid : OuList → Option Text
default_guid l = do guid ← l.default_ou_info; ou ← find_ou l.ou_infos guid; some guid

abbrev move : ConfigEnv → DeviceMgr → DeviceInfo → Text → Option (DeviceMgr × List Call)
move env devs d guid = some (cbccd_device_set_ou_info env.dev devs d.guid guid)

-- One device of the loop of `cbccd_config_edit_ou`.
unfoldable pub move_device :
    ConfigEnv → OuList → DeviceMgr → Text → List Text → DeviceInfo → Option (DeviceMgr × List Call)
move_device env l devs guid dev_guids d =
    if in_list d.guid dev_guids
    then if same_ou d.ou_info guid then some (devs, []) else move env devs d guid
    else if same_ou d.ou_info guid
    then (default_guid l >>= move env devs d)
    else some (devs, [])

-- The loop over the devices. What a call changes was visited before.
unfoldable pub move_devices :
    ConfigEnv
    → OuList
    → DeviceMgr
    → Text
    → List Text
    → List DeviceInfo
    → Option (DeviceMgr × List Call)
move_devices env l devs guid dev_guids [] = some (devs, [])
move_devices env l devs guid dev_guids (d ∷ ds) = do
  one ← move_device env l devs guid dev_guids d
  rest ← move_devices env l one.0 guid dev_guids ds
  some (rest.0, one.1 ++ rest.1)

abbrev pub set_name : Text → OuInfo → OuInfo
set_name name ou = record ou { ou_name = name }

abbrev pub renamed : OuList → Text → Text → OuList
renamed l guid name = record l { ou_infos = modify_ou guid (set_name name) l.ou_infos }

abbrev pub edited_ou : ConfigMgr → OuList → List Call → DeviceMgr × List Call → Answer
edited_ou m l calls moved = record {
  code = ok;
  mgr = record m { ou_list = l };
  devs = moved.0;
  calls = calls ++ moved.1;
}

-- The call of the database stands in front of those of the loop. When it is performed, it may add a
-- device whose guid is that of the OU, which the loop in the code would see: it would make a
-- difference just for a list `dev_guids` that names the OU's own guid.
unfoldable pub rename_ou :
    ConfigEnv → ConfigMgr → DeviceMgr → Text → Text → Text → List Text → Option Answer
rename_ou env m devs guid name comment dev_guids = do
  let l = renamed m.ou_list guid name
  calls ← set_ou_info_into_db env guid name comment
  moved ← move_devices env l devs guid dev_guids devs.dev_infos
  some (edited_ou m l calls moved)

unfoldable pub cbccd_config_edit_ou :
    ConfigEnv → ConfigMgr → DeviceMgr → Text → Text → Text → List Text → Option Answer
cbccd_config_edit_ou env m devs guid name comment dev_guids = elim (get_ou_info m.ou_list guid) [
  | none ↦ refused not_found_ou m devs
  | some ou ↦
      if not (str_eq name ou.ou_name) && taken_by_other guid name m.ou_list.ou_infos
      then refused ou_name_duplicate m devs
      else rename_ou env m devs guid name comment dev_guids
]

abbrev pub deleted_ou : ConfigMgr → Text → DeviceMgr × List Call → Answer
deleted_ou m guid moved = record {
  code = ok;
  mgr = record m { ou_list = remove_ou_info m.ou_list guid };
  devs = moved.0;
  calls = moved.1 ++ (rm_guid_tbl_data (codes "ou_info") guid ∷ []);
}

-- `cbccd_config_delete_ou`: every device of the OU goes to the default one; the answer is void.
unfoldable pub cbccd_config_delete_ou : ConfigEnv → ConfigMgr → DeviceMgr → Text → Option Answer
cbccd_config_delete_ou env m devs guid = elim (get_ou_info m.ou_list guid) [
  | none ↦ refused ok m devs
  | some ou ↦ do
    moved ← move_devices env m.ou_list devs guid [] devs.dev_infos
    some (deleted_ou m guid moved)
]

-- `set_default_ou`: the flag of the old default OU is written through its pointer.
abbrev pub default_changed : OuList → Text → Text → OuList
default_changed l old guid = record l {
  ou_infos = modify_ou guid (set_flag true) (modify_ou old (set_flag false) l.ou_infos);
  default_ou_info = some guid;
}

unfoldable pub switch_default : OuList → Text → Option OuList
switch_default l guid = do old ← default_guid l; some (default_changed l old guid)

abbrev pub default_stored : ConfigMgr → DeviceMgr → OuList → Text → Answer
default_stored m devs l t = record {
  code = ok;
  mgr = record m { ou_list = l };
  devs = devs;
  calls = set_guid_tbl_data (codes "ou_default") (codes "1") t ∷ [];
}

unfoldable pub cbccd_config_set_default_ou :
    ConfigEnv → ConfigMgr → DeviceMgr → Text → Option Answer
cbccd_config_set_default_ou env m devs guid = elim (get_ou_info m.ou_list guid) [
  | none ↦ refused not_found_ou m devs
  | some ou ↦ do
    l ← switch_default m.ou_list guid
    t ← cbcc_json_build env.lib (text_jobj (codes "default") guid ∷ [])
    some (default_stored m devs l t)
]
