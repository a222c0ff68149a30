-- ===== src/Monitor.antt =====
-- cbccd/cbccd_mon.c: what agents report for monitoring, stored by table.
pub mod Stored
use chroot_cbccd.Base.{
  ℕ, Bool, true, false, not, Option, none, some, List, [], ◌∷◌, ◌++◌, map, ◌>>=◌, if◌then◌else◌,
  Text, codes,
}
use chroot_cbccd.ObjectNames.{get_tblname_by_objname}
use chroot_cbccd.Json.Tree.{JsonC}
use chroot_cbccd.Json.Parse.{Request, Item, str_val, object_type, cbcc_json_parse_from_buffer}
use chroot_cbccd.Device.{
  DeviceInfo, DeviceMgr, RespCode, ok, not_connected, not_logined, Call, set_guid_tbl_data,
  rm_guid_tbl_data, cbccd_device_get_info_by_sock,
}

-- `device_monitor_objs`
abbrev pub device_monitor_objs : List Text
device_monitor_objs =
    codes "config.common"
    ∷ codes "device.inventory"
    ∷ codes "device.product"
    ∷ codes "monitoring.availability"
    ∷ codes "monitoring.dashboard"
    ∷ codes "monitoring.license"
    ∷ codes "monitoring.resource"
    ∷ codes "monitoring.service"
    ∷ codes "monitoring.threat"
    ∷ codes "monitoring.version"
    ∷ []

abbrev pub monitor_request : Text → Request
monitor_request name = record {
  key = name;
  parent_key = none;
  data_size = 4096;
  must_specify = true;
  is_root = false;
  type = object_type;
}

-- What the array holds afterwards: a member that is no object leaves it as it was.
abbrev pub array_after : Text → Option Item → Text
array_after uninit (some (str_val t)) = t
array_after uninit i = uninit

abbrev pub first_array : Text → List (Option Item) → Text
first_array uninit [] = uninit
first_array uninit (i ∷ is) = array_after uninit i

-- `get_monitor_obj_data`; -1 is `some none`.
unfoldable pub get_monitor_obj_data : JsonC → Text → Text → Text → Option (Option Text)
get_monitor_obj_data lib uninit cmd_data name = do
  r ← cbcc_json_parse_from_buffer lib cmd_data (monitor_request name ∷ [])
  some (elim r [ none ↦ none | some is ↦ some (first_array uninit is) ])

-- `set_monitor_obj_data`
unfoldable pub set_monitor_obj_data : Text → Text → Text → Call
set_monitor_obj_data name guid content =
    set_guid_tbl_data (get_tblname_by_objname name 128) guid content

-- The loop of `cbccd_mon_set_data`.
unfoldable pub set_objs : JsonC → Text → Text → Text → List Text → Option (List Call)
set_objs lib uninit guid cmd_data [] = some []
set_objs lib uninit guid cmd_data (name ∷ names) = do
  content ← get_monitor_obj_data lib uninit cmd_data name
  rest ← set_objs lib uninit guid cmd_data names
  some (elim content [ none ↦ rest | some t ↦ set_monitor_obj_data name guid t ∷ rest ])

unfoldable pub cbccd_mon_set_data :
    JsonC → Text → DeviceMgr → Option ℕ → Text → Option (RespCode × List Call)
cbccd_mon_set_data lib uninit devs sock cmd_data = elim (cbccd_device_get_info_by_sock devs sock) [
  | none ↦ some (not_connected, [])
  | some d ↦
      if not d.is_logined
      then some (not_logined, [])
      else do calls ← set_objs lib uninit d.guid cmd_data device_monitor_objs; some (ok, calls)
]

-- `cbccd_mon_remove_data`, which takes the names of the objects for names of tables.
unfoldable pub cbccd_mon_remove_data : Text → List Call
cbccd_mon_remove_data guid = map (λ name. rm_guid_tbl_data name guid) device_monitor_objs
