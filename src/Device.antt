-- ===== src/Device.antt =====
-- cbccd/cbccd_device.c: the devices that the daemon knows, and who of them is logged in. The calls
-- that leave the component are a list, in the order of the code. The locks are not modelled.
pub mod Access
pub mod Agent
pub mod Keepalive
pub mod Login
pub mod Outcome
pub mod Pool
pub mod Pointers
pub mod Silence
pub mod Json
pub mod Start
pub mod Rows
pub mod Placed
pub mod Started
use chroot_cbccd.Base.{
  ℕ, ◌+◌, ◌-◌, Bool, true, false, Option, none, some, List, [], ◌∷◌, ◌++◌, ◌==◌, if◌then◌else◌,
  Text, codes, str_eq,
}

-- enum CBCCD_DEVICE_REG_STATUS and enum CBCCD_DEVICE_CONN_STATUS
pub data RegStatus : Type 0 where
  confirmed blacklisted reg_unknown : RegStatus

pub data ConnStatus : Type 0 where
  online offline conn_unknown : ConnStatus

-- struct cbccd_device_info. The socket -1 is `none`; `ou_info` is the guid of the OU pointed to;
-- the links are the order of the list below.
pub record DeviceInfo : Type 0 where
  pub sock : Option ℕ
  pub is_logined : Bool
  pub conn_status : ConnStatus
  pub reg_status : RegStatus
  pub guid : Text
  pub device_ipaddr : Text
  pub ou_info : Option Text
  pub role_type : ℕ
  pub web_login_cred : Text
  pub updated_tm : ℕ
  pub send_monitor_tm : ℕ

-- struct cbccd_device_mgr, with its device list and its confd info
pub record DeviceMgr : Type 0 where
  pub num_of_devices : ℕ
  pub dev_infos : List DeviceInfo
  pub secret_key : Text

-- enum CBCC_RESP_CODE
pub data RespCode : Type 0 where
  ok unknown_act unknown_tbl not_found_guid not_found_ou unknown_obj_type obj_is_using : RespCode
  ou_name_duplicate not_connected not_logined secret_mismatched device_in_blacklist : RespCode
  confd_failed json_invalid create_backup_failed no_exist_backup no_valid_backup : RespCode
  db_oper_failed send_failed out_of_mem file_oper_failed : RespCode

-- `code == CBCC_RESP_OK`
abbrev pub is_ok : RespCode → Bool
is_ok ok = true
is_ok _ = false

-- A call of another component, with its arguments.
pub data Call : Type 0 where
  set_guid_tbl_data : Text → Text → Text → Call
  rm_guid_tbl_data : Text → Text → Call
  set_cache : Text → Text → Call
  send_cmd : Option ℕ → Text → Call
  free_socket : Option ℕ → Call
  mon_remove_data : Text → Call
  admin_delete_all_backups : Text → Call
  report_delete_data : Text → Call

-- `get_device_reg_status`
unfoldable pub get_device_reg_status : Text → RegStatus
get_device_reg_status s =
    if str_eq s (codes "CONFIRMED")
    then confirmed
    else if str_eq s (codes "BLACKLISTED")
    then blacklisted
    else reg_unknown

abbrev pub same_sock : Option ℕ → Option ℕ → Bool
same_sock none none = true
same_sock none (some b) = false
same_sock (some a) none = false
same_sock (some a) (some b) = a == b

abbrev pub has_sock : Option ℕ → DeviceInfo → Bool
has_sock sock p = same_sock p.sock sock

abbrev pub has_guid : Text → DeviceInfo → Bool
has_guid guid p = str_eq p.guid guid

-- The walk for the first device that passes a test, and writes through the pointer to it.
unfoldable pub find_device : (DeviceInfo → Bool) → List DeviceInfo → Option DeviceInfo
find_device test [] = none
find_device test (p ∷ ps) = if test p then some p else find_device test ps

unfoldable pub modify_device :
    (DeviceInfo → Bool) → (DeviceInfo → DeviceInfo) → List DeviceInfo → List DeviceInfo
modify_device test f [] = []
modify_device test f (p ∷ ps) = if test p then f p ∷ ps else p ∷ modify_device test f ps

pub unlink_device : (DeviceInfo → Bool) → List DeviceInfo → List DeviceInfo
unlink_device test [] = []
unlink_device test (p ∷ ps) = if test p then ps else p ∷ unlink_device test ps

unfoldable pub cbccd_device_get_info_by_sock : DeviceMgr → Option ℕ → Option DeviceInfo
cbccd_device_get_info_by_sock m sock = find_device (has_sock sock) m.dev_infos

unfoldable pub cbccd_device_get_info_by_guid : DeviceMgr → Text → Option DeviceInfo
cbccd_device_get_info_by_guid m guid = find_device (has_guid guid) m.dev_infos

abbrev pub modify_guid : DeviceMgr → Text → (DeviceInfo → DeviceInfo) → DeviceMgr
modify_guid m guid f = record m { dev_infos = modify_device (has_guid guid) f m.dev_infos }

unfoldable pub add_device_info : DeviceMgr → DeviceInfo → DeviceMgr
add_device_info m dev = record m {
  dev_infos = if m.num_of_devices == 0 then dev ∷ [] else m.dev_infos ++ (dev ∷ []);
  num_of_devices = m.num_of_devices + 1;
}

-- `remove_device_info` of the device that was found by its guid.
pub remove_device_info : DeviceMgr → Text → DeviceMgr
remove_device_info m guid =
    let n = m.num_of_devices - 1 in
    record m {
      dev_infos = if n == 0 then [] else unlink_device (has_guid guid) m.dev_infos;
      num_of_devices = n;
    }

-- `free_all_device_infos` does not reset the count.
unfoldable pub free_all_device_infos : DeviceMgr → DeviceMgr
free_all_device_infos m = if m.num_of_devices == 0 then m else record m { dev_infos = [] }
