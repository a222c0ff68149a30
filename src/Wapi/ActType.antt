-- ===== src/Wapi/ActType.antt =====
-- The actions of the web interface: their numbers, and the array of their names.
use chroot_cbccd.Base.{ℕ, zero, suc, ◌+◌, List, [], ◌∷◌, Text, codes, str_eq, if◌then◌else◌}

-- enum CBCC_WAPI_ACT_TYPE; UNKNOWN is the last.
pub data ActType : Type 0 where
  add_act delete_act edit_act get_act list_act reboot_act : ActType
  shutdown_act prefetch_act firmware_act pattern_act create_backup_act delete_backup_act : ActType
  restore_backup_act add_obj_act delete_obj_act edit_obj_act get_cache_act get_cache_rev_act :
      ActType
  create_ou_act edit_ou_act delete_ou_act set_default_ou_act delete_dev_act deny_dev_act : ActType
  allow_dev_act get_web_cred_act : ActType
  unknown_type : ActType

-- The numbers of the enumeration.
abbrev pub act_number : ActType → ℕ
act_number add_act = 0
act_number delete_act = 1
act_number edit_act = 2
act_number get_act = 3
act_number list_act = 4
act_number reboot_act = 5
act_number shutdown_act = 6
act_number prefetch_act = 7
act_number firmware_act = 8
act_number pattern_act = 9
act_number create_backup_act = 10
act_number delete_backup_act = 11
act_number restore_backup_act = 12
act_number add_obj_act = 13
act_number delete_obj_act = 14
act_number edit_obj_act = 15
act_number get_cache_act = 16
act_number get_cache_rev_act = 17
act_number create_ou_act = 18
act_number edit_ou_act = 19
act_number delete_ou_act = 20
act_number set_default_ou_act = 21
act_number delete_dev_act = 22
act_number deny_dev_act = 23
act_number allow_dev_act = 24
act_number get_web_cred_act = 25
act_number unknown_type = 26

-- The enumeration in its order.
abbrev pub all_acts : List ActType
all_acts =
    add_act ∷ delete_act ∷ edit_act ∷ get_act ∷ list_act ∷ reboot_act ∷ shutdown_act ∷ prefetch_act
    ∷ firmware_act ∷ pattern_act ∷ create_backup_act ∷ delete_backup_act ∷ restore_backup_act
    ∷ add_obj_act ∷ delete_obj_act ∷ edit_obj_act ∷ get_cache_act ∷ get_cache_rev_act
    ∷ create_ou_act ∷ edit_ou_act ∷ delete_ou_act ∷ set_default_ou_act ∷ delete_dev_act
    ∷ deny_dev_act ∷ allow_dev_act ∷ get_web_cred_act ∷ []

abbrev pub act_from : List ActType → ℕ → ActType
act_from [] n = unknown_type
act_from (a ∷ rest) zero = a
act_from (a ∷ rest) (suc n) = act_from rest n

-- What an int stands for: the cases of the switch.
abbrev pub act_of : ℕ → ActType
act_of n = act_from all_acts n

-- `act_type_strs`
abbrev pub act_type_strs : List Text
act_type_strs =
    codes "add"
    ∷ codes "delete"
    ∷ codes "edit"
    ∷ codes "get"
    ∷ codes "list"
    ∷ codes "reboot_device"
    ∷ codes "shutdown_device"
    ∷ codes "prefetch_update"
    ∷ codes "install_firmware"
    ∷ codes "install_pattern"
    ∷ codes "create_backup"
    ∷ codes "delete_backup"
    ∷ codes "restore_backup"
    ∷ codes "add_object"
    ∷ codes "delete_object"
    ∷ codes "edit_object"
    ∷ codes "get_cache"
    ∷ codes "get_cache_rev"
    ∷ codes "create_ou"
    ∷ codes "edit_ou"
    ∷ codes "delete_ou"
    ∷ codes "set_default_ou"
    ∷ codes "delete_dev"
    ∷ codes "deny_dev"
    ∷ codes "allow_dev"
    ∷ codes "get_web_cred"
    ∷ []

-- `get_wapi_act_type`: the loop from index `i`, up to CBCC_WAPI_ACT_UNKNOWN or the NULL at the end.
unfoldable pub act_index : ℕ → List Text → Text → ℕ
act_index i [] act_str = 26
act_index i (n ∷ ns) act_str = if str_eq act_str n then i else act_index (i + 1) ns act_str

unfoldable pub get_wapi_act_type : Text → ActType
get_wapi_act_type act_str = act_of (act_index 0 act_type_strs act_str)
