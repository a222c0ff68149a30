-- ===== src/Config.antt =====
-- cbccd/cbccd_config.c: the organisational units (OUs), their configuration objects, and who
-- refers to an object. A pointer to an object is its address, a number that malloc gave out; a
-- pointer to an OU is its guid, as in the list of devices. `none` is undefined behaviour. Texts are
-- taken to fit the arrays that `strcpy` copies them into.
pub mod References
pub mod Deploy
pub mod Load
pub mod Manage
pub mod Status
pub mod Later
pub mod Moves
pub mod Removal
pub mod Default
pub mod OuNames
pub mod Answers
use chroot_cbccd.Base.{
  ℕ, ◌+◌, Bool, true, false, Option, none, some, List, [], ◌∷◌, ◌++◌, map, length, ◌==◌,
  if◌then◌else◌, Text, codes, str_eq,
}

-- enum CBCC_CONFIG_OBJECT_TYPE, without UNKNOWN
pub data ObjectType : Type 0 where
  net_group_type host_type network_type switch_type multicast_type service_ah_type : ObjectType
  service_esp_type service_icmp_type service_ip_type service_tcp_type service_udp_type : ObjectType
  service_tcpudp_type service_group_type time_recurring_type time_single_type : ObjectType
  fw_type : ObjectType

-- `config_obj_types`
abbrev pub config_obj_types : List (ObjectType × Text)
config_obj_types =
    (net_group_type, codes "global_network_group")
    ∷ (host_type, codes "global_network_host")
    ∷ (network_type, codes "global_network_network")
    ∷ (switch_type, codes "global_network_switch")
    ∷ (multicast_type, codes "global_network_multicast")
    ∷ (service_ah_type, codes "global_service_ah")
    ∷ (service_esp_type, codes "global_service_esp")
    ∷ (service_icmp_type, codes "global_service_icmp")
    ∷ (service_ip_type, codes "global_service_ip")
    ∷ (service_tcp_type, codes "global_service_tcp")
    ∷ (service_udp_type, codes "global_service_udp")
    ∷ (service_tcpudp_type, codes "global_service_tcpudp")
    ∷ (service_group_type, codes "global_service_group")
    ∷ (time_recurring_type, codes "global_time_recurring")
    ∷ (time_single_type, codes "global_time_single")
    ∷ (fw_type, codes "global_packetfilter_packetfilter")
    ∷ []

abbrev pub type_number : ObjectType → ℕ
type_number net_group_type = 0
type_number host_type = 1
type_number network_type = 2
type_number switch_type = 3
type_number multicast_type = 4
type_number service_ah_type = 5
type_number service_esp_type = 6
type_number service_icmp_type = 7
type_number service_ip_type = 8
type_number service_tcp_type = 9
type_number service_udp_type = 10
type_number service_tcpudp_type = 11
type_number service_group_type = 12
type_number time_recurring_type = 13
type_number time_single_type = 14
type_number fw_type = 15

-- `get_obj_type`; `none` is CBCC_CONFIG_OBJECT_TYPE_UNKNOWN.
unfoldable pub type_from : List (ObjectType × Text) → Text → Option ObjectType
type_from [] name = none
type_from ((type, n) ∷ rest) name = if str_eq name n then some type else type_from rest name

unfoldable pub get_obj_type : Text → Option ObjectType
get_obj_type name = type_from config_obj_types name

-- The chain of references, with its count: the objects that refer to an object. Freeing it sets
-- the count to 0 and leaves the pointer to the chain as it is.
pub data Refs : Type 0 where
  refs : List ℕ → Refs
  freed_refs : Refs

abbrev pub ref_count : Refs → ℕ
ref_count (refs rs) = length rs
ref_count freed_refs = 0

-- struct cbcc_config_object; the links are the order of the list, `ou_info` the OU that has it.
pub record ConfigObject : Type 0 where
  pub addr : ℕ
  pub obj_type : ObjectType
  pub obj_guid : Text
  pub obj_data : Text
  pub is_set : Bool
  pub ref_objs : Refs

-- struct cbcc_config_ou_info; the object list has its length as its count.
pub record OuInfo : Type 0 where
  pub ou_guid : Text
  pub ou_name : Text
  pub is_default : Bool
  pub conf_objs : List ConfigObject
  pub conf_obj_arr : List Text
  pub conf_md5sum : Text

-- struct cbcc_config_ou_list
pub record OuList : Type 0 where
  pub count : ℕ
  pub default_ou_info : Option Text
  pub ou_infos : List OuInfo

-- struct cbccd_config_mgr, with the address that malloc gives out next.
pub record ConfigMgr : Type 0 where
  pub ou_list : OuList
  pub next_addr : ℕ

-- Every object in the order of the nested loops, with the guid of its OU.
unfoldable pub located : List OuInfo → List (Text × ConfigObject)
located [] = []
located (ou ∷ ous) = map (λ o. (ou.ou_guid, o)) ou.conf_objs ++ located ous

abbrev pub Located : Type 0
Located = Text × ConfigObject

-- `get_config_obj`, and following a pointer to an object.
unfoldable pub find_guid : List Located → Text → Option Located
find_guid [] guid = none
find_guid (l ∷ ls) guid = if str_eq l.1.obj_guid guid then some l else find_guid ls guid

unfoldable pub find_addr : List Located → ℕ → Option Located
find_addr [] a = none
find_addr (l ∷ ls) a = if l.1.addr == a then some l else find_addr ls a

unfoldable pub get_config_obj : List OuInfo → Text → Option Located
get_config_obj ous guid = find_guid (located ous) guid

-- Writing through a pointer to an object.
unfoldable pub modify_at : ℕ → (ConfigObject → ConfigObject) → List ConfigObject → List ConfigObject
modify_at a f [] = []
modify_at a f (o ∷ os) = if o.addr == a then f o ∷ os else o ∷ modify_at a f os

abbrev pub in_objects : (List ConfigObject → List ConfigObject) → OuInfo → OuInfo
in_objects f ou = record ou { conf_objs = f ou.conf_objs }

unfoldable pub modify_object : ℕ → (ConfigObject → ConfigObject) → List OuInfo → List OuInfo
modify_object a f ous = map (in_objects (modify_at a f)) ous

-- `add_obj_ref`: with count 0 the chain starts anew.
abbrev pub push_ref : ℕ → Refs → Refs
push_ref a (refs rs) = refs (rs ++ (a ∷ []))
push_ref a freed_refs = refs (a ∷ [])

abbrev pub add_obj_ref : ℕ → ConfigObject → ConfigObject
add_obj_ref a o = record o { ref_objs = push_ref a o.ref_objs }

-- `free_obj_ref_list`
abbrev pub free_refs : Refs → Refs
free_refs (refs []) = refs []
free_refs (refs (a ∷ rs)) = freed_refs
free_refs freed_refs = freed_refs

abbrev pub free_obj_ref_list : ConfigObject → ConfigObject
free_obj_ref_list o = record o { ref_objs = free_refs o.ref_objs }

-- `add_config_obj`: a new object at the end of its OU's list.
abbrev pub new_object : ℕ → Text → ConfigObject
new_object a guid = record {
  addr = a;
  obj_type = net_group_type;
  obj_guid = guid;
  obj_data = [];
  is_set = false;
  ref_objs = refs [];
}

-- Something done to the first OU with a guid.
unfoldable pub modify_ou : Text → (OuInfo → OuInfo) → List OuInfo → List OuInfo
modify_ou guid f [] = []
modify_ou guid f (ou ∷ ous) =
    if str_eq ou.ou_guid guid then f ou ∷ ous else ou ∷ modify_ou guid f ous

abbrev pub append_object : ConfigObject → OuInfo → OuInfo
append_object o ou = in_objects (λ os. os ++ (o ∷ [])) ou

unfoldable pub unlink_at : ℕ → List ConfigObject → List ConfigObject
unlink_at a [] = []
unlink_at a (o ∷ os) = if o.addr == a then os else o ∷ unlink_at a os

-- `delete_config_obj`
unfoldable pub delete_config_obj : ℕ → List OuInfo → List OuInfo
delete_config_obj a ous = map (in_objects (unlink_at a)) ous

-- `get_ou_info`
unfoldable pub find_ou : List OuInfo → Text → Option OuInfo
find_ou [] guid = none
find_ou (ou ∷ ous) guid = if str_eq ou.ou_guid guid then some ou else find_ou ous guid

unfoldable pub get_ou_info : OuList → Text → Option OuInfo
get_ou_info l guid = if l.count == 0 then none else find_ou l.ou_infos guid

-- `remove_ou_info`, which leaves `count` as it is.
unfoldable pub unlink_ou : Text → List OuInfo → List OuInfo
unlink_ou guid [] = []
unlink_ou guid (ou ∷ ous) = if str_eq ou.ou_guid guid then ous else ou ∷ unlink_ou guid ous

unfoldable pub remove_ou_info : OuList → Text → OuList
remove_ou_info l guid = record l { ou_infos = unlink_ou guid l.ou_infos }

abbrev pub new_ou : Text → Text → OuInfo
new_ou guid name = record {
  ou_guid = guid;
  ou_name = name;
  is_default = false;
  conf_objs = [];
  conf_obj_arr = [];
  conf_md5sum = [];
}

-- `add_ou_info`: with a count that is not 0 the end of the list is looked for from its head, which
-- must not be NULL.
abbrev pub append_ou : List OuInfo → OuInfo → Option (List OuInfo)
append_ou [] ou = none
append_ou (p ∷ ps) ou = some (p ∷ (ps ++ (ou ∷ [])))

abbrev pub extend : ℕ → List OuInfo → OuInfo → Option (List OuInfo)
extend count ous ou = if count == 0 then some (ou ∷ []) else append_ou ous ou

unfoldable pub add_ou_info : OuList → Text → Text → Option OuList
add_ou_info l guid name = elim (extend l.count l.ou_infos (new_ou guid name)) [
  | none ↦ none
  | some ous ↦ some (record l { ou_infos = ous; count = l.count + 1 })
]

-- The write of the flag through a pointer to an OU.
abbrev pub set_flag : Bool → OuInfo → OuInfo
set_flag b ou = record ou { is_default = b }
