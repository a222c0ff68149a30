-- ===== src/Config/References.antt =====
-- References between objects: set_grp_objs_refs, set_fw_objs_refs, set_config_objs_refs, and
-- check_obj_fw_ref.
use chroot_cbccd.Base.{
  ℕ, zero, suc, Bool, true, false, ◌&&◌, Option, none, some, List, [], ◌∷◌, map, ◌>>=◌,
  if◌then◌else◌, Text, codes, str_eq,
}
use chroot_cbccd.Json.Tree.{JsonC}
use chroot_cbccd.Json.Parse.{
  Request, Item, str_val, str_vals, string_type, str_array_type, cbcc_json_parse_from_buffer,
}
use chroot_cbccd.Device.Json.{Env}
use chroot_cbccd.Digests.{OpenSsl}
use chroot_cbccd.Config.{
  ObjectType, net_group_type, service_group_type, fw_type, Refs, refs, freed_refs, ConfigObject,
  OuInfo, Located, located, find_addr, get_config_obj, modify_object, add_obj_ref,
  free_obj_ref_list,
}

-- json-c, OpenSSL, whether cbccd_cmd_send returns 0, how deep the stack lets
-- check_obj_fw_ref nest, and the surroundings that the device manager has too.
pub record ConfigEnv : Type 0 where
  pub lib : JsonC
  pub ssl : OpenSsl
  pub sends : Option ℕ → Text → Bool
  pub depth : ℕ
  pub dev : Env

-- A request for a text under a key.
abbrev pub text_request : Text → ℕ → Bool → Request
text_request key size must = record {
  key = key;
  parent_key = none;
  data_size = size;
  must_specify = must;
  is_root = false;
  type = string_type;
}

-- What the array of a text request holds afterwards.
abbrev pub text_item : Text → Option Item → Text
text_item uninit none = uninit
text_item uninit (some (str_val t)) = t
text_item uninit (some i) = uninit

-- A call that asks for one text; `some none` is -1.
abbrev first_text : Text → List (Option Item) → Text
first_text uninit [] = uninit
first_text uninit (i ∷ is) = text_item uninit i

unfoldable pub parse_text : ConfigEnv → Text → Text → ℕ → Bool → Option (Option Text)
parse_text env buffer key size must = do
  r ← cbcc_json_parse_from_buffer env.lib buffer (text_request key size must ∷ [])
  some (elim r [ none ↦ none | some is ↦ some (first_text env.dev.uninit is) ])

-- The members of a group: their number is not written if `members` is no array.
abbrev pub members_request : Request
members_request = record {
  key = codes "members";
  parent_key = none;
  data_size = 0;
  must_specify = true;
  is_root = false;
  type = str_array_type;
}

abbrev pub members_item : List (Option Item) → Option (List Text)
members_item (some (str_vals gs) ∷ is) = some gs
members_item is = none

-- The loop over the members: it looks at `ref_guid` where it means `ref_obj`, and writes through
-- NULL for a member that does not exist.
unfoldable pub add_group_refs : List OuInfo → ℕ → List Text → Option (List OuInfo)
add_group_refs ous by [] = some ous
add_group_refs ous by (g ∷ gs) = do
  target ← get_config_obj ous g
  add_group_refs (modify_object target.1.addr (add_obj_ref by) ous) by gs

unfoldable pub set_grp_objs_refs : ConfigEnv → List OuInfo → ConfigObject → Option (List OuInfo)
set_grp_objs_refs env ous o = do
  r ← cbcc_json_parse_from_buffer env.lib o.obj_data (members_request ∷ [])
  elim r [ none ↦ some ous | some is ↦ members_item is >>= add_group_refs ous o.addr ]

-- The loop over the four guids of a firewall rule, which skips what does not exist.
unfoldable pub add_fw_refs : List OuInfo → ℕ → List Text → List OuInfo
add_fw_refs ous by [] = ous
add_fw_refs ous by (g ∷ gs) = elim (get_config_obj ous g) [
  | none ↦ add_fw_refs ous by gs
  | some target ↦ add_fw_refs (modify_object target.1.addr (add_obj_ref by) ous) by gs
]

abbrev pub max_guid_len : ℕ
max_guid_len = 128

abbrev pub fw_requests : List Request
fw_requests =
    text_request (codes "destination") max_guid_len false
    ∷ text_request (codes "source") max_guid_len false
    ∷ text_request (codes "service") max_guid_len false
    ∷ text_request (codes "time") max_guid_len false
    ∷ []

unfoldable pub set_fw_objs_refs : ConfigEnv → List OuInfo → ConfigObject → Option (List OuInfo)
set_fw_objs_refs env ous o = do
  r ← cbcc_json_parse_from_buffer env.lib o.obj_data fw_requests
  some
      (elim r [ none ↦ ous | some is ↦ add_fw_refs ous o.addr (map (text_item env.dev.uninit) is) ])

-- `set_obj_refs`
unfoldable pub refs_by_type :
    ConfigEnv → List OuInfo → ConfigObject → ObjectType → Option (List OuInfo)
refs_by_type env ous o net_group_type = set_grp_objs_refs env ous o
refs_by_type env ous o service_group_type = set_grp_objs_refs env ous o
refs_by_type env ous o fw_type = set_fw_objs_refs env ous o
refs_by_type env ous o type = some ous

unfoldable pub set_obj_refs : ConfigEnv → List OuInfo → ConfigObject → Option (List OuInfo)
set_obj_refs env ous o = refs_by_type env ous o o.obj_type

-- One object of the loop: its references are freed, and then it is added to those it refers to.
unfoldable pub refresh : ConfigEnv → List OuInfo → ConfigObject → Option (List OuInfo)
refresh env ous o =
    if o.is_set then set_obj_refs env (modify_object o.addr free_obj_ref_list ous) o else some ous

-- `set_config_objs_refs`, over the addresses of the objects in order.
unfoldable pub refresh_all : ConfigEnv → List OuInfo → List ℕ → Option (List OuInfo)
refresh_all env ous [] = some ous
refresh_all env ous (a ∷ rs) = do
  l ← find_addr (located ous) a
  next ← refresh env ous l.1
  refresh_all env next rs

abbrev pub addrs : List OuInfo → List ℕ
addrs ous = map (λ l. l.1.addr) (located ous)

unfoldable pub set_config_objs_refs : ConfigEnv → List OuInfo → Option (List OuInfo)
set_config_objs_refs env ous = refresh_all env ous (addrs ous)

abbrev pub is_fw : ObjectType → Bool
is_fw fw_type = true
is_fw type = false

-- The chain that a pointer leads to; following a freed one is undefined.
abbrev pub chain : Refs → Option (List ℕ)
chain (refs rs) = some rs
chain freed_refs = none

-- The loop of `check_obj_fw_ref` over a chain, with the call for the chain of each reference.
unfoldable pub check_each : List Located → Text → (List ℕ → Option Bool) → List ℕ → Option Bool
check_each ls guid deeper [] = some false
check_each ls guid deeper (a ∷ rs) =
    let later = check_each ls guid deeper rs in
    do
      l ← find_addr ls a
      inner ← chain l.1.ref_objs
      found ← deeper inner
      if found
          then some true
          else if is_fw l.1.obj_type && str_eq l.0 guid
          then some true
          else later

-- `check_obj_fw_ref` of a chain, with room for `depth` calls within it.
unfoldable pub check_refs : ℕ → List Located → Text → List ℕ → Option Bool
check_refs zero ls guid rs = check_each ls guid (λ inner. none) rs
check_refs (suc depth) ls guid rs = check_each ls guid (check_refs depth ls guid) rs

unfoldable pub check_obj_fw_ref : ConfigEnv → List Located → ConfigObject → Text → Option Bool
check_obj_fw_ref env ls o guid = chain o.ref_objs >>= check_refs env.depth ls guid
