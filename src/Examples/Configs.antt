-- ===== src/Examples/Configs.antt =====
-- Runs of the configuration manager.
use chroot_cbccd.Base.{
  ◌≡◌, ◌≢◌, refl, Bool, true, false, not, ◌&&◌, none, some, List, [], ◌∷◌, ◌++◌, map, ltb, length,
  Text, codes, str_eq, str_eq_iff,
}
use chroot_cbccd.Json.Tree.{Members, string_node, array_node, no_nodes, node, no_members, member}
use chroot_cbccd.Json.Search.{cbcc_get_jobj_by_key, find_in}
use chroot_cbccd.Json.Tree.{lookup}
use chroot_cbccd.Json.Parse.{
  cbcc_json_parse_from_buffer, parse_root, cbcc_jobj_parse, parse_one, find_value,
  check_obj_validation, read_value, elements, set_str_vals, set_int_vals, cbcc_json_set_pairs,
}
use chroot_cbccd.Device.{find_device, DeviceInfo, DeviceMgr, ok, ou_name_duplicate}
use chroot_cbccd.Digests.{OpenSsl}
use chroot_cbccd.Config.{
  find_guid, get_config_obj, modify_at, modify_object, Refs, refs, freed_refs, ConfigObject,
  net_group_type, host_type, OuInfo, OuList, ConfigMgr, Located, located, find_addr, find_ou,
  get_ou_info, new_ou, remove_ou_info, add_ou_info,
}
use chroot_cbccd.Config.References.{
  ConfigEnv, addrs, set_config_objs_refs, refresh_all, refresh, set_obj_refs, refs_by_type,
  set_grp_objs_refs, add_fw_refs, add_group_refs, set_fw_objs_refs,
}
use chroot_cbccd.Config.Manage.{
  Answer, unchanged, set_name, taken_by_other, cbccd_config_edit_ou, cbccd_config_delete_ou,
  cbccd_config_set_default_ou,
}
use chroot_cbccd.Config.Later.{Within, set_config_objs_refs-later}
use chroot_cbccd.Device.Pool.{IsValid}
use chroot_cbccd.Config.Moves.{placed}
use chroot_cbccd.Config.Removal.{
  NoneIn, delete_ou_lem, delete_default_ou, edit_ou_lem, DistinctGuids,
}
use chroot_cbccd.Config.Default.{AllFlagged, set_default_ou_lem}
use chroot_cbccd.Config.OuNames.{is_defined, add_ou_info-remove}
use chroot_cbccd.Examples.Texts.{object_text, reading}
use chroot_cbccd.Examples.Devices.{demo_env, demo_mgr, demo_device}

-- Zero digests, and a stack that lets calls nest five deep.
abbrev pub demo_ssl : OpenSsl
demo_ssl = record {
  md5_init = true;
  md5 = λ t. 0 ∷ 0 ∷ 0 ∷ 0 ∷ 0 ∷ 0 ∷ 0 ∷ 0 ∷ 0 ∷ 0 ∷ 0 ∷ 0 ∷ 0 ∷ 0 ∷ 0 ∷ 0 ∷ [];
  encode = λ t. t;
  decode = λ t. t;
}

abbrev group_of_h : Members
group_of_h =
    member (codes "members") (array_node (node (string_node (codes "h")) no_nodes)) no_members

abbrev demo_config : ConfigEnv
demo_config = record {
  lib = reading group_of_h;
  ssl = demo_ssl;
  sends = λ sock cmd. true;
  depth = 5;
  dev = demo_env;
}

-- A group, and the host that is its member and stands after it.
abbrev the_group : ConfigObject
the_group = record {
  addr = 0;
  obj_type = net_group_type;
  obj_guid = codes "g";
  obj_data = object_text;
  is_set = true;
  ref_objs = refs [];
}

abbrev the_host : Refs → ConfigObject
the_host rs = record {
  addr = 1;
  obj_type = host_type;
  obj_guid = codes "h";
  obj_data = object_text;
  is_set = true;
  ref_objs = rs;
}

abbrev ou_with : Text → Bool → List ConfigObject → OuInfo
ou_with guid b os = record (new_ou guid guid) { is_default = b; conf_objs = os }

abbrev before_refs : List OuInfo
before_refs = ou_with (codes "A") true (the_group ∷ the_host (refs []) ∷ []) ∷ []

abbrev after_refs : List OuInfo
after_refs = ou_with (codes "A") true (the_group ∷ the_host freed_refs ∷ []) ∷ []

host_found : find_addr (located before_refs) 1 ≡ some (codes "A", the_host (refs []))
unfolding find_addr located
host_found = refl

addrs_split : addrs before_refs ≡ (0 ∷ []) ++ (1 ∷ [])
unfolding located
addrs_split = refl

refs_done : set_config_objs_refs demo_config before_refs ≡ some after_refs
unfolding set_config_objs_refs refresh_all located find_addr refresh set_obj_refs refs_by_type
    set_grp_objs_refs cbcc_json_parse_from_buffer parse_root str_eq cbcc_jobj_parse parse_one
    find_value cbcc_get_jobj_by_key lookup check_obj_validation read_value add_fw_refs
    add_group_refs set_fw_objs_refs find_guid get_config_obj modify_at modify_object elements
    set_str_vals set_int_vals cbcc_json_set_pairs find_in
refs_done = refl

-- The reference of the group, which stands before the host, is lost.
set_config_objs_refs-later_example :
    (m : Located) × (find_addr (located after_refs) 1 ≡ some m) × Within (1 ∷ []) m.1.ref_objs
set_config_objs_refs-later_example =
    set_config_objs_refs-later demo_config before_refs after_refs (0 ∷ []) [] 1
      (codes "A", the_host (refs [])) addrs_split host_found refl refs_done

-- Two OUs, the first the default one, and a device that has the second.
abbrev two_ous : OuList
two_ous = record {
  count = 2;
  default_ou_info = some (codes "A");
  ou_infos = ou_with (codes "A") true [] ∷ ou_with (codes "B") false [] ∷ [];
}

abbrev two_mgr : ConfigMgr
two_mgr = record { ou_list = two_ous; next_addr = 0 }

abbrev device_of_b : DeviceInfo
device_of_b = record (demo_device (codes "g2") 6 50) { ou_info = some (codes "B") }

abbrev placed_mgr : DeviceMgr
placed_mgr = record demo_mgr { dev_infos = demo_device (codes "g1") 5 90 ∷ device_of_b ∷ [] }

placed_mgr-IsValid : IsValid placed_mgr
unfolding find_device str_eq
placed_mgr-IsValid = record { counted = refl; distinct = (refl, (refl, tt)) }

a_known : get_ou_info two_ous (codes "A") ≡ some (ou_with (codes "A") true [])
unfolding get_ou_info find_ou str_eq
a_known = refl

a_found : find_ou two_ous.ou_infos (codes "A") ≡ some (ou_with (codes "A") true [])
unfolding find_ou str_eq
a_found = refl

b_known : get_ou_info two_ous (codes "B") ≡ some (ou_with (codes "B") false [])
unfolding get_ou_info find_ou str_eq
b_known = refl

two_distinct : DistinctGuids two_ous.ou_infos
unfolding find_ou str_eq
two_distinct = (refl, (refl, tt))

b_not_a : codes "B" ≢ codes "A"
unfolding str_eq
b_not_a e = let t : false ≡ true = (str_eq_iff (codes "B") (codes "A")).1 e in cc

delete_ou_lem_example :
    (a : Answer) × (cbccd_config_delete_ou demo_config two_mgr placed_mgr (codes "B") ≡ some a)
    × (find_ou a.mgr.ou_list.ou_infos (codes "B") ≡ none)
    × ((g : Text) → codes "B" ≢ g → find_ou a.mgr.ou_list.ou_infos g ≡ find_ou two_ous.ou_infos g)
    × (a.devs.dev_infos ≡ map (placed (codes "B") (codes "A") []) placed_mgr.dev_infos)
    × NoneIn (codes "B") a.devs.dev_infos
delete_ou_lem_example =
    delete_ou_lem demo_config two_mgr placed_mgr (codes "B") (codes "A")
      (ou_with (codes "B") false []) (ou_with (codes "A") true []) placed_mgr-IsValid two_distinct
      b_known refl a_found b_not_a

delete_default_ou_example :
    (a : Answer) × (cbccd_config_delete_ou demo_config two_mgr placed_mgr (codes "A") ≡ some a)
    × ((later : DeviceMgr) (other : Text) (q : OuInfo)
        → get_ou_info a.mgr.ou_list other ≡ some q
        → cbccd_config_set_default_ou demo_config a.mgr later other ≡ none)
delete_default_ou_example =
    delete_default_ou demo_config two_mgr placed_mgr (codes "A") (ou_with (codes "A") true [])
      placed_mgr-IsValid two_distinct a_known refl

edit_ou_lem_example :
    let taken =
      not (str_eq (codes "C") (codes "B"))
      && taken_by_other (codes "B") (codes "C") two_ous.ou_infos in
    let edit =
      cbccd_config_edit_ou demo_config two_mgr placed_mgr
        (codes "B")
        (codes "C")
        []
        (codes "g1" ∷ []) in
    (taken ≡ true → edit ≡ some (unchanged ou_name_duplicate two_mgr placed_mgr))
    × (taken ≡ false
        → (a : Answer) × (edit ≡ some a)
          × (a.code ≡ ok)
          × (find_ou a.mgr.ou_list.ou_infos (codes "B")
              ≡ some (set_name (codes "C") (ou_with (codes "B") false [])))
          × ((g : Text)
              → codes "B" ≢ g
              → find_ou a.mgr.ou_list.ou_infos g ≡ find_ou two_ous.ou_infos g)
          × (a.devs.dev_infos
              ≡ map (placed (codes "B") (codes "A") (codes "g1" ∷ [])) placed_mgr.dev_infos))
edit_ou_lem_example =
    edit_ou_lem demo_config two_mgr placed_mgr (codes "B") (codes "C") [] (codes "A")
      (codes "g1" ∷ []) (ou_with (codes "B") false []) (ou_with (codes "A") true [])
      placed_mgr-IsValid b_known refl a_found

two_flagged : AllFlagged (some (codes "A")) two_ous.ou_infos
unfolding str_eq
two_flagged = (refl, (refl, tt))

set_default_ou_lem_example :
    (a : Answer) × (cbccd_config_set_default_ou demo_config two_mgr placed_mgr (codes "B") ≡ some a)
    × (a.mgr.ou_list.default_ou_info ≡ some (codes "B"))
    × AllFlagged (some (codes "B")) a.mgr.ou_list.ou_infos
    × DistinctGuids a.mgr.ou_list.ou_infos
set_default_ou_lem_example =
    set_default_ou_lem demo_config two_mgr placed_mgr (codes "B") (codes "A")
      (ou_with (codes "B") false []) (ou_with (codes "A") true []) two_distinct two_flagged b_known
      refl a_found

add_ou_info-remove_example :
    is_defined (add_ou_info (remove_ou_info two_ous (codes "B")) (codes "C") (codes "C"))
    ≡ ltb 1 (length two_ous.ou_infos)
add_ou_info-remove_example =
    add_ou_info-remove two_ous (codes "B") (codes "C") (codes "C") (ou_with (codes "B") false [])
      refl b_known
