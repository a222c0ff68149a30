-- ===== src/Config/Load.antt =====
-- Start-up and end: read_ou_list, read_default_ou, read_config_objects, cbccd_config_mgr_init and
-- cbccd_config_mgr_finalize.
use chroot_cbccd.Base.{
  ◌+◌, true, false, Option, none, some, List, [], ◌∷◌, ◌++◌, take, ◌>>=◌, ◌==◌, if◌then◌else◌, Text,
  codes,
}
use chroot_cbccd.Cache.{cbccd_pgsql_cache_get_tbl_data, cbccd_pgsql_cache_get_tbl_rows}
use chroot_cbccd.Cache.Names.{cbccd_pgsql_get_tbl_idx}
use chroot_cbccd.Config.{
  ObjectType, config_obj_types, ConfigObject, OuInfo, OuList, ConfigMgr, get_config_obj,
  modify_object, new_object, append_object, modify_ou, get_ou_info, add_ou_info, set_flag,
}
use chroot_cbccd.Config.References.{ConfigEnv, parse_text, set_config_objs_refs}
use chroot_cbccd.Config.Deploy.{make_config_list}

-- The rows of a table by its name; a name that is not in the array has index -1.
unfoldable pub rows_of : ConfigEnv → Text → Option (List (Text × Text))
rows_of env name = cbccd_pgsql_cache_get_tbl_rows env.dev.tables (cbccd_pgsql_get_tbl_idx name)

abbrev set_ous : List OuInfo → OuList → OuList
set_ous ous l = record l { ou_infos = ous }

-- `add_config_ou_info`: one row, which names an object and its OU.
unfoldable pub add_ou_row : ConfigMgr → Text → Text → ConfigMgr
add_ou_row m guid ou_guid = elim (get_ou_info m.ou_list ou_guid) [
  | none ↦ m
  | some ou ↦ record m {
    ou_list =
        set_ous (modify_ou ou_guid (append_object (new_object m.next_addr guid)) m.ou_list.ou_infos)
          m.ou_list;
    next_addr = m.next_addr + 1;
  }
]

unfoldable pub add_ou_rows : ConfigEnv → ConfigMgr → List (Text × Text) → Option ConfigMgr
add_ou_rows env m [] = some m
add_ou_rows env m ((guid, content) ∷ rows) = do
  ou_guid ← parse_text env content (codes "ou") 128 false
  add_ou_rows env (elim ou_guid [ none ↦ m | some g ↦ add_ou_row m guid g ]) rows

unfoldable pub add_config_ou_info : ConfigEnv → ConfigMgr → Text → Option ConfigMgr
add_config_ou_info env m table = rows_of env table >>= add_ou_rows env m

-- `set_config_objs`
abbrev set_object : ObjectType → Text → ConfigObject → ConfigObject
set_object type content o = record o { obj_type = type; obj_data = content; is_set = true }

unfoldable pub set_rows : ObjectType → List (Text × Text) → List OuInfo → List OuInfo
set_rows type [] ous = ous
set_rows type ((guid, content) ∷ rows) ous = elim (get_config_obj ous guid) [
  | none ↦ set_rows type rows ous
  | some l ↦ set_rows type rows (modify_object l.1.addr (set_object type content) ous)
]

unfoldable pub set_config_objs : ConfigEnv → ConfigMgr → ObjectType → Text → Option ConfigMgr
set_config_objs env m type table = do
  rows ← rows_of env table
  some (record m { ou_list = set_ous (set_rows type rows m.ou_list.ou_infos) m.ou_list })

-- The loop of `read_config_objects` over the types.
unfoldable pub read_types : ConfigEnv → ConfigMgr → List (ObjectType × Text) → Option ConfigMgr
read_types env m [] = some m
read_types env m ((type, name) ∷ rest) = do
  added ← add_config_ou_info env m (take 127 (name ++ codes "_ou"))
  next ← set_config_objs env added type name
  read_types env next rest

unfoldable pub read_config_objects : ConfigEnv → ConfigMgr → Option ConfigMgr
read_config_objects env m = do
  read ← read_types env m config_obj_types
  referred ← set_config_objs_refs env read.ou_list.ou_infos
  made ← make_config_list env referred
  some (record read { ou_list = set_ous made read.ou_list })

-- `read_ou_list`
unfoldable pub read_ous : ConfigEnv → OuList → List (Text × Text) → Option OuList
read_ous env l [] = some l
read_ous env l ((guid, content) ∷ rows) = do
  name ← parse_text env content (codes "name") 128 true
  next ← elim name [ none ↦ some l | some n ↦ add_ou_info l guid n ]
  read_ous env next rows

unfoldable pub read_ou_list : ConfigEnv → OuList → Option OuList
read_ou_list env l = rows_of env (codes "ou_info") >>= read_ous env l

-- `read_default_ou`
unfoldable pub default_to : OuList → Text → OuList
default_to l guid = elim (get_ou_info l guid) [
  | none ↦ l
  | some ou ↦ record l {
    ou_infos = modify_ou guid (set_flag true) l.ou_infos;
    default_ou_info = some guid;
  }
]

unfoldable pub read_default_ou : ConfigEnv → OuList → Option OuList
read_default_ou env l = do
  content ←
      cbccd_pgsql_cache_get_tbl_data env.dev.tables (cbccd_pgsql_get_tbl_idx (codes "ou_default"))
        (some (codes "1"))
  elim content [
    | none ↦ some l
    | some jstr ↦ do
      guid ← parse_text env jstr (codes "default") 128 true
      some (elim guid [ none ↦ l | some g ↦ default_to l g ])
  ]

-- `cbccd_config_mgr_init` of a context that was cleared.
abbrev empty_list : OuList
empty_list = record { count = 0; default_ou_info = none; ou_infos = [] }

unfoldable pub cbccd_config_mgr_init : ConfigEnv → Option ConfigMgr
cbccd_config_mgr_init env = do
  l ← read_ou_list env empty_list
  with_default ← read_default_ou env l
  read_config_objects env (record { ou_list = with_default; next_addr = 0 })

-- `cbccd_config_mgr_finalize` of a manager that was initialised.
unfoldable pub free_ou_list : OuList → OuList
free_ou_list l = if l.count == 0 then l else record l { count = 0; ou_infos = [] }

unfoldable pub cbccd_config_mgr_finalize : ConfigMgr → ConfigMgr
cbccd_config_mgr_finalize m = record m { ou_list = free_ou_list m.ou_list }
