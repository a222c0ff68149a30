-- ===== src/Examples/Edits.antt =====
-- A run of a request that edits a row, and of one that gets it.
use chroot_cbccd.Base.{
  ◌≡◌, ◌⊎◌, inl, inr, refl, Bool, Bool-cases, true, false, Option, none, some, List, [], ◌∷◌, map,
  arith, if◌then◌else◌, Text, codes, str_eq, str_eq_iff, take,
}
use chroot_cbccd.Json.Tree.{Members, string_node, object_node, no_members, member, lookup}
use chroot_cbccd.Json.Search.{cbcc_get_jobj_by_key, find_in}
use chroot_cbccd.Json.Parse.{
  Item, str_val, cbcc_json_parse_from_buffer, parse_root, cbcc_jobj_parse, parse_one, find_value,
  check_obj_validation, read_value,
}
use chroot_cbccd.Cache.{TblInfo, find_row}
use chroot_cbccd.Cache.Names.{tbl_names, max_tbl_num, cbccd_pgsql_get_tbl_idx, index_from}
use chroot_cbccd.Cache.Database.{AllValid, lookup_db, rows_of, names_of}
use chroot_cbccd.Cache.Lookup.{data_of}
use chroot_cbccd.Device.{ok, db_oper_failed}
use chroot_cbccd.Store.{Db}
use chroot_cbccd.Wapi.{WapiEnv, Daemon, WapiRequest, Reply, parse_data, text_at}
use chroot_cbccd.Wapi.ActType.{edit_act, get_act}
use chroot_cbccd.Wapi.Tables.{guid_requests, edit_requests}
use chroot_cbccd.Wapi.Dispatch.{process_act}
use chroot_cbccd.Wapi.Edited.{Cached, edit_req-get_req}
use chroot_cbccd.Examples.Texts.{object_text, reading}
use chroot_cbccd.Examples.Configs.{demo_ssl}
use chroot_cbccd.Examples.Devices.{demo_env, demo_mgr, demo_device}
use chroot_cbccd.Examples.Stores.{ou, g1, one_row, held, one_row-Serves, short-Fits, g1_known}

abbrev old_row : Text
old_row = codes "old"

-- The tables of the database: just the one of the OUs has a row.
abbrev ou_row_of : Bool → Text → TblInfo
ou_row_of true name = record {
  tbl_name = name;
  rows_count = 1;
  rows = record { guid = g1; row_data = old_row; changelog_type = []; rev = 0 } ∷ [];
  total_rev = 0;
}
ou_row_of false name = record { tbl_name = name; rows_count = 0; rows = []; total_rev = 0 }

abbrev table_of : Text → TblInfo
table_of name = ou_row_of (str_eq ou name) name

abbrev ou_db : Db (Option Text)
ou_db = record {
  server = some old_row;
  tbl_infos = map table_of (take max_tbl_num tbl_names);
  changelog_info = ou_row_of false [];
}

ou_row_of-name : (b : Bool) (name : Text) → (ou_row_of b name).tbl_name ≡ name
ou_row_of-name true name = refl
ou_row_of-name false name = refl

names_back : (names : List Text) → names_of (map table_of names) ≡ names
names_back [] = refl
names_back (n ∷ ns) = rw (ou_row_of-name (str_eq ou n) n, names_back ns) refl

all_valid : (names : List Text) → AllValid (map table_of names)
unfolding find_row
all_valid [] = tt
all_valid (n ∷ ns) = elim (Bool-cases (str_eq ou n)) [
  | inl y ↦ rw y (record { counted = refl; distinct = (refl, tt) }, all_valid ns)
  | inr z ↦ rw z (record { counted = refl; distinct = tt }, all_valid ns)
]

-- A name that is not that of the OUs has no rows.
others_empty :
    (names : List Text) (n g : Text)
    → str_eq ou n ≡ false
    → lookup_db (map table_of names) n g ≡ none
unfolding lookup_db rows_of find_row
others_empty [] n g h = refl
others_empty (m ∷ ms) n g h = elim (Bool-cases (str_eq ou m)) [
  | inl y ↦
      let other : str_eq n m ≡ false = rw ((str_eq_iff ou m).0 y) at (differs n h) in
      rw (y, other) (others_empty ms n g h)
  | inr z ↦ rw z (skip (str_eq n m) (others_empty ms n g h))
]
  where
    differs : (k : Text) → str_eq ou k ≡ false → str_eq k ou ≡ false
    differs k e = ground (arith, str_eq_iff ou k, str_eq_iff k ou)

    skip :
        (b : Bool)
        → lookup_db (map table_of ms) n g ≡ none
        → data_of (find_row (if b then [] else rows_of (map table_of ms) n) g) ≡ none
    skip true e = refl
    skip false e = e

ou_row : (g : Text) → lookup_db ou_db.tbl_infos ou g ≡ (if str_eq g1 g then some old_row else none)
unfolding lookup_db rows_of find_row tbl_names str_eq
ou_row g = ground arith

ou_db-Cached : Cached held ou_db
ou_db-Cached = record {
  named = names_back (take max_tbl_num tbl_names);
  valid = all_valid (take max_tbl_num tbl_names);
  mirrors = λ n g h. elim (Bool-cases (str_eq ou n)) [
    | inl y ↦ rw (y, ← (str_eq_iff ou n).0 y) (ou_row g)
    | inr z ↦ rw z (others_empty (take max_tbl_num tbl_names) n g z)
  ];
}

abbrev editing : Members
editing =
    member (codes "guid") (string_node g1)
      (member (codes "data") (object_node no_members) no_members)

abbrev ou_wapi : WapiEnv (Option Text)
ou_wapi = record {
  admin = record {
    exec = one_row;
    lib = reading editing;
    ssl = demo_ssl;
    sends = λ sock cmd. true;
    opens_in = true;
    opens_out = true;
    random = 7;
    uninit_int = 0;
    local_day = λ t. (0, 0);
    dev = demo_env;
  };
  depth = 5;
  uninit_texts = [];
}

abbrev ou_daemon : Daemon (Option Text)
ou_daemon = record {
  world = record { db = ou_db; devs = demo_mgr; files = λ path. none; events = [] };
  conf = record {
    ou_list = record { count = 0; default_ou_info = none; ou_infos = [] };
    next_addr = 1;
  };
}

abbrev edit_ou : WapiRequest
edit_ou = record { action = codes "edit"; type = ou; content = some object_text }

abbrev edit_items : List (Option Item)
edit_items = some (str_val g1) ∷ some (str_val object_text) ∷ []

edit_parses : parse_data ou_wapi ou_daemon (some object_text) edit_requests ≡ some (some edit_items)
unfolding parse_data cbcc_json_parse_from_buffer parse_root cbcc_jobj_parse parse_one find_value
    cbcc_get_jobj_by_key find_in lookup check_obj_validation read_value str_eq
edit_parses = refl

ou_known : cbccd_pgsql_get_tbl_idx ou ≡ some 73
unfolding cbccd_pgsql_get_tbl_idx index_from tbl_names str_eq
ou_known = refl

row_there : held (some old_row) ou g1 ≡ some old_row
unfolding str_eq
row_there = refl

edit_req-get_req_example :
    (r : Reply (Option Text)) × (process_act ou_wapi ou_daemon edit_act edit_ou ≡ some r)
    × ((r.code ≡ ok) ⊎ (r.code ≡ db_oper_failed))
    × Cached held r.daemon.world.db
    × (r.code ≡ ok
        → (later : WapiRequest) (js : List (Option Item)) → later.type ≡ ou
        → parse_data ou_wapi r.daemon later.content guid_requests ≡ some (some js)
        → text_at ou_wapi r.daemon js 0 ≡ g1
        → process_act ou_wapi r.daemon get_act later
          ≡ some (record { code = ok; resp_data = some object_text; daemon = r.daemon }))
edit_req-get_req_example =
    edit_req-get_req ou_wapi ou_daemon held edit_ou 73 edit_items (demo_device g1 5 90) old_row
      ou_known edit_parses ou_db-Cached one_row-Serves short-Fits g1_known row_there
