-- ===== src/Monitor/Stored.antt =====
-- What a monitoring command stores, and what removing the data of a device removes.
use chroot_cbccd.Base.{
  ℕ, ◌≡◌, refl, ap, Bool, true, false, Option, none, some, List, [], ◌∷◌, ◌++◌, map, arith, ◌⊎◌,
  Option-cases, inl, inr, if◌then◌else◌, Bool-cases, Text, str_eq, snprintf, take,
}
use chroot_cbccd.Json.Found.{Occurs, get_jobj_by_key-Occurs}
use chroot_cbccd.Json.Tree.{
  JsonC, IsLawful, Node, Members, null_node, boolean_node, double_node, int_node, string_node,
  array_node, object_node,
}
use chroot_cbccd.Json.Search.{cbcc_get_jobj_by_key}
use chroot_cbccd.Json.Parse.{
  check_obj_validation, object_type, parse_root, find_value, parse_one, read_value, cbcc_jobj_parse,
  cbcc_json_parse_from_buffer,
}
use chroot_cbccd.ObjectNames.{get_tblname_by_objname}
use chroot_cbccd.Cache.{TblInfo, remove_db_cache}
use chroot_cbccd.Cache.Names.{tbl_names, max_tbl_num}
use chroot_cbccd.Cache.Database.{names_of}
use chroot_cbccd.Device.{
  DeviceInfo, DeviceMgr, ok, Call, set_guid_tbl_data, rm_guid_tbl_data,
  cbccd_device_get_info_by_sock,
}
use chroot_cbccd.Monitor.{
  device_monitor_objs, get_monitor_obj_data, set_monitor_obj_data, set_objs, cbccd_mon_set_data,
  cbccd_mon_remove_data,
}

-- The call for one name: none without a member, the text of an object, and what the array happened
-- to hold for a member of another type.
abbrev pub stored : JsonC → Text → Text → Text → Option Node → List Call
stored lib uninit guid name none = []
stored lib uninit guid name (some n) =
    set_guid_tbl_data (get_tblname_by_objname name 128) guid
      (if check_obj_validation object_type n then snprintf 4096 (lib.get_string n) else uninit)
    ∷ []

abbrev pub stored_all : JsonC → Text → Text → Members → List Text → List Call
stored_all lib uninit guid ms [] = []
stored_all lib uninit guid ms (name ∷ names) =
    stored lib uninit guid name (cbcc_get_jobj_by_key lib ms name)
    ++ stored_all lib uninit guid ms names

module _ (lib : JsonC) (uninit guid cmd_data : Text) (ms : Members)
    (reads : lib.tokener_parse cmd_data ≡ some (object_node ms)) where
  get_one :
      (name : Text) (o : Option Node)
      → cbcc_get_jobj_by_key lib ms name ≡ o
      → (t : Option Text) × (get_monitor_obj_data lib uninit cmd_data name ≡ some t)
        × (elim t [ none ↦ [] | some c ↦ set_monitor_obj_data name guid c ∷ [] ]
            ≡ stored lib uninit guid name o)
  unfolding get_monitor_obj_data cbcc_json_parse_from_buffer parse_root cbcc_jobj_parse parse_one
      find_value read_value set_monitor_obj_data
  get_one name none e = (none, rw (reads, e) refl, refl)
  get_one name (some n) e = elim (Bool-cases (check_obj_validation object_type n)) [
    | inl y ↦ (some (snprintf 4096 (lib.get_string n)), rw (reads, e, y) refl, rw y refl)
    | inr y ↦ (some uninit, rw (reads, e, y) refl, rw y refl)
  ]

  set_all :
      (names : List Text)
      → set_objs lib uninit guid cmd_data names ≡ some (stored_all lib uninit guid ms names)
  unfolding set_objs
  set_all [] = refl
  set_all (name ∷ names) =
      let (t, e, f) = get_one name (cbcc_get_jobj_by_key lib ms name) refl in
      rw (e, set_all names) (ap some (join t f))
    where
      join :
          (t : Option Text)
          → elim t [ none ↦ [] | some c ↦ set_monitor_obj_data name guid c ∷ [] ]
            ≡ stored lib uninit guid name (cbcc_get_jobj_by_key lib ms name)
          → elim t [
            | none ↦ stored_all lib uninit guid ms names
            | some c ↦ set_monitor_obj_data name guid c ∷ stored_all lib uninit guid ms names
          ]
            ≡ stored_all lib uninit guid ms (name ∷ names)
      join none f = ap (λ (c : List Call). c ++ stored_all lib uninit guid ms names) f
      join (some c) f = ap (λ (c : List Call). c ++ stored_all lib uninit guid ms names) f

mon_set_data-all :
    (lib : JsonC) (uninit : Text) (devs : DeviceMgr) (sock : Option ℕ) (cmd_data : Text)
    (d : DeviceInfo) (ms : Members)
    → cbccd_device_get_info_by_sock devs sock ≡ some d
    → d.is_logined ≡ true
    → lib.tokener_parse cmd_data ≡ some (object_node ms)
    → cbccd_mon_set_data lib uninit devs sock cmd_data
      ≡ some (ok, stored_all lib uninit d.guid ms device_monitor_objs)
unfolding cbccd_mon_set_data
mon_set_data-all lib uninit devs sock cmd_data d ms e l reads =
    rw (e, cbccd_mon_set_data, l, set_all lib uninit d.guid cmd_data ms reads device_monitor_objs)
      refl

-- What is stored for a member: the text of an object, cut to the array, and else what the array
-- happened to hold.
abbrev pub content_of : JsonC → Text → Node → Text
content_of lib uninit (object_node sub) = snprintf 4096 (lib.get_string (object_node sub))
content_of lib uninit n = uninit

-- The calls for one name: none exactly if it has no member that is not null, in the object or in
-- objects nested in it through members, and else one, for such a member.
abbrev pub StoresOne : JsonC → Text → Text → Members → Text → List Call → Type 0
StoresOne lib uninit guid ms name calls =
    (((v : Node) → ¬ Occurs name v ms) × (calls ≡ []))
    ⊎ ((v : Node) × Occurs name v ms
        × (calls
            ≡ set_guid_tbl_data (get_tblname_by_objname name 128) guid (content_of lib uninit v)
              ∷ []))

-- The calls for the names, one name after another.
abbrev pub StoresAll : JsonC → Text → Text → Members → List Text → List Call → Type 0
StoresAll lib uninit guid ms [] calls = calls ≡ []
StoresAll lib uninit guid ms (name ∷ names) calls =
    (own : List Call) × (rest : List Call) × (calls ≡ own ++ rest)
    × StoresOne lib uninit guid ms name own
    × StoresAll lib uninit guid ms names rest

module _ (lib : JsonC) (uninit guid : Text) (ms : Members) (l : IsLawful lib) where
  stored_content :
      (name : Text) (v : Node)
      → stored lib uninit guid name (some v)
        ≡ set_guid_tbl_data (get_tblname_by_objname name 128) guid (content_of lib uninit v) ∷ []
  unfolding check_obj_validation
  stored_content name null_node = refl
  stored_content name (boolean_node b) = refl
  stored_content name (double_node b) = refl
  stored_content name (int_node b) = refl
  stored_content name (string_node b) = refl
  stored_content name (array_node b) = refl
  stored_content name (object_node b) = refl

  stored-StoresOne :
      (name : Text)
      → StoresOne lib uninit guid ms name
          (stored lib uninit guid name (cbcc_get_jobj_by_key lib ms name))
  stored-StoresOne name =
      let (found, missing) = get_jobj_by_key-Occurs lib ms name l in
      elim (Option-cases (cbcc_get_jobj_by_key lib ms name)) [
        | inl e ↦ inl (λ v. missing v e, rw e refl)
        | inr (v, e) ↦ inr (v, found v e, rw e (stored_content name v))
      ]

  stored_all-StoresAll :
      (names : List Text) → StoresAll lib uninit guid ms names (stored_all lib uninit guid ms names)
  stored_all-StoresAll [] = refl
  stored_all-StoresAll (name ∷ names) =
      (_, _, refl, stored-StoresOne name, stored_all-StoresAll names)

-- Monitoring data that reads as an object, from a socket with a device that is logged in: it is
-- defined and OK. For each name of the list, in order: where no member under the name that is not
-- null stands in the object, or in objects nested in it through members, not through arrays, nothing
-- is stored; else the text of such a member is stored, once, under the device's guid, or what an
-- unwritten array holds if the member is no object.
pub cbccd_mon_set_data_lem :
    (lib : JsonC) (uninit : Text) (devs : DeviceMgr) (sock : Option ℕ) (cmd_data : Text)
    (d : DeviceInfo) (ms : Members)
    → IsLawful lib
    → cbccd_device_get_info_by_sock devs sock ≡ some d
    → d.is_logined ≡ true
    → lib.tokener_parse cmd_data ≡ some (object_node ms)
    → (calls : List Call) × (cbccd_mon_set_data lib uninit devs sock cmd_data ≡ some (ok, calls))
      × StoresAll lib uninit d.guid ms device_monitor_objs calls
cbccd_mon_set_data_lem lib uninit devs sock cmd_data d ms l e on reads = (
  stored_all lib uninit d.guid ms device_monitor_objs,
  mon_set_data-all lib uninit devs sock cmd_data d ms e on reads,
  stored_all-StoresAll lib uninit d.guid ms l device_monitor_objs,
)

-- The cached tables after the removals among some calls.
unfoldable pub after_calls : List TblInfo → List Call → List TblInfo
after_calls ts [] = ts
after_calls ts (rm_guid_tbl_data name guid ∷ calls) =
    after_calls (remove_db_cache ts name guid) calls
after_calls ts (call ∷ calls) = after_calls ts calls

is_table : Text → List Text → Bool
is_table name [] = false
is_table name (n ∷ ns) = if str_eq n name then true else is_table name ns

remove_missing :
    (ts : List TblInfo) (name guid : Text)
    → is_table name (names_of ts) ≡ false
    → remove_db_cache ts name guid ≡ ts
unfolding remove_db_cache is_table
remove_missing [] name guid e = refl
remove_missing (t ∷ ts) name guid e = ground (arith, e, remove_missing ts name guid)

AllMissing : List Text → List Text → Type 0
AllMissing [] ns = Unit {0}
AllMissing (name ∷ names) ns = (is_table name ns ≡ false) × AllMissing names ns

remove_AllMissing :
    (names : List Text) (ts : List TblInfo) (guid : Text)
    → AllMissing names (names_of ts)
    → after_calls ts (map (λ name. rm_guid_tbl_data name guid) names) ≡ ts
unfolding after_calls AllMissing
remove_AllMissing [] ts guid h = refl
remove_AllMissing (name ∷ names) ts guid h =
    rw (after_calls, remove_missing ts name guid h.0) (remove_AllMissing names ts guid h.1)

objs_missing : AllMissing device_monitor_objs (take max_tbl_num tbl_names)
unfolding AllMissing is_table str_eq tbl_names
objs_missing = (refl, (refl, (refl, (refl, (refl, (refl, (refl, (refl, (refl, (refl, tt))))))))))

-- Where the cached tables are named by the array, cbccd_mon_remove_data removes nothing: none of
-- the names that it takes for tables is one.
cbccd_mon_remove_data-keeps :
    (ts : List TblInfo) (guid : Text)
    → names_of ts ≡ take max_tbl_num tbl_names
    → after_calls ts (cbccd_mon_remove_data guid) ≡ ts
unfolding cbccd_mon_remove_data
cbccd_mon_remove_data-keeps ts guid e =
    remove_AllMissing device_monitor_objs ts guid (rw e objs_missing)
