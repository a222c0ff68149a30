-- ===== src/Json/Parse.antt =====
-- Reading: check_obj_validation, cbcc_jobj_parse, cbcc_json_set_arr_data, the pairs, and
-- cbcc_json_parse_from_buffer. What was written before a -1 is not kept in view.
use chroot_cbccd.Base.{
  ℕ, Bool, true, false, Option, none, some, List, [], ◌∷◌, map, ◌>>=◌, length, take, ltb,
  if◌then◌else◌, Text, snprintf, c_string,
}
use chroot_cbccd.Json.Tree.{
  Node, Nodes, Members, null_node, boolean_node, int_node, string_node, array_node, object_node,
  no_nodes, node, no_members, member, JsonC,
}
use chroot_cbccd.Json.Search.{cbcc_get_jobj_by_key}

-- enum CBCC_JSON_DATA_TYPE
pub data DataType : Type 0 where
  object_type string_type int_type str_array_type int_array_type obj_array_type : DataType
  string_big_type object_big_type boolean_type obj_pairs_type : DataType

-- `check_obj_validation`
unfoldable pub check_obj_validation : DataType → Node → Bool
check_obj_validation string_type (string_node t) = true
check_obj_validation string_big_type (string_node t) = true
check_obj_validation int_type (int_node i) = true
check_obj_validation boolean_type (boolean_node b) = true
check_obj_validation str_array_type (array_node ns) = true
check_obj_validation int_array_type (array_node ns) = true
check_obj_validation obj_array_type (array_node ns) = true
check_obj_validation object_type (object_node ms) = true
check_obj_validation object_big_type (object_node ms) = true
check_obj_validation obj_pairs_type (object_node ms) = true
check_obj_validation type n = false

-- struct cbcc_json_object, where it asks for a value.
pub record Request : Type 0 where
  pub key : Text
  pub parent_key : Option Text
  pub data_size : ℕ
  pub must_specify : Bool
  pub is_root : Bool
  pub type : DataType

-- What is written through the pointer of a request. A pair list is appended to.
pub data Item : Type 0 where
  str_val : Text → Item
  str_val_big : Text → Item
  int_val : ℕ → Item
  bool_val : Bool → Item
  str_vals : List Text → Item
  int_vals : List ℕ → Item
  pairs : List (Text × Text) → Item

-- The elements of an array, in order.
unfoldable pub elements : Nodes → List Node
elements no_nodes = []
elements (node n ns) = n ∷ elements ns

-- CBCC_MAX_JSON_ARR_SIZE, CBCC_MAX_JSON_ARR_FIELD_LEN, CBCC_MAX_JSON_KEY_LEN and
-- CBCC_MAX_JSON_DATA_LEN
abbrev pub max_json_arr_size : ℕ
max_json_arr_size = 256

abbrev pub max_json_arr_field_len : ℕ
max_json_arr_field_len = 4096

abbrev pub max_json_key_len : ℕ
max_json_key_len = 128

abbrev pub max_json_data_len : ℕ
max_json_data_len = 4096

-- `cbcc_json_set_arr_data` with `is_str`, and without.
unfoldable pub set_str_vals : JsonC → Nodes → List Text
set_str_vals lib ns =
    map (λ n. snprintf max_json_arr_field_len (lib.get_string n))
      (take max_json_arr_size (elements ns))

unfoldable pub set_int_vals : JsonC → Nodes → List ℕ
set_int_vals lib ns = map lib.get_int (take max_json_arr_size (elements ns))

-- `cbcc_json_set_pairs`, which copies without looking at the sizes, or at a NULL.
unfoldable pub cbcc_json_set_pairs : JsonC → Members → Option (List (Text × Text))
cbcc_json_set_pairs lib no_members = some []
cbcc_json_set_pairs lib (member k null_node rest) = none
cbcc_json_set_pairs lib (member k n rest) =
    let later = cbcc_json_set_pairs lib rest in
    if ltb (length k) max_json_key_len
    then if ltb (length (lib.get_string n)) max_json_data_len
      then (later >>= λ ps. some ((k, lib.get_string n) ∷ ps))
      else none
    else none

-- A text that is not empty is copied to new memory.
abbrev pub copy_big : Text → Option Item
copy_big [] = none
copy_big (c ∷ cs) = some (str_val_big (c ∷ cs))

abbrev pub members_of : Node → Members
members_of (object_node ms) = ms
members_of n = no_members

abbrev pub nodes_of : Node → Nodes
nodes_of (array_node ns) = ns
nodes_of n = no_nodes

-- The switch over the type of a request, for a value that was checked, with `size` bytes for a
-- text.
unfoldable pub read_value : JsonC → DataType → ℕ → Node → Option (Option Item)
read_value lib object_type size n = some (some (str_val (snprintf size (lib.get_string n))))
read_value lib string_type size n = some (some (str_val (snprintf size (lib.get_string n))))
read_value lib string_big_type size n = some (copy_big (lib.get_string n))
read_value lib object_big_type size n = some (copy_big (lib.get_string n))
read_value lib int_type size n = some (some (int_val (lib.get_int n)))
read_value lib boolean_type size n = some (some (bool_val (lib.get_boolean n)))
read_value lib str_array_type size n = some (some (str_vals (set_str_vals lib (nodes_of n))))
read_value lib obj_array_type size n = some (some (str_vals (set_str_vals lib (nodes_of n))))
read_value lib int_array_type size n = some (some (int_vals (set_int_vals lib (nodes_of n))))
read_value lib obj_pairs_type size n =
    cbcc_json_set_pairs lib (members_of n) >>= λ ps. some (some (pairs ps))

-- The search in a parent, which must be an object.
abbrev pub search_in : JsonC → Text → Node → Option (Option Node)
search_in lib key (object_node ms) = some (cbcc_get_jobj_by_key lib ms key)
search_in lib key n = none

-- Where a request finds its value: `none` in the result is NULL.
unfoldable pub find_value : JsonC → Members → Request → Option (Option Node)
find_value lib root r = elim r.parent_key [
  | none ↦ some (if r.is_root then some (object_node root) else cbcc_get_jobj_by_key lib root r.key)
  | some parent ↦ elim (cbcc_get_jobj_by_key lib root parent) [
    | none ↦ some none
    | some p ↦ if r.is_root then some (some (object_node root)) else search_in lib r.key p
  ]
]

-- What one turn of the loop makes: -1, or what was written.
pub data Turn : Type 0 where
  stopped : Turn
  wrote : Option Item → Turn

abbrev pub as_turn : Option Item → Option Turn
as_turn i = some (wrote i)

unfoldable pub parse_one : JsonC → Members → Request → Option Turn
parse_one lib root r = do
  found ← find_value lib root r
  elim found [
    | none ↦ some (if r.must_specify then stopped else wrote none)
    | some n ↦
        if check_obj_validation r.type n
        then read_value lib r.type r.data_size n >>= as_turn
        else some (wrote none)
  ]

-- `cbcc_jobj_parse`: for each request what it received, or -1.
unfoldable pub cbcc_jobj_parse :
    JsonC → Members → List Request → Option (Option (List (Option Item)))
cbcc_jobj_parse lib root [] = some (some [])
cbcc_jobj_parse lib root (r ∷ rs) = do
  turn ← parse_one lib root r
  elim turn [
    | stopped ↦ some none
    | wrote i ↦ cbcc_jobj_parse lib root rs >>= λ rest.
        some (elim rest [ none ↦ none | some items ↦ some (i ∷ items) ])
  ]

-- The root of a text that was parsed must be an object.
abbrev pub with_root {ℓ} : {A : Type ℓ} → Node → (Members → Option A) → Option A
with_root (object_node ms) f = f ms
with_root n f = none

-- The call for a root that was parsed; `none` is NULL, and -1 is `some none`.
unfoldable pub parse_root :
    JsonC → Option Node → List Request → Option (Option (List (Option Item)))
parse_root lib none rs = some none
parse_root lib (some n) rs = with_root n (λ ms. cbcc_jobj_parse lib ms rs)

unfoldable pub cbcc_json_parse_from_buffer :
    JsonC → Text → List Request → Option (Option (List (Option Item)))
cbcc_json_parse_from_buffer lib buffer rs = parse_root lib (lib.tokener_parse buffer) rs

-- The file system is `files`: the bytes of a file that is there and not empty.
unfoldable pub cbcc_jobj_new_from_file : JsonC → (Text → Option (List ℕ)) → Text → Option Node
cbcc_jobj_new_from_file lib files path = do bytes ← files path; lib.tokener_parse (c_string bytes)

unfoldable pub cbcc_json_parse_from_file :
    JsonC → (Text → Option (List ℕ)) → Text → List Request → Option (Option (List (Option Item)))
cbcc_json_parse_from_file lib files path rs =
    parse_root lib (cbcc_jobj_new_from_file lib files path) rs

-- `cbcc_json_read_from_file`: the text, as json-c prints it; `none` is -1.
unfoldable pub cbcc_json_read_from_file : JsonC → (Text → Option (List ℕ)) → Text → Option Text
cbcc_json_read_from_file lib files path = do
  bytes ← files path
  n ← lib.tokener_parse (c_string bytes)
  some (lib.get_string n)
