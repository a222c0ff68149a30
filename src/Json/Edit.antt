-- ===== src/Json/Edit.antt =====
-- Writing: cbcc_json_build, cbcc_json_update, cbcc_json_add and cbcc_json_remove.
use chroot_cbccd.Base.{
  ℕ, Bool, true, false, Option, none, some, List, [], ◌∷◌, ◌>>=◌, if◌then◌else◌, Text, snprintf,
}
use chroot_cbccd.Json.Tree.{
  Node, Nodes, Members, boolean_node, int_node, string_node, array_node, object_node, no_nodes,
  no_members, JsonC, present,
}
use chroot_cbccd.Json.Search.{cbcc_get_jobj_by_key, change_by_key, is_found}
use chroot_cbccd.Json.Parse.{
  DataType, object_type, string_type, int_type, str_array_type, int_array_type, obj_array_type,
  boolean_type, check_obj_validation, with_root,
}

-- The type of an object that is given, with the member of the union that it selects. A string
-- may be NULL; so may an array of objects.
pub data Given : Type 0 where
  new_object : Given
  object_text : Text → Given
  string_given : Option Text → Given
  int_given : ℕ → Given
  boolean_given : Bool → Given
  str_array_given : List Text → Given
  int_array_given : List ℕ → Given
  obj_array_given : Option (List Text) → Given

abbrev pub type_of : Given → DataType
type_of new_object = object_type
type_of (object_text t) = object_type
type_of (string_given t) = string_type
type_of (int_given i) = int_type
type_of (boolean_given b) = boolean_type
type_of (str_array_given ts) = str_array_type
type_of (int_array_given is) = int_array_type
type_of (obj_array_given ts) = obj_array_type

-- struct cbcc_json_object, where it gives a value.
pub record Jobj : Type 0 where
  pub key : Text
  pub parent_key : Option Text
  pub value : Given

-- Something done to the parent, or to the root without one; the flag says whether its argument is
-- one json-c can take. A parent that is not found is passed over; members can be put into objects
-- only.
unfoldable pub in_parent :
    JsonC → Members → Option Text → Bool → (Members → Members) → Option Members
in_parent lib root none ok f = if ok then some (f root) else none
in_parent lib root (some parent) ok f = elim (cbcc_get_jobj_by_key lib root parent) [
  | none ↦ some root
  | some n ↦ if ok then with_root n (λ ms. some (change_by_key lib root parent f)) else none
]

unfoldable pub str_nodes : JsonC → Nodes → List Text → Nodes
str_nodes lib ns [] = ns
str_nodes lib ns (t ∷ ts) = str_nodes lib (lib.array_add ns (string_node t)) ts

unfoldable pub int_nodes : JsonC → Nodes → List ℕ → Nodes
int_nodes lib ns [] = ns
int_nodes lib ns (i ∷ is) = int_nodes lib (lib.array_add ns (int_node i)) is

-- A text that cannot be parsed is passed over.
abbrev pub add_parsed : JsonC → Nodes → Option Node → Nodes
add_parsed lib ns none = ns
add_parsed lib ns (some n) = lib.array_add ns n

unfoldable pub obj_nodes : JsonC → Nodes → List Text → Nodes
obj_nodes lib ns [] = ns
obj_nodes lib ns (t ∷ ts) = obj_nodes lib (add_parsed lib ns (lib.tokener_parse t)) ts

abbrev pub or_empty : Option Text → Text
or_empty none = []
or_empty (some t) = t

abbrev pub texts_of : Option (List Text) → List Text
texts_of none = []
texts_of (some ts) = ts

-- The value that `cbcc_json_build` makes of what is given; `none` if its text cannot be parsed.
unfoldable pub build_value : JsonC → Given → Option Node
build_value lib new_object = some (object_node no_members)
build_value lib (object_text t) = lib.tokener_parse t
build_value lib (string_given t) = some (string_node (or_empty t))
build_value lib (int_given i) = some (int_node i)
build_value lib (boolean_given b) = some (boolean_node b)
build_value lib (str_array_given ts) = some (array_node (str_nodes lib no_nodes ts))
build_value lib (int_array_given is) = some (array_node (int_nodes lib no_nodes is))
build_value lib (obj_array_given ts) = some (array_node (obj_nodes lib no_nodes (texts_of ts)))

-- The loop of `cbcc_json_build`.
unfoldable pub build_one : JsonC → Members → Jobj → Option Members
build_one lib root o = elim (build_value lib o.value) [
  | none ↦ some root
  | some n ↦ in_parent lib root o.parent_key true (λ ms. lib.object_add ms o.key n)
]

unfoldable pub build_members : JsonC → Members → List Jobj → Option Members
build_members lib root [] = some root
build_members lib root (o ∷ os) = do next ← build_one lib root o; build_members lib next os

unfoldable pub cbcc_json_build : JsonC → List Jobj → Option Text
cbcc_json_build lib os = do
  root ← build_members lib no_members os
  some (lib.get_string (object_node root))

-- json_object_new_string takes no NULL.
abbrev pub has_string : Given → Bool
has_string (string_given none) = false
has_string given = true

-- What `cbcc_jobj_update` puts in the place of the member that it has deleted: only strings and
-- integers.
unfoldable pub update_value : JsonC → Text → Given → Members → Members
update_value lib key (string_given t) ms = lib.object_add ms key (string_node (or_empty t))
update_value lib key (int_given i) ms = lib.object_add ms key (int_node i)
update_value lib key given ms = ms

abbrev pub replace_member : JsonC → Jobj → Members → Members
replace_member lib o ms = update_value lib o.key o.value (lib.object_del ms o.key)

-- The key is looked for from the root, the member is replaced in the parent.
unfoldable pub update_one : JsonC → Members → Jobj → Option Members
update_one lib root o = elim (cbcc_get_jobj_by_key lib root o.key) [
  | none ↦ some root
  | some n ↦
      if check_obj_validation (type_of o.value) n
      then in_parent lib root o.parent_key (has_string o.value) (replace_member lib o)
      else some root
]

unfoldable pub update_members : JsonC → Members → List Jobj → Option Members
update_members lib root [] = some root
update_members lib root (o ∷ os) = do next ← update_one lib root o; update_members lib next os

-- A call that parses a text, edits its object and prints it: -1 is `some none`.
abbrev pub edit_text : JsonC → Text → (Members → Option Members) → Option (Option Text)
edit_text lib buffer edit = elim (lib.tokener_parse buffer) [
  | none ↦ some none
  | some n ↦
      with_root n
        (λ root. edit root >>= λ edited. some (some (lib.get_string (object_node edited))))
]

-- `cbcc_json_update` into an array of `s` bytes.
unfoldable pub cbcc_json_update : JsonC → Text → List Jobj → ℕ → Option (Option Text)
cbcc_json_update lib buffer os s = do
  printed ← edit_text lib buffer (λ root. update_members lib root os)
  some (elim printed [ none ↦ none | some t ↦ some (snprintf s t) ])

-- What `cbcc_jobj_add` puts under a key, once it is free.
unfoldable pub add_given : JsonC → Text → Given → Members → Members
add_given lib key new_object ms = lib.object_add ms key (object_node no_members)
add_given lib key (object_text t) ms = lib.object_add ms key (object_node no_members)
add_given lib key (string_given t) ms = lib.object_add ms key (string_node (or_empty t))
add_given lib key (int_given i) ms = lib.object_add ms key (int_node i)
add_given lib key (boolean_given b) ms = lib.object_add ms key (boolean_node b)
add_given lib key given ms = ms

-- The member is deleted if `json_object_object_get` gives no NULL.
abbrev pub delete_found : JsonC → Text → Members → Members
delete_found lib key ms =
    if is_found (present (lib.object_get ms key)) then lib.object_del ms key else ms

abbrev pub add_member : JsonC → Jobj → Members → Members
add_member lib o ms = add_given lib o.key o.value (delete_found lib o.key ms)

unfoldable pub add_members : JsonC → Members → List Jobj → Option Members
add_members lib root [] = some root
add_members lib root (o ∷ os) = do
  next ← in_parent lib root o.parent_key (has_string o.value) (add_member lib o)
  add_members lib next os

unfoldable pub cbcc_json_add : JsonC → Text → List Jobj → Option (Option Text)
cbcc_json_add lib buffer os = edit_text lib buffer (λ root. add_members lib root os)

unfoldable pub remove_members : JsonC → Members → List Jobj → Option Members
remove_members lib root [] = some root
remove_members lib root (o ∷ os) = do
  next ← in_parent lib root o.parent_key true (delete_found lib o.key)
  remove_members lib next os

unfoldable pub cbcc_json_remove : JsonC → Text → List Jobj → Option (Option Text)
cbcc_json_remove lib buffer os = edit_text lib buffer (λ root. remove_members lib root os)
