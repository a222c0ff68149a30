-- ===== src/Json/Search.antt =====
-- cbcc_get_jobj_by_key, and writing through the pointer that it returns.
use chroot_cbccd.Base.{Bool, true, false, Option, none, some, if◌then◌else◌, Text, str_eq}
use chroot_cbccd.Json.Tree.{
  Node, Members, null_node, boolean_node, double_node, int_node, string_node, array_node,
  object_node, no_members, member, JsonC, present,
}

abbrev pub or_else : Option Node → Option Node → Option Node
or_else none later = later
or_else (some n) later = some n

-- The loop over the members, which descends into objects: at each, the object's own member first.
unfoldable mutual
  pub find_in : JsonC → Text → Members → Option Node
  find_in lib key no_members = none
  find_in lib key (member k n rest) =
      or_else (find_at lib key (str_eq key k) n) (find_in lib key rest)

  -- One member; the flag says that it has the key.
  pub find_at : JsonC → Text → Bool → Node → Option Node
  find_at lib key named null_node = none
  find_at lib key named (boolean_node b) = if named then some (boolean_node b) else none
  find_at lib key named (double_node t) = if named then some (double_node t) else none
  find_at lib key named (int_node i) = if named then some (int_node i) else none
  find_at lib key named (string_node t) = if named then some (string_node t) else none
  find_at lib key named (array_node ns) = if named then some (array_node ns) else none
  find_at lib key named (object_node sub) =
      if named
      then some (object_node sub)
      else or_else (present (lib.object_get sub key)) (find_in lib key sub)

-- `cbcc_get_jobj_by_key` of an object.
unfoldable pub cbcc_get_jobj_by_key : JsonC → Members → Text → Option Node
cbcc_get_jobj_by_key lib ms key = or_else (present (lib.object_get ms key)) (find_in lib key ms)

abbrev pub is_found : Option Node → Bool
is_found none = false
is_found (some n) = true

-- What is done to an object that a pointer points to.
abbrev pub in_object : (Members → Members) → Node → Node
in_object f (object_node sub) = object_node (f sub)
in_object f n = n

unfoldable pub in_member : Text → (Members → Members) → Members → Members
in_member key f no_members = no_members
in_member key f (member k n rest) =
    if str_eq k key then member k (in_object f n) rest else member k n (in_member key f rest)

-- The same walk, with `f` done to the object that it finds.
unfoldable mutual
  pub change_in : JsonC → Text → (Members → Members) → Members → Members
  change_in lib key f no_members = no_members
  change_in lib key f (member k n rest) =
      if is_found (find_at lib key (str_eq key k) n)
      then member k (change_at lib key f (str_eq key k) n) rest
      else member k n (change_in lib key f rest)

  pub change_at : JsonC → Text → (Members → Members) → Bool → Node → Node
  change_at lib key f named (object_node sub) = object_node (
      if named
      then f sub
      else if is_found (present (lib.object_get sub key))
      then in_member key f sub
      else change_in lib key f sub)
  change_at lib key f named n = n

unfoldable pub change_by_key : JsonC → Members → Text → (Members → Members) → Members
change_by_key lib ms key f =
    if is_found (present (lib.object_get ms key))
    then in_member key f ms
    else change_in lib key f ms
