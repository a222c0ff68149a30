-- ===== src/Json/Tree.antt =====
-- The trees of json-c, and what the code uses of its functions.
use chroot_cbccd.Base.{ℕ, ◌≡◌, Bool, Option, none, some, if◌then◌else◌, Text, str_eq}

-- A member whose value is JSON's `null` has a NULL pointer as its value.
mutual
  pub data Node : Type 0 where
    null_node : Node
    boolean_node : Bool → Node
    double_node : Text → Node
    int_node : ℕ → Node
    string_node : Text → Node
    array_node : Nodes → Node
    object_node : Members → Node

  pub data Nodes : Type 0 where
    no_nodes : Nodes
    node : Node → Nodes → Nodes

  pub data Members : Type 0 where
    no_members : Members
    member : Text → Node → Members → Members

-- json_tokener_parse (`none` for NULL or an error), json_object_get_string, _get_int,
-- _get_boolean, _object_get, _object_add, _object_del and _array_add.
pub record JsonC : Type 0 where
  pub tokener_parse : Text → Option Node
  pub get_string : Node → Text
  pub get_int : Node → ℕ
  pub get_boolean : Node → Bool
  pub object_get : Members → Text → Option Node
  pub object_add : Members → Text → Node → Members
  pub object_del : Members → Text → Members
  pub array_add : Nodes → Node → Nodes

-- The first member with a key.
unfoldable pub lookup : Members → Text → Option Node
lookup no_members key = none
lookup (member k n rest) key = if str_eq k key then some n else lookup rest key

-- What json-c documents of the members of an object: a look-up finds the member that the walk
-- passes, adding puts or replaces one member, deleting takes one away, and the walk passes no key
-- twice.
pub record IsLawful (lib : JsonC) : Type 0 where
  pub get-lookup : (ms : Members) (key : Text) → lib.object_get ms key ≡ lookup ms key
  pub lookup-add :
      (ms : Members) (key : Text) (n : Node) (k : Text)
      → lookup (lib.object_add ms key n) k ≡ (if str_eq key k then some n else lookup ms k)
  pub lookup-del :
      (ms : Members) (key k : Text)
      → lookup (lib.object_del ms key) k ≡ (if str_eq key k then none else lookup ms k)

-- A NULL pointer counts as not found.
abbrev pub present : Option Node → Option Node
present none = none
present (some null_node) = none
present (some n) = some n
