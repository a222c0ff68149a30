-- ===== src/Examples/Texts.antt =====
-- Concrete JSON texts, and the theorems about the JSON layer at them.
use chroot_cbccd.Base.{
  ℕ, ◌≡◌, refl, Bool, true, false, Option, none, some, List, [], ◌∷◌, map, arith, ◌>>=◌,
  if◌then◌else◌, Text, codes, str_eq, str_eq_iff,
}
use chroot_cbccd.Json.Tree.{
  Node, Nodes, Members, boolean_node, int_node, string_node, object_node, no_nodes, node,
  no_members, member, JsonC, IsLawful, lookup,
}
use chroot_cbccd.Json.Search.{cbcc_get_jobj_by_key}
use chroot_cbccd.Json.Found.{Occurs, get_jobj_by_key-Occurs}
use chroot_cbccd.Json.Parse.{cbcc_json_parse_from_buffer}
use chroot_cbccd.Json.Edit.{cbcc_json_build}
use chroot_cbccd.Json.RoundTrip.{
  Plain, words, number, give, ask, answer, DistinctKeys, ReadsBack, parse_from_buffer-build,
}

-- json-c over the trees, but for one text: it reads `{...}` as the object `ms`, and prints every
-- object so.
unfoldable pub put_member : Members → Text → Node → Members
put_member no_members key n = member key n no_members
put_member (member k m rest) key n =
    if str_eq k key then member k n rest else member k m (put_member rest key n)

unfoldable pub cut_member : Members → Text → Members
cut_member no_members key = no_members
cut_member (member k m rest) key =
    if str_eq k key then cut_member rest key else member k m (cut_member rest key)

unfoldable pub append_node : Nodes → Node → Nodes
append_node no_nodes n = node n no_nodes
append_node (node m ns) n = node m (append_node ns n)

abbrev pub object_text : Text
object_text = codes "{...}"

abbrev read_object : Members → Bool → Option Node
read_object ms true = some (object_node ms)
read_object ms false = none

abbrev print_node : Node → Text
print_node (string_node t) = t
print_node n = object_text

abbrev number_of : Node → ℕ
number_of (int_node i) = i
number_of n = 0

abbrev boolean_of : Node → Bool
boolean_of (boolean_node b) = b
boolean_of n = false

abbrev pub reading : Members → JsonC
reading ms = record {
  tokener_parse = λ t. read_object ms (str_eq t object_text);
  get_string = print_node;
  get_int = number_of;
  get_boolean = boolean_of;
  object_get = lookup;
  object_add = put_member;
  object_del = cut_member;
  array_add = append_node;
}

lookup-put_member :
    (ms : Members) (key : Text) (n : Node) (k : Text)
    → lookup (put_member ms key n) k ≡ (if str_eq key k then some n else lookup ms k)
unfolding lookup put_member
lookup-put_member no_members key n k = refl
lookup-put_member (member j m rest) key n k =
    ground
      (arith, str_eq_iff j key, str_eq_iff j k, str_eq_iff key k, lookup-put_member rest key n k)

lookup-cut_member :
    (ms : Members) (key k : Text)
    → lookup (cut_member ms key) k ≡ (if str_eq key k then none else lookup ms k)
unfolding lookup cut_member
lookup-cut_member no_members key k = ground (arith, str_eq_iff key k)
lookup-cut_member (member j m rest) key k =
    ground (arith, str_eq_iff j key, str_eq_iff j k, str_eq_iff key k, lookup-cut_member rest key k)

pub reading-IsLawful : (ms : Members) → IsLawful (reading ms)
reading-IsLawful ms = record {
  get-lookup = λ ns key. refl;
  lookup-add = lookup-put_member;
  lookup-del = lookup-cut_member;
}

-- A message of a login: the identity, and a member within an object.
abbrev entries : List (Text × Plain)
entries = (codes "cmd", words (codes "login")) ∷ (codes "fd", number 7) ∷ []

abbrev printed : Members
printed =
    member (codes "cmd") (string_node (codes "login")) (member (codes "fd") (int_node 7) no_members)

abbrev nested : Members
nested =
    member (codes "data") (object_node printed)
      (member (codes "id") (string_node (codes "x")) no_members)

abbrev printer : JsonC
printer = reading printed

printer-ReadsBack : ReadsBack printer
printer-ReadsBack = record { string_back = λ t. refl; int_back = λ i n. refl }

entries-DistinctKeys : DistinctKeys entries
unfolding str_eq
entries-DistinctKeys = (refl, (refl, tt))

parse_from_buffer-build_example :
    (cbcc_json_build printer (map give entries) >>= λ text.
    cbcc_json_parse_from_buffer printer text (map (ask 64) entries))
    ≡ some (some (map (answer 64) entries))
unfolding str_eq put_member
parse_from_buffer-build_example =
    parse_from_buffer-build printer 64 entries (reading-IsLawful printed) printer-ReadsBack
      (tt, (omega arith, tt)) entries-DistinctKeys refl

get_jobj_by_key-Occurs_example :
    ((v : Node)
      → cbcc_get_jobj_by_key (reading nested) nested (codes "fd") ≡ some v
      → Occurs (codes "fd") v nested)
    × ((v : Node)
        → cbcc_get_jobj_by_key (reading nested) nested (codes "fd") ≡ none
        → ¬ Occurs (codes "fd") v nested)
get_jobj_by_key-Occurs_example =
    get_jobj_by_key-Occurs (reading nested) nested (codes "fd") (reading-IsLawful nested)
