-- ===== src/Json/RoundTrip.antt =====
-- A message that cbcc_json_build makes of strings and numbers is what
-- cbcc_json_parse_from_buffer reads, as the modules' protocols use the two.
use chroot_cbccd.Base.{
  ℕ, ◌<◌, ◌^◌, ◌≡◌, refl, ◌∙◌, Bool, true, false, ◌||◌, Option, none, some, List, [], ◌∷◌, map, inl,
  inr, ◌>>=◌, Bool-cases, Text, str_eq, str_eq_refl, snprintf,
}
use chroot_cbccd.Json.Tree.{
  Node, Members, int_node, string_node, object_node, no_members, JsonC, IsLawful, lookup,
}
use chroot_cbccd.Json.Search.{cbcc_get_jobj_by_key}
use chroot_cbccd.Json.Parse.{
  Request, Item, str_val, int_val, string_type, int_type, DataType, check_obj_validation,
  read_value, find_value, parse_one, wrote, parse_root, cbcc_jobj_parse,
  cbcc_json_parse_from_buffer,
}
use chroot_cbccd.Json.Edit.{
  string_given, int_given, Jobj, in_parent, build_value, build_one, build_members, cbcc_json_build,
}

-- A value that both sides of a protocol agree on.
pub data Plain : Type 0 where
  words : Text → Plain
  number : ℕ → Plain

abbrev pub node_of : Plain → Node
node_of (words t) = string_node t
node_of (number i) = int_node i

-- The same entry, as the sender gives it, as the receiver asks for it with an array of `s`
-- bytes, and as the receiver gets it.
abbrev pub give : Text × Plain → Jobj
give (k, words t) = record { key = k; parent_key = none; value = string_given (some t) }
give (k, number i) = record { key = k; parent_key = none; value = int_given i }

abbrev plain_type : Plain → DataType
plain_type (words t) = string_type
plain_type (number i) = int_type

abbrev pub ask : ℕ → Text × Plain → Request
ask s (k, v) = record {
  key = k;
  parent_key = none;
  data_size = s;
  must_specify = true;
  is_root = false;
  type = plain_type v;
}

abbrev pub answer : ℕ → Text × Plain → Option Item
answer s (k, words t) = some (str_val (snprintf s t))
answer s (k, number i) = some (int_val i)

abbrev pub names : List (Text × Plain) → Text → Bool
names [] k = false
names ((j, v) ∷ es) k = str_eq j k || names es k

abbrev pub DistinctKeys : List (Text × Plain) → Type 0
DistinctKeys [] = Unit {0}
DistinctKeys ((k, v) ∷ es) = (names es k ≡ false) × DistinctKeys es

-- The object of the entries.
abbrev pub object_of : JsonC → Members → List (Text × Plain) → Members
object_of lib ms [] = ms
object_of lib ms ((k, v) ∷ es) = object_of lib (lib.object_add ms k (node_of v)) es

-- A number of json-c's ints.
abbrev pub IsInt : Plain → Type 0
IsInt (words t) = Unit {0}
IsInt (number i) = i < 2 ^ 31

abbrev pub AllInts : List (Text × Plain) → Type 0
AllInts [] = Unit {0}
AllInts ((k, v) ∷ es) = IsInt v × AllInts es

-- json-c hands back the texts, and the numbers of 31 bits, that it was given.
pub record ReadsBack (lib : JsonC) : Type 0 where
  pub string_back : (t : Text) → lib.get_string (string_node t) ≡ t
  pub int_back : (i : ℕ) → i < 2 ^ 31 → lib.get_int (int_node i) ≡ i

pub build-object_of :
    (lib : JsonC) (ms : Members) (es : List (Text × Plain))
    → build_members lib ms (map give es) ≡ some (object_of lib ms es)
unfolding build_members build_one in_parent build_value
build-object_of lib ms [] = refl
build-object_of lib ms ((k, words t) ∷ es) =
    build-object_of lib (lib.object_add ms k (string_node t)) es
build-object_of lib ms ((k, number i) ∷ es) =
    build-object_of lib (lib.object_add ms k (int_node i)) es

module _ (lib : JsonC) (l : IsLawful lib) where
  lookup-object_of :
      (ms : Members) (es : List (Text × Plain)) (k : Text)
      → names es k ≡ false
      → lookup (object_of lib ms es) k ≡ lookup ms k
  lookup-object_of ms [] k h = refl
  lookup-object_of ms ((j, v) ∷ es) k h = elim (Bool-cases (str_eq j k)) [
    | inl y ↦ absurd (cc (rw y at h))
    | inr y ↦
        lookup-object_of (lib.object_add ms j (node_of v)) es k (rw y at h)
        ∙ rw (l.lookup-add ms j (node_of v) k, y) refl
  ]

  -- Every entry stands in the object.
  unfoldable pub Holds : Members → List (Text × Plain) → Type 0
  Holds ms [] = Unit {0}
  Holds ms ((k, v) ∷ es) = (lookup ms k ≡ some (node_of v)) × Holds ms es

  pub holds :
      (ms : Members) (es : List (Text × Plain)) → DistinctKeys es → Holds (object_of lib ms es) es
  unfolding Holds
  holds ms [] d = tt
  holds ms ((k, v) ∷ es) d = (
    lookup-object_of (lib.object_add ms k (node_of v)) es k d.0
        ∙ rw (l.lookup-add ms k (node_of v) k, str_eq_refl k) refl,
    holds (lib.object_add ms k (node_of v)) es d.1,
  )

  pub found_plain :
      (ms : Members) (k : Text) (v : Plain)
      → lookup ms k ≡ some (node_of v)
      → cbcc_get_jobj_by_key lib ms k ≡ some (node_of v)
  unfolding cbcc_get_jobj_by_key
  found_plain ms k (words t) e = rw (l.get-lookup ms k, e) refl
  found_plain ms k (number i) e = rw (l.get-lookup ms k, e) refl

  parse_plain :
      (ms : Members) (s : ℕ) (e : Text × Plain)
      → ReadsBack lib
      → IsInt e.1
      → lookup ms e.0 ≡ some (node_of e.1)
      → parse_one lib ms (ask s e) ≡ some (wrote (answer s e))
  unfolding parse_one find_value check_obj_validation read_value
  parse_plain ms s (k, words t) b n h = rw (found_plain ms k (words t) h, b.string_back t) refl
  parse_plain ms s (k, number i) b n h = rw (found_plain ms k (number i) h, b.int_back i n) refl

  parse_all :
      (ms : Members) (s : ℕ) (es : List (Text × Plain))
      → ReadsBack lib
      → AllInts es
      → Holds ms es
      → cbcc_jobj_parse lib ms (map (ask s) es) ≡ some (some (map (answer s) es))
  unfolding cbcc_jobj_parse Holds
  parse_all ms s [] b n h = refl
  parse_all ms s (e ∷ es) b n h =
      rw (parse_plain ms s e b n.0 h.0, parse_all ms s es b n.1 h.1) refl

pub parse_from_object :
    (lib : JsonC) (text : Text) (ms : Members) (rs : List Request)
    → lib.tokener_parse text ≡ some (object_node ms)
    → cbcc_json_parse_from_buffer lib text rs ≡ cbcc_jobj_parse lib ms rs
unfolding cbcc_json_parse_from_buffer parse_root
parse_from_object lib text ms rs e = rw e refl

-- Of entries with distinct keys and numbers of 31 bits, cbcc_json_build prints an object, and asking that text for the
-- keys with arrays of `s` bytes gives every number, and every string as `snprintf` cuts it, in
-- order; if json-c reads the object it printed as that object, and hands back texts and numbers.
pub parse_from_buffer-build :
    (lib : JsonC) (s : ℕ) (es : List (Text × Plain))
    → IsLawful lib
    → ReadsBack lib
    → AllInts es
    → DistinctKeys es
    → lib.tokener_parse (lib.get_string (object_node (object_of lib no_members es)))
      ≡ some (object_node (object_of lib no_members es))
    → (cbcc_json_build lib (map give es) >>= λ text.
        cbcc_json_parse_from_buffer lib text (map (ask s) es))
      ≡ some (some (map (answer s) es))
unfolding cbcc_json_build
parse_from_buffer-build lib s es l b n d p =
    let ms = object_of lib no_members es in
    rw (build-object_of lib no_members es) (
      parse_from_object lib (lib.get_string (object_node ms)) ms (map (ask s) es) p
      ∙ parse_all lib l ms s es b n (holds lib l no_members es d))
