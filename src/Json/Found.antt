-- ===== src/Json/Found.antt =====
-- cbcc_get_jobj_by_key finds a key exactly where an object has it, or an object nested in it through
-- members. It does not look into arrays.
use chroot_cbccd.Base.{
  ◌≡◌, ◌≢◌, refl, sym, ◌∙◌, Bool, true, false, ◌||◌, Option, none, some, ◌⊎◌, inl, inr, arith,
  if◌then◌else◌, Bool-cases, Text, str_eq, str_eq→eq, str_eq_refl,
}
use chroot_cbccd.Json.Tree.{
  Node, Members, null_node, boolean_node, double_node, int_node, string_node, array_node,
  object_node, no_members, member, JsonC, IsLawful, lookup, present,
}
use chroot_cbccd.Json.Search.{or_else, find_in, find_at, cbcc_get_jobj_by_key, is_found}

-- A value that is not null stands under a key, in the members of an object, or of an object that is
-- nested in it through members. What stands in an array does not count.
pub data Occurs (key : Text) (v : Node) : Members → Type 0 where
  own : {rest : Members} → v ≢ null_node → Occurs key v (member key v rest)
  inside :
      {k : Text} {sub rest : Members}
      → Occurs key v sub
      → Occurs key v (member k (object_node sub) rest)
  later :
      {k : Text} {n : Node} {rest : Members} → Occurs key v rest → Occurs key v (member k n rest)

or_else-cases : (a b : Option Node) (v : Node) → or_else a b ≡ some v → (a ≡ some v) ⊎ (b ≡ some v)
or_else-cases none b v e = inr e
or_else-cases (some n) b v e = inl e

present-cases : (o : Option Node) (v : Node) → present o ≡ some v → (o ≡ some v) × (v ≢ null_node)
present-cases none v e = absurd (cc)
present-cases (some null_node) v e = absurd (cc)
present-cases (some (boolean_node b)) v e = (e, λ h. absurd (cc))
present-cases (some (double_node b)) v e = (e, λ h. absurd (cc))
present-cases (some (int_node b)) v e = (e, λ h. absurd (cc))
present-cases (some (string_node b)) v e = (e, λ h. absurd (cc))
present-cases (some (array_node b)) v e = (e, λ h. absurd (cc))
present-cases (some (object_node b)) v e = (e, λ h. absurd (cc))

own_eq :
    (k key : Text) (n v : Node) (rest : Members)
    → k ≡ key
    → some n ≡ some v
    → v ≢ null_node
    → Occurs key v (member k n rest)
own_eq k key n v rest e f h = let same : n ≡ v = cc (f) in rw (e, same) (own h)

lookup-Occurs :
    (ms : Members) (key : Text) (v : Node)
    → lookup ms key ≡ some v
    → v ≢ null_node
    → Occurs key v ms
unfolding lookup
lookup-Occurs no_members key v e h = absurd (cc)
lookup-Occurs (member k n rest) key v e h = elim (Bool-cases (str_eq k key)) [
  | inl y ↦ own_eq k key n v rest (str_eq→eq k key y) (rw y at e) h
  | inr y ↦ later (lookup-Occurs rest key v (rw y at e) h)
]

named_value :
    (key k : Text) (n v : Node) (rest : Members)
    → n ≢ null_node
    → (if str_eq key k then some n else none) ≡ some v
    → Occurs key v (member k n rest)
named_value key k n v rest h e = elim (Bool-cases (str_eq key k)) [
  | inl y ↦
      let f : some n ≡ some v = rw y at e in
      let same : n ≡ v = cc (f) in
      own_eq k key n v rest (sym (str_eq→eq key k y)) f (λ z. h (same ∙ z))
  | inr y ↦ absurd (cc (rw y at e))
]

module _ (lib : JsonC) (l : IsLawful lib) (key : Text) where
  mutual
    unfolding find_in find_at

    find_in-Occurs : (ms : Members) (v : Node) → find_in lib key ms ≡ some v → Occurs key v ms
    find_in-Occurs no_members v e = absurd (cc)
    find_in-Occurs (member k n rest) v e =
        elim (or_else-cases (find_at lib key (str_eq key k) n) (find_in lib key rest) v e) [
          | inl a ↦ find_at-Occurs k n rest v a
          | inr b ↦ later (find_in-Occurs rest v b)
        ]

    find_at-Occurs :
        (k : Text) (n : Node) (rest : Members) (v : Node)
        → find_at lib key (str_eq key k) n ≡ some v
        → Occurs key v (member k n rest)
    find_at-Occurs k null_node rest v e = absurd (cc)
    find_at-Occurs k (boolean_node b) rest v e = named_value key k _ v rest (λ h. absurd (cc)) e
    find_at-Occurs k (double_node b) rest v e = named_value key k _ v rest (λ h. absurd (cc)) e
    find_at-Occurs k (int_node b) rest v e = named_value key k _ v rest (λ h. absurd (cc)) e
    find_at-Occurs k (string_node b) rest v e = named_value key k _ v rest (λ h. absurd (cc)) e
    find_at-Occurs k (array_node b) rest v e = named_value key k _ v rest (λ h. absurd (cc)) e
    find_at-Occurs k (object_node sub) rest v e = elim (Bool-cases (str_eq key k)) [
      | inl y ↦ named_value key k (object_node sub) v rest (λ h. absurd (cc)) (rw y (rw y at e))
      | inr y ↦
          elim (or_else-cases (present (lib.object_get sub key)) (find_in lib key sub) v
            (rw y at e)) [
              | inl a ↦
                  let (f, h) = present-cases (lib.object_get sub key) v a in
                  inside (lookup-Occurs sub key v (sym (l.get-lookup sub key) ∙ f) h)
              | inr b ↦ inside (find_in-Occurs sub v b)
            ]
    ]

  get_jobj-Occurs :
      (ms : Members) (v : Node) → cbcc_get_jobj_by_key lib ms key ≡ some v → Occurs key v ms
  unfolding cbcc_get_jobj_by_key
  get_jobj-Occurs ms v e =
      elim (or_else-cases (present (lib.object_get ms key)) (find_in lib key ms) v e) [
        | inl a ↦
            let (f, h) = present-cases (lib.object_get ms key) v a in
            lookup-Occurs ms key v (sym (l.get-lookup ms key) ∙ f) h
        | inr b ↦ find_in-Occurs ms v b
      ]

found-or_else : (a b : Option Node) → is_found (or_else a b) ≡ (is_found a || is_found b)
found-or_else none b = refl
found-or_else (some n) b = refl

found-named :
    (lib : JsonC) (key : Text) (n : Node)
    → n ≢ null_node
    → is_found (find_at lib key (str_eq key key) n) ≡ true
unfolding find_at
found-named lib key n h = rw (str_eq_refl key) (go n h)
  where
    go : (n : Node) → n ≢ null_node → is_found (find_at lib key true n) ≡ true
    go null_node h = absurd (h refl)
    go (boolean_node b) h = refl
    go (double_node b) h = refl
    go (int_node b) h = refl
    go (string_node b) h = refl
    go (array_node b) h = refl
    go (object_node b) h = refl

found_inside :
    (lib : JsonC) (key : Text) (named : Bool) (sub : Members)
    → is_found (find_in lib key sub) ≡ true
    → is_found (find_at lib key named (object_node sub)) ≡ true
unfolding find_at
found_inside lib key true sub h = refl
found_inside lib key false sub h =
    ground (arith, h, found-or_else (present (lib.object_get sub key)) (find_in lib key sub))

get_jobj-found :
    (lib : JsonC) (ms : Members) (key : Text)
    → is_found (find_in lib key ms) ≡ true
    → is_found (cbcc_get_jobj_by_key lib ms key) ≡ true
unfolding cbcc_get_jobj_by_key
get_jobj-found lib ms key h =
    ground (arith, h, found-or_else (present (lib.object_get ms key)) (find_in lib key ms))

Occurs-found :
    (lib : JsonC) (key : Text) {v : Node} {ms : Members}
    → Occurs key v ms
    → is_found (find_in lib key ms) ≡ true
unfolding find_in find_at
Occurs-found lib key {v} (own {rest} h) =
    rw
      (
        found-or_else (find_at lib key (str_eq key key) v) (find_in lib key rest),
        found-named lib key v h,
      )
      refl
Occurs-found lib key (inside {k} {sub} {rest} o) =
    let n = object_node sub in
    rw
      (
        found-or_else (find_at lib key (str_eq key k) n) (find_in lib key rest),
        found_inside lib key (str_eq key k) sub (Occurs-found lib key o),
      )
      refl
Occurs-found lib key (later {k} {n} {rest} o) =
    let rest_found = Occurs-found lib key o in
    ground
      (arith, rest_found, found-or_else (find_at lib key (str_eq key k) n) (find_in lib key rest))

-- What cbcc_get_jobj_by_key returns stands under the key, in the object or in an object that is
-- nested in it through members, and is not null; if it returns NULL, nothing but null stands under
-- the key in any of these. Of objects in arrays nothing is said.
pub get_jobj_by_key-Occurs :
    (lib : JsonC) (ms : Members) (key : Text)
    → IsLawful lib
    → ((v : Node) → cbcc_get_jobj_by_key lib ms key ≡ some v → Occurs key v ms)
      × ((v : Node) → cbcc_get_jobj_by_key lib ms key ≡ none → ¬ Occurs key v ms)
get_jobj_by_key-Occurs lib ms key l = (
  get_jobj-Occurs lib l key ms,
  λ v e o. absurd (cc (e, get_jobj-found lib ms key (Occurs-found lib key o))),
)
