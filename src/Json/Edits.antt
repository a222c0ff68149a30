-- ===== src/Json/Edits.antt =====
-- What cbcc_json_update, cbcc_json_add and cbcc_json_remove leave in the root, when no object that
-- is given has a parent.
use chroot_cbccd.Base.{
  ◌≡◌, refl, ap, ◌∙◌, Bool, true, false, ◌||◌, ◌&&◌, Option, none, some, List, [], ◌∷◌, arith, inl,
  inr, if◌then◌else◌, Bool-cases, Option-cases, Text, str_eq, str_eq_iff,
}
use chroot_cbccd.Json.Tree.{
  Node, Members, boolean_node, int_node, string_node, object_node, no_members, JsonC, IsLawful,
  lookup, present,
}
use chroot_cbccd.Json.Search.{cbcc_get_jobj_by_key}
use chroot_cbccd.Json.Parse.{check_obj_validation}
use chroot_cbccd.Json.Edit.{
  Given, has_string, new_object, object_text, string_given, int_given, boolean_given,
  str_array_given, int_array_given, obj_array_given, Jobj, type_of, or_empty, in_parent, add_member,
  replace_member, update_value, update_one, add_given, add_members, delete_found, remove_members,
}

pub data NoParents : List Jobj → Type 0 where
  no_more : NoParents []
  and_more : {o : Jobj} {os : List Jobj} → o.parent_key ≡ none → NoParents os → NoParents (o ∷ os)

abbrev pub gives : List Jobj → Text → Bool
gives [] k = false
gives (o ∷ os) k = str_eq o.key k || gives os k

-- Whether no string that is given is NULL.
abbrev pub has_strings : List Jobj → Bool
has_strings [] = true
has_strings (o ∷ os) = has_string o.value && has_strings os

-- What cbcc_json_add puts in the place of a member; arrays are only taken away.
abbrev added : Given → Option Node
added new_object = some (object_node no_members)
added (object_text t) = some (object_node no_members)
added (string_given t) = some (string_node (or_empty t))
added (int_given i) = some (int_node i)
added (boolean_given b) = some (boolean_node b)
added (str_array_given ts) = none
added (int_array_given is) = none
added (obj_array_given ts) = none

-- What cbcc_json_update puts in the place of a member, which is taken away otherwise.
abbrev updated : Given → Option Node
updated (string_given t) = some (string_node (or_empty t))
updated (int_given i) = some (int_node i)
updated given = none

-- The value under a key after objects were added one by one: the last one counts.
abbrev pub after_add : List Jobj → Text → Option Node → Option Node
after_add [] k old = old
after_add (o ∷ os) k old = after_add os k (if str_eq o.key k then added o.value else old)

-- The value under a key that is not null.
abbrev pub shown : Members → Text → Option Node
shown ms k = present (lookup ms k)

-- Whether cbcc_json_update takes an object: its key has a value somewhere, of its type.
abbrev pub taken : JsonC → Members → Jobj → Bool
taken lib root o = elim (cbcc_get_jobj_by_key lib root o.key) [
  | none ↦ false
  | some n ↦ check_obj_validation (type_of o.value) n
]

module _ (lib : JsonC) (l : IsLawful lib) where
  shown-del :
      (ms : Members) (key k : Text)
      → shown (lib.object_del ms key) k ≡ (if str_eq key k then none else shown ms k)
  shown-del ms key k = elim (Bool-cases (str_eq key k)) [
    | inl y ↦ rw (l.lookup-del ms key k, y) refl
    | inr y ↦ rw (l.lookup-del ms key k, y) refl
  ]

  shown-add :
      (ms : Members) (key : Text) (n : Node) (k : Text)
      → shown (lib.object_add ms key n) k ≡ (if str_eq key k then present (some n) else shown ms k)
  shown-add ms key n k = elim (Bool-cases (str_eq key k)) [
    | inl y ↦ rw (l.lookup-add ms key n k, y) refl
    | inr y ↦ rw (l.lookup-add ms key n k, y) refl
  ]

  shown-delete_found :
      (key : Text) (ms : Members) (k : Text)
      → shown (delete_found lib key ms) k ≡ (if str_eq key k then none else shown ms k)
  shown-delete_found key ms k = elim (Option-cases (present (lib.object_get ms key))) [
    | inl e ↦ rw e (ground (arith, str_eq_iff key k, l.get-lookup ms key))
    | inr (n, e) ↦ rw e (shown-del ms key k)
  ]

  -- Adding after the member is taken away, in one of two ways.
  shown-put :
      (ms old : Members) (key : Text) (n : Node) (k : Text)
      → shown ms k ≡ (if str_eq key k then none else shown old k)
      → present (some n) ≡ some n
      → shown (lib.object_add ms key n) k ≡ (if str_eq key k then some n else shown old k)
  shown-put ms old key n k h p = elim (Bool-cases (str_eq key k)) [
    | inl y ↦ rw (shown-add ms key n k, y) p
    | inr y ↦ rw (shown-add ms key n k, y) (rw y at h)
  ]

  shown-add_given :
      (key : Text) (v : Given) (ms : Members) (k : Text)
      → shown (add_given lib key v (delete_found lib key ms)) k
        ≡ (if str_eq key k then added v else shown ms k)
  unfolding add_given
  shown-add_given key (str_array_given ts) ms k = shown-delete_found key ms k
  shown-add_given key (int_array_given is) ms k = shown-delete_found key ms k
  shown-add_given key (obj_array_given ts) ms k = shown-delete_found key ms k
  shown-add_given key new_object ms k = shown-put _ ms key _ k (shown-delete_found key ms k) refl
  shown-add_given key (object_text t) ms k =
      shown-put _ ms key _ k (shown-delete_found key ms k) refl
  shown-add_given key (string_given t) ms k =
      shown-put _ ms key _ k (shown-delete_found key ms k) refl
  shown-add_given key (int_given i) ms k = shown-put _ ms key _ k (shown-delete_found key ms k) refl
  shown-add_given key (boolean_given b) ms k =
      shown-put _ ms key _ k (shown-delete_found key ms k) refl

  shown-update_value :
      (key : Text) (v : Given) (ms : Members) (k : Text)
      → shown (update_value lib key v (lib.object_del ms key)) k
        ≡ (if str_eq key k then updated v else shown ms k)
  unfolding update_value
  shown-update_value key new_object ms k = shown-del ms key k
  shown-update_value key (object_text t) ms k = shown-del ms key k
  shown-update_value key (boolean_given b) ms k = shown-del ms key k
  shown-update_value key (str_array_given ts) ms k = shown-del ms key k
  shown-update_value key (int_array_given is) ms k = shown-del ms key k
  shown-update_value key (obj_array_given ts) ms k = shown-del ms key k
  shown-update_value key (string_given t) ms k = shown-put _ ms key _ k (shown-del ms key k) refl
  shown-update_value key (int_given i) ms k = shown-put _ ms key _ k (shown-del ms key k) refl

  add_step :
      (root : Members) (o : Jobj)
      → o.parent_key ≡ none
      → has_string o.value ≡ true
      → in_parent lib root o.parent_key (has_string o.value) (add_member lib o)
        ≡ some (add_member lib o root)
  unfolding in_parent
  add_step root o e h = rw (e, h) refl

  remove_step :
      (root : Members) (o : Jobj)
      → o.parent_key ≡ none
      → in_parent lib root o.parent_key true (delete_found lib o.key)
        ≡ some (delete_found lib o.key root)
  unfolding in_parent
  remove_step root o e = rw e refl

  -- The loop of cbcc_json_add over objects without parents, whose strings are not NULL, ends, and
  -- each key then has what the last object with the key put there, and other keys what they had.
  pub add_members-after_add :
      (root : Members) (os : List Jobj)
      → NoParents os
      → has_strings os ≡ true
      → (ms : Members) × (add_members lib root os ≡ some ms)
        × ((k : Text) → shown ms k ≡ after_add os k (shown root k))
  unfolding add_members
  add_members-after_add root [] no_more h = (root, refl, λ k. refl)
  add_members-after_add root (o ∷ os) (and_more e p) h =
      let next = add_member lib o root in
      let (ms, f, g) = add_members-after_add next os p (ground (arith, h)) in
      (
        ms,
        rw (add_step root o e (ground (arith, h))) f,
        λ k. g k ∙ ap (after_add os k) (shown-add_given o.key o.value root k),
      )

  -- The loop of cbcc_json_remove over objects without parents ends, and then json-c shows no
  -- value under their keys, and what it showed under the others.
  pub remove_members-gives :
      (root : Members) (os : List Jobj)
      → NoParents os
      → (ms : Members) × (remove_members lib root os ≡ some ms)
        × ((k : Text) → shown ms k ≡ (if gives os k then none else shown root k))
  unfolding remove_members
  remove_members-gives root [] no_more = (root, refl, λ k. refl)
  remove_members-gives root (o ∷ os) (and_more e p) =
      let next = delete_found lib o.key root in
      let (ms, f, g) = remove_members-gives next os p in
      (ms, rw (remove_step root o e) f, λ k. ground (arith, g k, shown-delete_found o.key root k))

  update_one-passed :
      (root : Members) (o : Jobj) → taken lib root o ≡ false → update_one lib root o ≡ some root
  unfolding update_one
  update_one-passed root o h = elim (Option-cases (cbcc_get_jobj_by_key lib root o.key)) [
    | inl f ↦ rw (f, update_one) refl
    | inr (n, f) ↦ rw (f, update_one) (rw (rw (f, taken) at h) refl)
  ]

  update_one-replace_member :
      (root : Members) (o : Jobj)
      → o.parent_key ≡ none
      → has_string o.value ≡ true
      → taken lib root o ≡ true
      → update_one lib root o ≡ some (replace_member lib o root)
  unfolding update_one in_parent
  update_one-replace_member root o e s h =
      elim (Option-cases (cbcc_get_jobj_by_key lib root o.key)) [
        | inl f ↦ absurd (cc (rw (f, taken) at h))
        | inr (n, f) ↦ rw (f, update_one) (rw (rw (f, taken) at h, e, s) refl)
      ]

  -- For an object without a parent, whose string is not NULL, cbcc_jobj_update changes nothing
  -- if the key has no value of its type at any depth; else the root has what is given under the
  -- key (or nothing, if that is no string and no number), and its other members are kept.
  update_one-taken :
      (root : Members) (o : Jobj)
      → o.parent_key ≡ none
      → has_string o.value ≡ true
      → (ms : Members) × (update_one lib root o ≡ some ms)
        × ((k : Text)
            → shown ms k
              ≡ (if taken lib root o && str_eq o.key k then updated o.value else shown root k))
  update_one-taken root o e h = elim (Bool-cases (taken lib root o)) [
    | inl y ↦ (
      replace_member lib o root,
      update_one-replace_member root o e h y,
      λ k. rw y (shown-update_value o.key o.value root k),
    )
    | inr y ↦ (root, update_one-passed root o y, λ k. rw y refl)
  ]
