-- ===== src/Config/Later.antt =====
-- Who is known to refer to an object after set_config_objs_refs: the loop frees the references of
-- each object when it comes to it, so what earlier objects had added is lost.
use chroot_cbccd.Base.{
  ℕ, ◌≡◌, refl, sym, ap, ap₂, subst, ◌∙◌, Bool, true, false, Option, none, some, List, [], ◌∷◌,
  ◌++◌, map, arith, inl, inr, ◌⊎◌, ◌≢◌, ◌==◌, Bool-cases, Option-cases, Text,
}
use chroot_cbccd.Json.Parse.{cbcc_json_parse_from_buffer}
use chroot_cbccd.Config.{
  ObjectType, net_group_type, service_group_type, fw_type, Refs, refs, freed_refs, push_ref,
  free_refs, ConfigObject, OuInfo, Located, located, find_addr, modify_at, modify_object,
  add_obj_ref, free_obj_ref_list, get_config_obj,
}
use chroot_cbccd.Config.References.{
  ConfigEnv, add_group_refs, add_fw_refs, set_grp_objs_refs, set_fw_objs_refs, set_obj_refs,
  refs_by_type, refresh, refresh_all, set_config_objs_refs, addrs, text_item, members_item,
  members_request, fw_requests,
}

-- What is done to the object that was found, if it is the one that is changed.
abbrev after : Bool → (ConfigObject → ConfigObject) → Option Located → Option Located
after b f none = none
after true f (some l) = some (l.0, f l.1)
after false f (some l) = some l

abbrev or_find : Option Located → Option Located → Option Located
or_find none m = m
or_find (some l) m = some l

find-append :
    (xs ys : List Located) (b : ℕ)
    → find_addr (xs ++ ys) b ≡ or_find (find_addr xs b) (find_addr ys b)
unfolding find_addr
find-append [] ys b = refl
find-append (x ∷ xs) ys b = ground (arith, find-append xs ys b)

after-or_find :
    (c : Bool) (f : ConfigObject → ConfigObject) (x y : Option Located)
    → or_find (after c f x) (after c f y) ≡ after c f (or_find x y)
after-or_find true f none y = refl
after-or_find true f (some l) y = refl
after-or_find false f none y = refl
after-or_find false f (some l) y = refl

abbrev KeepsAddr : (ConfigObject → ConfigObject) → Type 0
KeepsAddr f = (o : ConfigObject) → (f o).addr ≡ o.addr

module _ (a b : ℕ) (f : ConfigObject → ConfigObject) (keeps : KeepsAddr f) where
  find-modify_at :
      (g : Text) (os : List ConfigObject)
      → find_addr (map (λ o. (g, o)) (modify_at a f os)) b
        ≡ after (a == b) f (find_addr (map (λ o. (g, o)) os) b)
  unfolding find_addr modify_at
  find-modify_at g [] = refl
  find-modify_at g (o ∷ os) = elim (Bool-cases (o.addr == a)) [
    | inl y ↦ elim (Bool-cases (o.addr == b)) [
      | inl z ↦ ground (arith, y, z, keeps o)
      | inr z ↦ ground (arith, y, z, keeps o)
    ]
    | inr y ↦ ground (arith, y, find-modify_at g os)
  ]

  find-modify :
      (ous : List OuInfo)
      → find_addr (located (modify_object a f ous)) b ≡ after (a == b) f (find_addr (located ous) b)
  unfolding located modify_object find_addr
  find-modify [] = refl
  find-modify (ou ∷ ous) =
      let here = map (λ o. (ou.ou_guid, o)) ou.conf_objs in
      find-append (map (λ o. (ou.ou_guid, o)) (modify_at a f ou.conf_objs)) _ b
      ∙ ap₂ or_find (find-modify_at ou.ou_guid ou.conf_objs) (find-modify ous)
      ∙ after-or_find (a == b) f (find_addr here b) (find_addr (located ous) b)
      ∙ ap (after (a == b) f) (sym (find-append here (located ous) b))

abbrev Among : List ℕ → ℕ → Type 0
Among [] a = ⊥
Among (b ∷ bs) a = (a ≡ b) ⊎ Among bs a

-- Everything in the chain is among some addresses.
abbrev AllAmong : List ℕ → List ℕ → Type 0
AllAmong s [] = Unit {0}
AllAmong s (r ∷ rs) = Among s r × AllAmong s rs

abbrev pub Within : List ℕ → Refs → Type 0
Within s (refs rs) = AllAmong s rs
Within s freed_refs = Unit {0}

AllAmong-append : (s rs : List ℕ) (a : ℕ) → AllAmong s rs → Among s a → AllAmong s (rs ++ (a ∷ []))
AllAmong-append s [] a h k = (k, tt)
AllAmong-append s (r ∷ rs) a h k = (h.0, AllAmong-append s rs a h.1 k)

Within-push : (s : List ℕ) (a : ℕ) → Among s a → (r : Refs) → Within s r → Within s (push_ref a r)
Within-push s a k (refs rs) h = AllAmong-append s rs a h k
Within-push s a k freed_refs h = (k, tt)

find_addr-addr : (ls : List Located) (a : ℕ) (l : Located) → find_addr ls a ≡ some l → l.1.addr ≡ a
unfolding find_addr
find_addr-addr [] a l e = cc
find_addr-addr (x ∷ xs) a l e = ground (arith, e, find_addr-addr xs a l)

-- A set object is at an address, and its references have a property.
record At (P : Refs → Type 0) (a : ℕ) (ous : List OuInfo) : Type 0 where
  obj : Located
  found : find_addr (located ous) a ≡ some obj
  is_set : obj.1.is_set ≡ true
  chained : P obj.1.ref_objs

abbrev KeepsSet : (ConfigObject → ConfigObject) → Type 0
KeepsSet f = (o : ConfigObject) → (f o).is_set ≡ o.is_set

module _ (P Q : Refs → Type 0) (a : ℕ) where
  At-modify :
      (t : ℕ) (f : ConfigObject → ConfigObject)
      → KeepsAddr f
      → KeepsSet f
      → ((o : ConfigObject) → P o.ref_objs → Q (f o).ref_objs)
      → ((o : ConfigObject) → t ≢ a → P o.ref_objs → Q o.ref_objs)
      → (ous : List OuInfo) → At P a ous
      → At Q a (modify_object t f ous)
  At-modify t f keeps same new old ous h = elim (Bool-cases (t == a)) [
    | inl y ↦ record {
      obj = (h.obj.0, f h.obj.1);
      found = find-modify t a f keeps ous ∙ rw (h.found, y) refl;
      is_set = same h.obj.1 ∙ h.is_set;
      chained = new h.obj.1 h.chained;
    }
    | inr y ↦ record {
      obj = h.obj;
      found = find-modify t a f keeps ous ∙ rw (h.found, y) refl;
      is_set = h.is_set;
      chained = old h.obj.1 (ground (arith, y)) h.chained;
    }
  ]

-- A property of references that freeing them and adding some of them keep.
abbrev KeptByPush : (Refs → Type 0) → ℕ → Type 0
KeptByPush P by = (r : Refs) → P r → P (push_ref by r)

abbrev KeptByFree : (Refs → Type 0) → Type 0
KeptByFree P = (r : Refs) → P r → P (free_refs r)

module _ (P : Refs → Type 0) (a by : ℕ) (push : KeptByPush P by) where
  At-add : (t : ℕ) (ous : List OuInfo) → At P a ous → At P a (modify_object t (add_obj_ref by) ous)
  At-add t =
      At-modify P P a t (add_obj_ref by) (λ o. refl) (λ o. refl) (λ o p. push o.ref_objs p)
        (λ o n p. p)

  At-group :
      (gs : List Text) (ous r : List OuInfo)
      → At P a ous
      → add_group_refs ous by gs ≡ some r
      → At P a r
  unfolding add_group_refs
  At-group [] ous r h e = subst (At P a) (cc) h
  At-group (g ∷ gs) ous r h e = elim (Option-cases (get_config_obj ous g)) [
    | inl n ↦ absurd (cc (rw n at e))
    | inr (l, n) ↦
        At-group gs (modify_object l.1.addr (add_obj_ref by) ous) r (At-add l.1.addr ous h)
          (rw n at e)
  ]

  At-fw : (gs : List Text) (ous : List OuInfo) → At P a ous → At P a (add_fw_refs ous by gs)
  unfolding add_fw_refs
  At-fw [] ous h = h
  At-fw (g ∷ gs) ous h = elim (Option-cases (get_config_obj ous g)) [
    | inl n ↦ rw (n, add_fw_refs) (At-fw gs ous h)
    | inr (l, n) ↦
        rw (n, add_fw_refs)
          (At-fw gs (modify_object l.1.addr (add_obj_ref by) ous) (At-add l.1.addr ous h))
  ]

module _ (env : ConfigEnv) (P : Refs → Type 0) (a : ℕ) where
  At-grp_objs :
      (o : ConfigObject)
      → KeptByPush P o.addr
      → (ous r : List OuInfo) → At P a ous
      → set_grp_objs_refs env ous o ≡ some r
      → At P a r
  unfolding set_grp_objs_refs
  At-grp_objs o push ous r h e =
      elim (Option-cases (cbcc_json_parse_from_buffer env.lib o.obj_data (members_request ∷ []))) [
        | inl n ↦ absurd (cc (rw n at e))
        | inr (none, n) ↦ subst (At P a) (cc (rw n at e)) h
        | inr (some is, n) ↦ elim (Option-cases (members_item is)) [
          | inl m ↦ absurd (cc (rw (n, m) at e))
          | inr (gs, m) ↦ At-group P a o.addr push gs ous r h (rw (n, m) at e)
        ]
      ]

  At-fw_objs :
      (o : ConfigObject)
      → KeptByPush P o.addr
      → (ous r : List OuInfo) → At P a ous
      → set_fw_objs_refs env ous o ≡ some r
      → At P a r
  unfolding set_fw_objs_refs
  At-fw_objs o push ous r h e =
      elim (Option-cases (cbcc_json_parse_from_buffer env.lib o.obj_data fw_requests)) [
        | inl n ↦ absurd (cc (rw n at e))
        | inr (none, n) ↦ subst (At P a) (cc (rw n at e)) h
        | inr (some is, n) ↦
            subst (At P a) (cc (rw n at e))
              (At-fw P a o.addr push (map (text_item env.dev.uninit) is) ous h)
      ]

  At-by_type :
      (o : ConfigObject) (type : ObjectType)
      → KeptByPush P o.addr
      → (ous r : List OuInfo) → At P a ous
      → refs_by_type env ous o type ≡ some r
      → At P a r
  unfolding refs_by_type
  At-by_type o net_group_type push ous r h e = At-grp_objs o push ous r h e
  At-by_type o service_group_type push ous r h e = At-grp_objs o push ous r h e
  At-by_type o fw_type push ous r h e = At-fw_objs o push ous r h e
  At-by_type o type push ous r h e = subst (At P a) (cc) h

  At-refresh :
      (o : ConfigObject)
      → KeptByPush P o.addr
      → KeptByFree P
      → (ous r : List OuInfo) → At P a ous
      → refresh env ous o ≡ some r
      → At P a r
  unfolding refresh set_obj_refs refs_by_type set_grp_objs_refs set_fw_objs_refs
  At-refresh o push free ous r h e = elim (Bool-cases o.is_set) [
    | inl y ↦
        At-by_type o o.obj_type push _ r
          (At-modify P P a o.addr free_obj_ref_list (λ p. refl) (λ p. refl)
            (λ p q. free p.ref_objs q) (λ p n q. q) ous h)
          (rw y at e)
    | inr y ↦ subst (At P a) (cc (rw y at e)) h
  ]

  -- The loop over objects whose references the property allows.
  At-refresh_all :
      (todo : List ℕ)
      → ((b : ℕ) → Among todo b → KeptByPush P b)
      → KeptByFree P
      → (ous r : List OuInfo) → At P a ous
      → refresh_all env ous todo ≡ some r
      → At P a r
  unfolding refresh_all
  At-refresh_all [] push free ous r h e = subst (At P a) (cc) h
  At-refresh_all (b ∷ bs) push free ous r h e = elim (Option-cases (find_addr (located ous) b)) [
    | inl n ↦ absurd (cc (rw n at e))
    | inr (l, n) ↦ elim (Option-cases (refresh env ous l.1)) [
      | inl m ↦ absurd (cc (rw (n, m) at e))
      | inr (next, m) ↦
          let own = subst (KeptByPush P) (sym (find_addr-addr _ b l n)) (push b (inl refl)) in
          At-refresh_all bs (λ c k. push c (inr k)) free next r
            (At-refresh l.1 own free ous next h m) (rw (n, m) at e)
    ]
  ]

abbrev Anything : Refs → Type 0
Anything r = Unit {0}

refresh_all-append :
    (env : ConfigEnv) (pre rest : List ℕ) (ous r : List OuInfo)
    → refresh_all env ous (pre ++ rest) ≡ some r
    → (mid : List OuInfo) × (refresh_all env ous pre ≡ some mid)
      × (refresh_all env mid rest ≡ some r)
unfolding refresh_all
refresh_all-append env [] rest ous r e = (ous, refl, e)
refresh_all-append env (a ∷ pre) rest ous r e = elim (Option-cases (find_addr (located ous) a)) [
  | inl n ↦ absurd (cc (rw n at e))
  | inr (l, n) ↦ elim (Option-cases (refresh env ous l.1)) [
    | inl m ↦ absurd (cc (rw (n, m) at e))
    | inr (next, m) ↦
        let (mid, f, g) = refresh_all-append env pre rest next r (rw (n, m) at e) in
        (mid, rw (n, m) f, g)
  ]
]

Within-free : (s : List ℕ) (r : Refs) → Within s (free_refs r)
Within-free s (refs []) = tt
Within-free s (refs (a ∷ rs)) = tt
Within-free s freed_refs = tt

-- The turn of the object itself: what is left is added by the object.
At-own :
    (env : ConfigEnv) (s : List ℕ) (a : ℕ) (mid next : List OuInfo)
    → Among s a
    → (h : At Anything a mid) → refresh env mid h.obj.1 ≡ some next
    → At (Within s) a next
unfolding refresh set_obj_refs refs_by_type set_grp_objs_refs set_fw_objs_refs
At-own env s a mid next k h e =
    let o = h.obj.1 in
    let same : o.addr ≡ a = find_addr-addr _ a h.obj h.found in
    let freed =
      At-modify Anything (Within s) a o.addr free_obj_ref_list (λ p. refl) (λ p. refl)
        (λ p q. Within-free s p.ref_objs) (λ p n q. absurd (n same)) mid h in
    At-by_type env (Within s) a o o.obj_type (λ r w. Within-push s o.addr (rw same k) r w)
      (modify_object o.addr free_obj_ref_list mid) next freed (rw h.is_set at e)

-- Whatever refers to a set object after set_config_objs_refs stands at or after the object in the
-- order of the OUs and their lists: an object that only earlier ones refer to counts as unused.
pub set_config_objs_refs-later :
    (env : ConfigEnv) (ous r : List OuInfo) (pre post : List ℕ) (a : ℕ) (l : Located)
    → addrs ous ≡ pre ++ (a ∷ post)
    → find_addr (located ous) a ≡ some l
    → l.1.is_set ≡ true
    → set_config_objs_refs env ous ≡ some r
    → (m : Located) × (find_addr (located r) a ≡ some m) × Within (a ∷ post) m.1.ref_objs
unfolding set_config_objs_refs refresh_all
set_config_objs_refs-later env ous r pre post a l e f s done =
    let start : At Anything a ous = record { obj = l; found = f; is_set = s; chained = tt } in
    let (mid, b, c) = refresh_all-append env pre (a ∷ post) ous r (rw e at done) in
    let here = At-refresh_all env Anything a pre (λ c k q p. tt) (λ q p. tt) ous mid start b in
    elim (Option-cases (refresh env mid here.obj.1)) [
      | inl n ↦ absurd (cc (rw (here.found, n, refresh_all) at c))
      | inr (next, n) ↦
          let own = At-own env (a ∷ post) a mid next (inl refl) here n in
          let last =
            At-refresh_all env (Within (a ∷ post)) a post (λ b k. Within-push (a ∷ post) b (inr k))
              (λ q p. Within-free (a ∷ post) q) next r own (rw (here.found, n, refresh_all) at c) in
          (last.obj, last.found, last.chained)
    ]
