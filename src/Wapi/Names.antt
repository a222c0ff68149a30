-- ===== src/Wapi/Names.antt =====
-- Each action has one name, and each name one action.
use chroot_cbccd.Base.{
  ℕ, zero, suc, ◌+◌, ◌-◌, ◌<◌, ◌≤◌, ◌≡◌, ◌≢◌, ◌↔◌, ◌⊎◌, inl, inr, refl, sym, ◌∙◌, Bool, true, false,
  Option, none, some, List, [], ◌∷◌, arith, length, get_elem?, ◌==◌, Bool-cases, all_below,
  all_below_sound, Text, codes, str_eq, str_eq_iff,
}
use chroot_cbccd.Wapi.ActType.{
  ActType, add_act, delete_act, edit_act, get_act, list_act, reboot_act, shutdown_act, prefetch_act,
  firmware_act, pattern_act, create_backup_act, delete_backup_act, restore_backup_act, add_obj_act,
  delete_obj_act, edit_obj_act, get_cache_act, get_cache_rev_act, create_ou_act, edit_ou_act,
  delete_ou_act, set_default_ou_act, delete_dev_act, deny_dev_act, allow_dev_act, get_web_cred_act,
  unknown_type, all_acts, act_from, act_number, act_of, act_type_strs, act_index, get_wapi_act_type,
}

eq_of_test : (a b : ℕ) → (a == b) ≡ true → a ≡ b
eq_of_test a b h = ground arith

get_elem?-lt {ℓ} :
    {A : Type ℓ} (xs : List A) (i : ℕ) (x : A) → get_elem? xs i ≡ some x → i < length xs
get_elem?-lt [] i x e = absurd (cc (e))
get_elem?-lt (y ∷ xs) zero x e = omega arith
get_elem?-lt (y ∷ xs) (suc i) x e = omega (arith, get_elem?-lt xs i x e)

-- The loop stops at the name, or past the end.
act_index-found :
    (i : ℕ) (ns : List Text) (s : Text)
    → (act_index i ns s ≡ 26)
      ⊎ ((i ≤ act_index i ns s) × (get_elem? ns (act_index i ns s - i) ≡ some s))
unfolding act_index
act_index-found i [] s = inl refl
act_index-found i (n ∷ ns) s = elim (Bool-cases (str_eq s n)) [
  | inl y ↦
      let off : i - i ≡ 0 = omega arith in
      let same = (str_eq_iff s n).0 y in rw y (inr (omega arith, rw (off, same) refl))
  | inr z ↦ elim (act_index-found (i + 1) ns s) [
    | inl past ↦ rw z (inl past)
    | inr (le, at) ↦
        let k = act_index (i + 1) ns s in
        let off : k - i ≡ suc (k - (i + 1)) = omega (arith, le) in
        rw z (inr (omega (arith, le), rw off at))
  ]
]

act_from-elem :
    (acts : List ActType) (n : ℕ) (a : ActType)
    → act_from acts n ≡ a
    → a ≢ unknown_type
    → get_elem? acts n ≡ some a
act_from-elem [] n a e h = absurd (h (sym e))
act_from-elem (b ∷ acts) zero a e h = rw e refl
act_from-elem (b ∷ acts) (suc n) a e h = act_from-elem acts n a e h

numbered : all_below 26 (λ n. act_number (act_of n) == n) ≡ true
unfolding all_below
numbered = refl

-- A number that stands for an action is the action's number.
act_of-number : (n : ℕ) (a : ActType) → act_of n ≡ a → a ≢ unknown_type → n ≡ act_number a
act_of-number n a e h =
    let lt = get_elem?-lt all_acts n a (act_from-elem all_acts n a e h) in
    let there =
      all_below_sound 26 (λ m. act_number (act_of m) == m) n numbered (omega (arith, lt)) in
    rw (← e) (sym (eq_of_test (act_number (act_of n)) n there))

act_number-of : (a : ActType) → act_of (act_number a) ≡ a
act_number-of add_act = refl
act_number-of delete_act = refl
act_number-of edit_act = refl
act_number-of get_act = refl
act_number-of list_act = refl
act_number-of reboot_act = refl
act_number-of shutdown_act = refl
act_number-of prefetch_act = refl
act_number-of firmware_act = refl
act_number-of pattern_act = refl
act_number-of create_backup_act = refl
act_number-of delete_backup_act = refl
act_number-of restore_backup_act = refl
act_number-of add_obj_act = refl
act_number-of delete_obj_act = refl
act_number-of edit_obj_act = refl
act_number-of get_cache_act = refl
act_number-of get_cache_rev_act = refl
act_number-of create_ou_act = refl
act_number-of edit_ou_act = refl
act_number-of delete_ou_act = refl
act_number-of set_default_ou_act = refl
act_number-of delete_dev_act = refl
act_number-of deny_dev_act = refl
act_number-of allow_dev_act = refl
act_number-of get_web_cred_act = refl
act_number-of unknown_type = refl

indexed : ℕ → Option Text → Bool
indexed i none = false
indexed i (some name) = act_index 0 act_type_strs name == i

indices : all_below 26 (λ i. indexed i (get_elem? act_type_strs i)) ≡ true
unfolding all_below indexed act_index str_eq
indices = refl

get_wapi_act_type-elem :
    (name : Text) (a : ActType)
    → a ≢ unknown_type
    → (get_wapi_act_type name ≡ a) ↔ (get_elem? act_type_strs (act_number a) ≡ some name)
unfolding get_wapi_act_type indexed
get_wapi_act_type-elem name a h = (
  λ e.
      let k = act_index 0 act_type_strs name in
      elim (act_index-found 0 act_type_strs name) [
        | inl past ↦ absurd (h (sym e ∙ rw past refl))
        | inr (le, at) ↦ let off : k - 0 ≡ k = omega arith in rw (← act_of-number k a e h, ← off) at
      ],
  λ e.
      let lt = get_elem?-lt act_type_strs (act_number a) name e in
      let found =
        all_below_sound 26 (λ i. indexed i (get_elem? act_type_strs i)) (act_number a) indices
          (omega (arith, lt)) in
      let here : (act_index 0 act_type_strs name == act_number a) ≡ true = rw e at found in
      let same = eq_of_test (act_index 0 act_type_strs name) (act_number a) here in
      rw same (act_number-of a),
)

-- The protocol: the word for each action.
abbrev pub act_name : ActType → Text
act_name add_act = codes "add"
act_name delete_act = codes "delete"
act_name edit_act = codes "edit"
act_name get_act = codes "get"
act_name list_act = codes "list"
act_name reboot_act = codes "reboot_device"
act_name shutdown_act = codes "shutdown_device"
act_name prefetch_act = codes "prefetch_update"
act_name firmware_act = codes "install_firmware"
act_name pattern_act = codes "install_pattern"
act_name create_backup_act = codes "create_backup"
act_name delete_backup_act = codes "delete_backup"
act_name restore_backup_act = codes "restore_backup"
act_name add_obj_act = codes "add_object"
act_name delete_obj_act = codes "delete_object"
act_name edit_obj_act = codes "edit_object"
act_name get_cache_act = codes "get_cache"
act_name get_cache_rev_act = codes "get_cache_rev"
act_name create_ou_act = codes "create_ou"
act_name edit_ou_act = codes "edit_ou"
act_name delete_ou_act = codes "delete_ou"
act_name set_default_ou_act = codes "set_default_ou"
act_name delete_dev_act = codes "delete_dev"
act_name deny_dev_act = codes "deny_dev"
act_name allow_dev_act = codes "allow_dev"
act_name get_web_cred_act = codes "get_web_cred"
act_name unknown_type = []

named :
    (a : ActType) → a ≢ unknown_type → get_elem? act_type_strs (act_number a) ≡ some (act_name a)
named add_act h = refl
named delete_act h = refl
named edit_act h = refl
named get_act h = refl
named list_act h = refl
named reboot_act h = refl
named shutdown_act h = refl
named prefetch_act h = refl
named firmware_act h = refl
named pattern_act h = refl
named create_backup_act h = refl
named delete_backup_act h = refl
named restore_backup_act h = refl
named add_obj_act h = refl
named delete_obj_act h = refl
named edit_obj_act h = refl
named get_cache_act h = refl
named get_cache_rev_act h = refl
named create_ou_act h = refl
named edit_ou_act h = refl
named delete_ou_act h = refl
named set_default_ou_act h = refl
named delete_dev_act h = refl
named deny_dev_act h = refl
named allow_dev_act h = refl
named get_web_cred_act h = refl
named unknown_type h = absurd (h refl)

-- For every text and every action but UNKNOWN: get_wapi_act_type gives the action for the text
-- exactly if the text is the action's word.
pub get_wapi_act_type-names :
    (name : Text) (a : ActType)
    → a ≢ unknown_type
    → (get_wapi_act_type name ≡ a) ↔ (name ≡ act_name a)
get_wapi_act_type-names name a h =
    let (to, from) = get_wapi_act_type-elem name a h in
    let there = named a h in (λ e. let got = to e in cc (got, there), λ e. from (rw e there))
