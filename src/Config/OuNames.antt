-- ===== src/Config/OuNames.antt =====
-- The list of OUs under the operations that create, rename and remove them.
use chroot_cbccd.Base.{
  ℕ, ◌+◌, ◌<◌, ◌≡◌, refl, ap, ◌∙◌, lt→ltb, ltb, Bool, true, false, ◌||◌, Option, none, some, List,
  [], ◌∷◌, ◌++◌, arith, inl, inr, length, length-append, ne→==, if◌then◌else◌, Bool-cases, Text,
  str_eq, str_eq_iff,
}
use chroot_cbccd.Config.{
  OuInfo, OuList, ConfigMgr, find_ou, get_ou_info, unlink_ou, remove_ou_info, new_ou, append_ou,
  extend, add_ou_info,
}
use chroot_cbccd.Config.References.{ConfigEnv}
use chroot_cbccd.Json.Edit.{cbcc_json_build, build_members, build_one, build_value, in_parent}
use chroot_cbccd.Device.{DeviceMgr, Call, ou_name_duplicate}
use chroot_cbccd.Config.Manage.{
  Answer, unchanged, created, set_devices, has_name, set_ou_info_into_db, cbccd_config_create_ou,
}

-- The count is the length of the list.
abbrev pub IsCounted : OuList → Type 0
IsCounted l = l.count ≡ length l.ou_infos

abbrev pub is_defined : Option OuList → Bool
is_defined none = false
is_defined (some l) = true

extend-more : (n : ℕ) (ous : List OuInfo) (ou : OuInfo) → 0 < n → extend n ous ou ≡ append_ou ous ou
extend-more n ous ou h = rw (ne→== n 0 (omega arith)) refl

extend-length :
    (ous : List OuInfo) (ou : OuInfo) → extend (length ous) ous ou ≡ some (ous ++ (ou ∷ []))
extend-length [] ou = refl
extend-length (p ∷ ps) ou = extend-more _ (p ∷ ps) ou (omega arith)

add-some :
    (l : OuList) (guid name : Text) (ous : List OuInfo)
    → extend l.count l.ou_infos (new_ou guid name) ≡ some ous
    → add_ou_info l guid name ≡ some (record l { ou_infos = ous; count = l.count + 1 })
unfolding add_ou_info
add-some l guid name ous e = rw (e, add_ou_info) refl

add-none :
    (l : OuList) (guid name : Text)
    → extend l.count l.ou_infos (new_ou guid name) ≡ none
    → add_ou_info l guid name ≡ none
unfolding add_ou_info
add-none l guid name e = rw (e, add_ou_info) refl

length-unlink_ou :
    (ous : List OuInfo) (guid : Text) (ou : OuInfo)
    → find_ou ous guid ≡ some ou
    → length (unlink_ou guid ous) + 1 ≡ length ous
unfolding find_ou unlink_ou
length-unlink_ou [] guid ou e = absurd (cc)
length-unlink_ou (p ∷ ps) guid ou e = elim (Bool-cases (str_eq p.ou_guid guid)) [
  | inl y ↦ rw y (omega arith)
  | inr y ↦ let ih = length-unlink_ou ps guid ou (rw y at e) in rw y (omega (arith, ih))
]

-- A counted list can be added to, stays counted, and gains the OU at its end.
add-IsCounted :
    (l : OuList) (guid name : Text)
    → IsCounted l
    → (r : OuList) × (add_ou_info l guid name ≡ some r)
      × IsCounted r
      × (r.ou_infos ≡ l.ou_infos ++ (new_ou guid name ∷ []))
add-IsCounted l guid name e =
    let ous = l.ou_infos ++ (new_ou guid name ∷ []) in
    (
      record l { ou_infos = ous; count = l.count + 1 },
      add-some l guid name ous
          (ap (λ n. extend n l.ou_infos (new_ou guid name)) e ∙ extend-length _ _),
      omega (arith, e, length-append l.ou_infos (new_ou guid name ∷ [])),
      refl,
    )

add_to_list :
    (l : OuList) (guid name : Text)
    → 0 < l.count
    → is_defined (add_ou_info l guid name) ≡ ltb 0 (length l.ou_infos)
add_to_list l guid name h = go l.ou_infos refl (extend-more l.count l.ou_infos (new_ou guid name) h)
  where
    go :
        (ous : List OuInfo)
        → l.ou_infos ≡ ous
        → extend l.count l.ou_infos (new_ou guid name) ≡ append_ou l.ou_infos (new_ou guid name)
        → is_defined (add_ou_info l guid name) ≡ ltb 0 (length ous)
    go [] e f = rw (add-none l guid name (f ∙ ap (λ os. append_ou os (new_ou guid name)) e)) refl
    go (p ∷ ps) e f =
        rw
          (
            add-some l guid name (p ∷ (ps ++ (new_ou guid name ∷ [])))
                (f ∙ ap (λ os. append_ou os (new_ou guid name)) e),
            lt→ltb 0 (length (p ∷ ps)) (omega arith),
          )
          refl

-- After an OU of a counted list was removed, adding an OU is defined exactly if the list had at
-- least two: removing leaves the count, and with the last OU gone the walk to the end starts at
-- NULL.
pub add_ou_info-remove :
    (l : OuList) (gone guid name : Text) (ou : OuInfo)
    → IsCounted l
    → get_ou_info l gone ≡ some ou
    → is_defined (add_ou_info (remove_ou_info l gone) guid name) ≡ ltb 1 (length l.ou_infos)
unfolding remove_ou_info get_ou_info
add_ou_info-remove l gone guid name ou c e =
    let found : find_ou l.ou_infos gone ≡ some ou = ground (arith, e) in
    let shorter = length-unlink_ou l.ou_infos gone ou found in
    let added = add_to_list (remove_ou_info l gone) guid name (omega (arith, c, shorter)) in
    rw added (ground (arith, shorter))

-- No two OUs have one name.
abbrev pub DistinctNames : List OuInfo → Type 0
DistinctNames [] = Unit {0}
DistinctNames (ou ∷ ous) = (has_name ou.ou_name ous ≡ false) × DistinctNames ous

has_name-append :
    (ous : List OuInfo) (ou : OuInfo) (name : Text)
    → has_name name (ous ++ (ou ∷ [])) ≡ (has_name name ous || str_eq name ou.ou_name)
unfolding has_name
has_name-append [] ou name = ground arith
has_name-append (p ∷ ps) ou name = ground (arith, has_name-append ps ou name)

DistinctNames-append :
    (ous : List OuInfo) (ou : OuInfo)
    → DistinctNames ous
    → has_name ou.ou_name ous ≡ false
    → DistinctNames (ous ++ (ou ∷ []))
unfolding has_name
DistinctNames-append [] ou d h = (refl, tt)
DistinctNames-append (p ∷ ps) ou d h = (
  ground (
    arith,
    d.0,
    h,
    has_name-append ps ou p.ou_name,
    str_eq_iff p.ou_name ou.ou_name,
    str_eq_iff ou.ou_name p.ou_name,
  ),
  DistinctNames-append ps ou d.1 (ground (arith, h, str_eq_iff ou.ou_name p.ou_name)),
)

module _ (env : ConfigEnv) (m : ConfigMgr) (devs : DeviceMgr) (guid name comment : Text) where
  pub info_written : (calls : List Call) × (set_ou_info_into_db env guid name comment ≡ some calls)
  unfolding set_ou_info_into_db cbcc_json_build build_members build_one build_value in_parent
  info_written = (_, refl)

  create_new :
      (dev_guids : List Text) (l : OuList)
      → has_name name m.ou_list.ou_infos ≡ false
      → add_ou_info m.ou_list guid name ≡ some l
      → (a : Answer) × (cbccd_config_create_ou env m devs guid name comment dev_guids ≡ some a)
        × (a.mgr.ou_list ≡ l)
  unfolding cbccd_config_create_ou
  create_new dev_guids l h e =
      let (calls, f) = info_written in
      (created m l calls (set_devices env devs guid dev_guids), rw (h, e, f) refl, refl)

-- cbccd_config_create_ou of a counted list whose names are distinct ends with such a list: a name
-- that is there is refused and the list is as it was, and else the list gains the new OU at its
-- end.
create_ou-DistinctNames :
    (env : ConfigEnv) (m : ConfigMgr) (devs : DeviceMgr) (guid name comment : Text)
    (dev_guids : List Text)
    → IsCounted m.ou_list
    → DistinctNames m.ou_list.ou_infos
    → (a : Answer) × (cbccd_config_create_ou env m devs guid name comment dev_guids ≡ some a)
      × IsCounted a.mgr.ou_list
      × DistinctNames a.mgr.ou_list.ou_infos
      × (a.mgr.ou_list.ou_infos ≡ (
          if has_name name m.ou_list.ou_infos
          then m.ou_list.ou_infos
          else m.ou_list.ou_infos ++ (new_ou guid name ∷ [])))
unfolding cbccd_config_create_ou
create_ou-DistinctNames env m devs guid name comment dev_guids c d =
    elim (Bool-cases (has_name name m.ou_list.ou_infos)) [
      | inl y ↦ (unchanged ou_name_duplicate m devs, rw y refl, c, d, rw y refl)
      | inr y ↦
          let (l, e, counted, longer) = add-IsCounted m.ou_list guid name c in
          let (a, f, g) = create_new env m devs guid name comment dev_guids l y e in
          (
            a,
            f,
            rw g counted,
            rw (g, longer) (DistinctNames-append m.ou_list.ou_infos (new_ou guid name) d y),
            rw (g, y) longer,
          )
    ]
