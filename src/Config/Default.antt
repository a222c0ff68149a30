-- ===== src/Config/Default.antt =====
-- The default OU: its flag and the pointer to it.
use chroot_cbccd.Base.{
  ◌≡◌, refl, sym, ◌∙◌, Bool, true, false, Option, none, some, List, [], ◌∷◌, arith, inl, inr,
  Bool-cases, Text, codes, str_eq, str_eq_iff,
}
use chroot_cbccd.Json.Edit.{cbcc_json_build, build_members, build_one, build_value, in_parent}
use chroot_cbccd.Device.{DeviceMgr}
use chroot_cbccd.Config.{OuInfo, ConfigMgr, find_ou, get_ou_info, modify_ou, set_flag}
use chroot_cbccd.Config.References.{ConfigEnv}
use chroot_cbccd.Config.Deploy.{text_jobj}
use chroot_cbccd.Config.Manage.{
  Answer, same_ou, switch_default, default_changed, default_stored, cbccd_config_set_default_ou,
}
use chroot_cbccd.Config.Removal.{DistinctGuids, default_guid-some}

-- Just the OU that is pointed to has the flag.
abbrev pub AllFlagged : Option Text → List OuInfo → Type 0
AllFlagged def [] = Unit {0}
AllFlagged def (ou ∷ ous) = (ou.is_default ≡ same_ou def ou.ou_guid) × AllFlagged def ous

find-modify_ou_missing :
    (b : Bool) (ous : List OuInfo) (g h : Text)
    → find_ou ous h ≡ none
    → find_ou (modify_ou g (set_flag b) ous) h ≡ none
unfolding find_ou modify_ou
find-modify_ou_missing b [] g h e = refl
find-modify_ou_missing b (p ∷ ps) g h e = ground (arith, find-modify_ou_missing b ps g h)

DistinctGuids-modify :
    (b : Bool) (ous : List OuInfo) (g : Text)
    → DistinctGuids ous
    → DistinctGuids (modify_ou g (set_flag b) ous)
unfolding modify_ou
DistinctGuids-modify b [] g v = tt
DistinctGuids-modify b (p ∷ ps) g v = elim (Bool-cases (str_eq p.ou_guid g)) [
  | inl y ↦ rw y v
  | inr y ↦ rw y (find-modify_ou_missing b ps g p.ou_guid v.0, DistinctGuids-modify b ps g v.1)
]

-- A pointer to an OU that is not in the list is as good as none.
AllFlagged-missing :
    (ous : List OuInfo) (g : Text)
    → find_ou ous g ≡ none
    → (AllFlagged (some g) ous → AllFlagged none ous)
      × (AllFlagged none ous → AllFlagged (some g) ous)
unfolding find_ou
AllFlagged-missing [] g e = (λ h. tt, λ h. tt)
AllFlagged-missing (p ∷ ps) g e = elim (Bool-cases (str_eq p.ou_guid g)) [
  | inl y ↦ absurd (cc (rw y at e))
  | inr y ↦
      let ih = AllFlagged-missing ps g (rw y at e) in
      let other : str_eq g p.ou_guid ≡ false =
        ground (arith, y, str_eq_iff g p.ou_guid, str_eq_iff p.ou_guid g) in
      (λ h. (h.0 ∙ other, ih.0 h.1), λ h. (h.0 ∙ sym other, ih.1 h.1))
]

AllFlagged-clear :
    (ous : List OuInfo) (g : Text)
    → DistinctGuids ous
    → AllFlagged (some g) ous
    → AllFlagged none (modify_ou g (set_flag false) ous)
unfolding modify_ou
AllFlagged-clear [] g v h = tt
AllFlagged-clear (p ∷ ps) g v h = elim (Bool-cases (str_eq p.ou_guid g)) [
  | inl y ↦ rw y (refl, (AllFlagged-missing ps g (rw ((str_eq_iff p.ou_guid g).0 y) at v.0)).0 h.1)
  | inr y ↦
      let other : str_eq g p.ou_guid ≡ false =
        ground (arith, y, str_eq_iff g p.ou_guid, str_eq_iff p.ou_guid g) in
      rw y (h.0 ∙ other, AllFlagged-clear ps g v.1 h.1)
]

AllFlagged-set :
    (ous : List OuInfo) (g : Text)
    → DistinctGuids ous
    → AllFlagged none ous
    → AllFlagged (some g) (modify_ou g (set_flag true) ous)
unfolding modify_ou
AllFlagged-set [] g v h = tt
AllFlagged-set (p ∷ ps) g v h = elim (Bool-cases (str_eq p.ou_guid g)) [
  | inl y ↦
      let same = (str_eq_iff p.ou_guid g).0 y in
      rw y (
        sym ((str_eq_iff g p.ou_guid).1 (sym same)),
        (AllFlagged-missing ps g (rw same at v.0)).1 h.1,
      )
  | inr y ↦
      let other : str_eq g p.ou_guid ≡ false =
        ground (arith, y, str_eq_iff g p.ou_guid, str_eq_iff p.ou_guid g) in
      rw y (h.0 ∙ sym other, AllFlagged-set ps g v.1 h.1)
]

default_text :
    (env : ConfigEnv) (guid : Text)
    → (t : Text) × (cbcc_json_build env.lib (text_jobj (codes "default") guid ∷ []) ≡ some t)
unfolding cbcc_json_build build_members build_one build_value in_parent
default_text env guid = (_, refl)

-- Making a known OU the default one, where the old default one is there, OUs have distinct guids
-- and just the default one has the flag: it is defined, the OU is the default one, just it has the
-- flag, and guids stay distinct.
pub set_default_ou_lem :
    (env : ConfigEnv) (m : ConfigMgr) (devs : DeviceMgr) (guid old : Text) (ou was : OuInfo)
    → DistinctGuids m.ou_list.ou_infos
    → AllFlagged (some old) m.ou_list.ou_infos
    → get_ou_info m.ou_list guid ≡ some ou
    → m.ou_list.default_ou_info ≡ some old
    → find_ou m.ou_list.ou_infos old ≡ some was
    → (a : Answer) × (cbccd_config_set_default_ou env m devs guid ≡ some a)
      × (a.mgr.ou_list.default_ou_info ≡ some guid)
      × AllFlagged (some guid) a.mgr.ou_list.ou_infos
      × DistinctGuids a.mgr.ou_list.ou_infos
unfolding cbccd_config_set_default_ou switch_default
set_default_ou_lem env m devs guid old ou was d flags e def f =
    let ous = m.ou_list.ou_infos in
    let cleared = DistinctGuids-modify false ous old d in
    let (t, built) = default_text env guid in
    (
      default_stored m devs (default_changed m.ou_list old guid) t,
      rw (e, cbccd_config_set_default_ou, default_guid-some m.ou_list old was def f, built) refl,
      refl,
      AllFlagged-set (modify_ou old (set_flag false) ous) guid cleared
          (AllFlagged-clear ous old d flags),
      DistinctGuids-modify true (modify_ou old (set_flag false) ous) guid cleared,
    )
