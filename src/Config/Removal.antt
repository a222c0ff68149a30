-- ===== src/Config/Removal.antt =====
-- Editing and deleting an OU, with the devices that it has.
use chroot_cbccd.Base.{
  ◌≡◌, ◌≢◌, refl, ◌∙◌, true, false, not, ◌&&◌, none, some, List, [], ◌∷◌, map, arith, inl, inr,
  Bool-cases, Text, str_eq, str_eq_iff,
}
use chroot_cbccd.Device.{DeviceInfo, DeviceMgr, ok, ou_name_duplicate}
use chroot_cbccd.Device.Pool.{IsValid}
use chroot_cbccd.Config.{
  OuInfo, OuList, ConfigMgr, find_ou, get_ou_info, unlink_ou, remove_ou_info, modify_ou,
}
use chroot_cbccd.Config.References.{ConfigEnv}
use chroot_cbccd.Config.Manage.{
  Answer, in_list, same_ou, default_guid, set_name, renamed, edited_ou, deleted_ou, unchanged,
  rename_ou, taken_by_other, switch_default, cbccd_config_edit_ou, cbccd_config_delete_ou,
  cbccd_config_set_default_ou,
}
use chroot_cbccd.Config.Moves.{placed, with_devices, move_devices-placed}
use chroot_cbccd.Config.OuNames.{info_written}

-- No two OUs have one guid.
abbrev pub DistinctGuids : List OuInfo → Type 0
DistinctGuids [] = Unit {0}
DistinctGuids (ou ∷ ous) = (find_ou ous ou.ou_guid ≡ none) × DistinctGuids ous

find-unlink_ou_self :
    (ous : List OuInfo) (g : Text) → DistinctGuids ous → find_ou (unlink_ou g ous) g ≡ none
unfolding find_ou unlink_ou
find-unlink_ou_self [] g v = refl
find-unlink_ou_self (p ∷ ps) g v =
    ground (arith, find-unlink_ou_self ps g v.1, v.0, str_eq_iff p.ou_guid g)

find-unlink_ou_ne :
    (ous : List OuInfo) (g h : Text) → g ≢ h → find_ou (unlink_ou g ous) h ≡ find_ou ous h
unfolding find_ou unlink_ou
find-unlink_ou_ne [] g h n = refl
find-unlink_ou_ne (p ∷ ps) g h n =
    ground (arith, find-unlink_ou_ne ps g h n, str_eq_iff p.ou_guid g, str_eq_iff p.ou_guid h)

pub find-modify_ou_self :
    (f : OuInfo → OuInfo) (ous : List OuInfo) (g : Text) (ou : OuInfo)
    → ((p : OuInfo) → (f p).ou_guid ≡ p.ou_guid)
    → find_ou ous g ≡ some ou
    → find_ou (modify_ou g f ous) g ≡ some (f ou)
unfolding find_ou modify_ou
find-modify_ou_self f [] g ou k e = cc
find-modify_ou_self f (p ∷ ps) g ou k e =
    ground (arith, find-modify_ou_self f ps g ou k, k p, str_eq_iff p.ou_guid g)

pub find-modify_ou_ne :
    (f : OuInfo → OuInfo) (ous : List OuInfo) (g h : Text)
    → ((p : OuInfo) → (f p).ou_guid ≡ p.ou_guid)
    → g ≢ h
    → find_ou (modify_ou g f ous) h ≡ find_ou ous h
unfolding find_ou modify_ou
find-modify_ou_ne f [] g h k n = refl
find-modify_ou_ne f (p ∷ ps) g h k n =
    ground
      (arith, find-modify_ou_ne f ps g h k n, k p, str_eq_iff p.ou_guid g, str_eq_iff p.ou_guid h)

pub get_ou_info-find :
    (l : OuList) (g : Text) (ou : OuInfo)
    → get_ou_info l g ≡ some ou
    → find_ou l.ou_infos g ≡ some ou
unfolding get_ou_info
get_ou_info-find l g ou e = ground (arith, e)

pub default_guid-some :
    (l : OuList) (home : Text) (ou : OuInfo)
    → l.default_ou_info ≡ some home
    → find_ou l.ou_infos home ≡ some ou
    → default_guid l ≡ some home
unfolding default_guid
default_guid-some l home ou e f = rw (e, f) refl

-- No device has the OU.
abbrev pub NoneIn : Text → List DeviceInfo → Type 0
NoneIn guid [] = Unit {0}
NoneIn guid (d ∷ ds) = (same_ou d.ou_info guid ≡ false) × NoneIn guid ds

NoneIn-placed :
    (guid home : Text) (ds : List DeviceInfo)
    → guid ≢ home
    → NoneIn guid (map (placed guid home []) ds)
unfolding in_list
NoneIn-placed guid home [] n = tt
NoneIn-placed guid home (d ∷ ds) n =
    (ground (arith, n, str_eq_iff home guid), NoneIn-placed guid home ds n)

-- Deleting a known OU that is not the default one, where the default one is there, OUs have
-- distinct guids and the list of devices is valid: it is defined, the OU is gone and the others are
-- as they were, and each device that had it has the default one, all else about devices being as it
-- was.
pub delete_ou_lem :
    (env : ConfigEnv) (m : ConfigMgr) (devs : DeviceMgr) (guid home : Text) (ou h : OuInfo)
    → IsValid devs
    → DistinctGuids m.ou_list.ou_infos
    → get_ou_info m.ou_list guid ≡ some ou
    → m.ou_list.default_ou_info ≡ some home
    → find_ou m.ou_list.ou_infos home ≡ some h
    → guid ≢ home
    → (a : Answer) × (cbccd_config_delete_ou env m devs guid ≡ some a)
      × (find_ou a.mgr.ou_list.ou_infos guid ≡ none)
      × ((g : Text) → guid ≢ g → find_ou a.mgr.ou_list.ou_infos g ≡ find_ou m.ou_list.ou_infos g)
      × (a.devs.dev_infos ≡ map (placed guid home []) devs.dev_infos)
      × NoneIn guid a.devs.dev_infos
unfolding cbccd_config_delete_ou remove_ou_info
delete_ou_lem env m devs guid home ou h v d e def f n =
    let (calls, moved) =
      move_devices-placed env m.ou_list devs guid home [] (default_guid-some m.ou_list home h def f)
        v.distinct in
    (
      deleted_ou m guid (with_devices devs (map (placed guid home []) devs.dev_infos), calls),
      rw (e, cbccd_config_delete_ou, moved) refl,
      find-unlink_ou_self m.ou_list.ou_infos guid d,
      λ g k. find-unlink_ou_ne m.ou_list.ou_infos guid g k,
      refl,
      NoneIn-placed guid home devs.dev_infos n,
    )

-- Deleting the default OU leaves no default one that can be replaced: the pointer to it dangles,
-- and making any OU the default one from then on writes through it.
pub delete_default_ou :
    (env : ConfigEnv) (m : ConfigMgr) (devs : DeviceMgr) (guid : Text) (ou : OuInfo)
    → IsValid devs
    → DistinctGuids m.ou_list.ou_infos
    → get_ou_info m.ou_list guid ≡ some ou
    → m.ou_list.default_ou_info ≡ some guid
    → (a : Answer) × (cbccd_config_delete_ou env m devs guid ≡ some a)
      × ((later : DeviceMgr) (other : Text) (q : OuInfo)
          → get_ou_info a.mgr.ou_list other ≡ some q
          → cbccd_config_set_default_ou env a.mgr later other ≡ none)
unfolding cbccd_config_delete_ou cbccd_config_set_default_ou switch_default default_guid
    remove_ou_info
delete_default_ou env m devs guid ou v d e def =
    let (calls, moved) =
      move_devices-placed env m.ou_list devs guid guid []
        (default_guid-some m.ou_list guid ou def (get_ou_info-find m.ou_list guid ou e))
        v.distinct in
    (
      deleted_ou m guid (with_devices devs (map (placed guid guid []) devs.dev_infos), calls),
      rw (e, cbccd_config_delete_ou, moved) refl,
      λ later other q k.
          rw (k, cbccd_config_set_default_ou, def, find-unlink_ou_self m.ou_list.ou_infos guid d)
            refl,
    )

find-renamed :
    (l : OuList) (guid name g : Text) (h : OuInfo)
    → find_ou l.ou_infos g ≡ some h
    → (k : OuInfo) × (find_ou (renamed l guid name).ou_infos g ≡ some k)
find-renamed l guid name g h f = elim (Bool-cases (str_eq guid g)) [
  | inl y ↦
      let same = (str_eq_iff guid g).0 y in
      (set_name name h, rw same (find-modify_ou_self (set_name name) l.ou_infos g h (λ p. refl) f))
  | inr y ↦ (
    h,
    find-modify_ou_ne (set_name name) l.ou_infos guid g (λ p. refl)
          (ground (arith, y, str_eq_iff guid g))
        ∙ f,
  )
]

-- Editing a known OU, where the default one is there and the list of devices is valid: a name that
-- another OU has is refused with nothing changed; else the OU gets the name and all other OUs are
-- as they were, each device that is listed has the OU, each that had it and is not listed has the
-- default one, which may be the OU itself, and all others have the OU that they had. The devices
-- are those before the database's recorded calls are performed.
pub edit_ou_lem :
    (env : ConfigEnv) (m : ConfigMgr) (devs : DeviceMgr) (guid name comment home : Text)
    (dev_guids : List Text) (ou h : OuInfo)
    → IsValid devs
    → get_ou_info m.ou_list guid ≡ some ou
    → m.ou_list.default_ou_info ≡ some home
    → find_ou m.ou_list.ou_infos home ≡ some h
    → let taken = not (str_eq name ou.ou_name) && taken_by_other guid name m.ou_list.ou_infos in
      let edit = cbccd_config_edit_ou env m devs guid name comment dev_guids in
      (taken ≡ true → edit ≡ some (unchanged ou_name_duplicate m devs))
      × (taken ≡ false
          → (a : Answer) × (edit ≡ some a)
            × (a.code ≡ ok)
            × (find_ou a.mgr.ou_list.ou_infos guid ≡ some (set_name name ou))
            × ((g : Text)
                → guid ≢ g
                → find_ou a.mgr.ou_list.ou_infos g ≡ find_ou m.ou_list.ou_infos g)
            × (a.devs.dev_infos ≡ map (placed guid home dev_guids) devs.dev_infos))
unfolding cbccd_config_edit_ou rename_ou
edit_ou_lem env m devs guid name comment home dev_guids ou h v e def f = (
  λ t. rw (e, cbccd_config_edit_ou, t) refl,
  λ t.
      let l = renamed m.ou_list guid name in
      let (k, there) = find-renamed m.ou_list guid name home h f in
      let (calls, moved) =
        move_devices-placed env l devs guid home dev_guids (default_guid-some l home k def there)
          v.distinct in
      let (written, w) = info_written env m devs guid name comment in
      (
        edited_ou m l written
            (with_devices devs (map (placed guid home dev_guids) devs.dev_infos), calls),
        rw (e, cbccd_config_edit_ou, t, w, moved) refl,
        refl,
        find-modify_ou_self (set_name name) m.ou_list.ou_infos guid ou (λ p. refl)
            (get_ou_info-find m.ou_list guid ou e),
        λ g n. find-modify_ou_ne (set_name name) m.ou_list.ou_infos guid g (λ p. refl) n,
        refl,
      ),
)
