-- ===== src/Config/Moves.antt =====
-- The devices of an OU that is edited or deleted.
use chroot_cbccd.Base.{
  ◌≡◌, refl, ap, true, false, Option, none, some, List, [], ◌∷◌, ◌++◌, map, arith, inl, inr,
  if◌then◌else◌, Bool-cases, append_assoc, Text, str_eq, str_eq_refl, str_eq_iff,
}
use chroot_cbccd.Device.{
  DeviceInfo, DeviceMgr, Call, has_guid, find_device, modify_device, cbccd_device_get_info_by_guid,
}
use chroot_cbccd.Device.Pool.{Distinct}
use chroot_cbccd.Device.Agent.{cbccd_device_set_ou_info}
use chroot_cbccd.Device.Login.{set_dev_ou_info}
use chroot_cbccd.Config.{OuList}
use chroot_cbccd.Config.References.{ConfigEnv}
use chroot_cbccd.Config.Manage.{in_list, same_ou, default_guid, move_device, move_devices}

-- The OU of a device once the OU `guid` has just the devices in `dev_guids`, with `home` for those
-- that lose it.
abbrev pub place : Text → Text → List Text → DeviceInfo → Option Text
place guid home dev_guids d =
    if in_list d.guid dev_guids
    then some guid
    else if same_ou d.ou_info guid
    then some home
    else d.ou_info

abbrev pub placed : Text → Text → List Text → DeviceInfo → DeviceInfo
placed guid home dev_guids d = record d { ou_info = place guid home dev_guids d }

-- The devices before have other guids.
abbrev Missing : Text → List DeviceInfo → Type 0
Missing g [] = Unit {0}
Missing g (p ∷ ps) = (str_eq p.guid g ≡ false) × Missing g ps

module _ (f : DeviceInfo → DeviceInfo) (d : DeviceInfo) (ds : List DeviceInfo) where
  modify-middle :
      (pre : List DeviceInfo)
      → Missing d.guid pre
      → modify_device (has_guid d.guid) f (pre ++ (d ∷ ds)) ≡ pre ++ (f d ∷ ds)
  unfolding modify_device
  modify-middle [] h = rw (str_eq_refl d.guid) refl
  modify-middle (p ∷ ps) h = rw h.0 (ap (◌∷◌ p) (modify-middle ps h.1))

  find-middle :
      (pre : List DeviceInfo)
      → Missing d.guid pre
      → find_device (has_guid d.guid) (pre ++ (d ∷ ds)) ≡ some d
  unfolding find_device
  find-middle [] h = rw (str_eq_refl d.guid) refl
  find-middle (p ∷ ps) h = rw h.0 (find-middle ps h.1)

same_ou→eq : (o : Option Text) (guid : Text) → same_ou o guid ≡ true → o ≡ some guid
same_ou→eq none guid h = cc
same_ou→eq (some g) guid h = ap some ((str_eq_iff g guid).0 h)

set_ou_info-middle :
    (env : ConfigEnv) (m : DeviceMgr) (pre ds : List DeviceInfo) (d : DeviceInfo) (ou : Text)
    → Missing d.guid pre
    → cbccd_device_set_ou_info env.dev (record m { dev_infos = pre ++ (d ∷ ds) }) d.guid ou ≡ (
      record m { dev_infos = pre ++ (record d { ou_info = some ou } ∷ ds) },
      set_dev_ou_info env.dev ou d.guid,
    )
unfolding cbccd_device_set_ou_info cbccd_device_get_info_by_guid
set_ou_info-middle env m pre ds d ou q =
    rw (find-middle (λ p. p) d ds pre q, cbccd_device_set_ou_info)
      (ap (λ (x : List DeviceInfo). (record m { dev_infos = x }, set_dev_ou_info env.dev ou d.guid))
        (modify-middle (λ p. record p { ou_info = some ou }) d ds pre q))

abbrev pub with_devices : DeviceMgr → List DeviceInfo → DeviceMgr
with_devices m ds = record m { dev_infos = ds }

Missing-append :
    (g : Text) (ps : List DeviceInfo) (p : DeviceInfo)
    → Missing g ps
    → str_eq p.guid g ≡ false
    → Missing g (ps ++ (p ∷ []))
Missing-append g [] p h e = (e, tt)
Missing-append g (q ∷ ps) p h e = (h.0, Missing-append g ps p h.1 e)

-- No device of the second list has a guid of the first.
abbrev AllMissing : List DeviceInfo → List DeviceInfo → Type 0
AllMissing pre [] = Unit {0}
AllMissing pre (d ∷ ds) = Missing d.guid pre × AllMissing pre ds

AllMissing-nil : (ds : List DeviceInfo) → AllMissing [] ds
AllMissing-nil [] = tt
AllMissing-nil (d ∷ ds) = (tt, AllMissing-nil ds)

AllMissing-append :
    (pre ds : List DeviceInfo) (p : DeviceInfo)
    → AllMissing pre ds
    → find_device (has_guid p.guid) ds ≡ none
    → AllMissing (pre ++ (p ∷ [])) ds
unfolding find_device
AllMissing-append pre [] p h e = tt
AllMissing-append pre (d ∷ ds) p h e = elim (Bool-cases (str_eq d.guid p.guid)) [
  | inl y ↦ absurd (cc (rw y at e))
  | inr y ↦ (
    Missing-append d.guid pre p h.0
        (ground (arith, y, str_eq_iff d.guid p.guid, str_eq_iff p.guid d.guid)),
    AllMissing-append pre ds p h.1 (rw y at e),
  )
]

module _ (env : ConfigEnv) (l : OuList) (m : DeviceMgr) (guid home : Text)
    (dev_guids : List Text) where
  -- The call for one device, if its OU changes.
  calls_of : DeviceInfo → List Call
  calls_of d =
      if in_list d.guid dev_guids
      then if same_ou d.ou_info guid then [] else set_dev_ou_info env.dev guid d.guid
      else if same_ou d.ou_info guid
      then set_dev_ou_info env.dev home d.guid
      else []

  move_one :
      (pre ds : List DeviceInfo) (d : DeviceInfo)
      → default_guid l ≡ some home
      → Missing d.guid pre
      → move_device env l (with_devices m (pre ++ (d ∷ ds))) guid dev_guids d
        ≡ some (with_devices m (pre ++ (placed guid home dev_guids d ∷ ds)), calls_of d)
  unfolding move_device calls_of
  move_one pre ds d h q = elim (Bool-cases (in_list d.guid dev_guids)) [
    | inl y ↦ elim (Bool-cases (same_ou d.ou_info guid)) [
      | inl z ↦ rw (y, z, ← same_ou→eq d.ou_info guid z) refl
      | inr z ↦ rw (y, z) (ap some (set_ou_info-middle env m pre ds d guid q))
    ]
    | inr y ↦ elim (Bool-cases (same_ou d.ou_info guid)) [
      | inl z ↦ rw (y, z, h) (ap some (set_ou_info-middle env m pre ds d home q))
      | inr z ↦ rw (y, z) refl
    ]
  ]

  -- The calls for all devices, in order.
  calls_of_all : List DeviceInfo → List Call
  calls_of_all [] = []
  calls_of_all (d ∷ ds) = calls_of d ++ calls_of_all ds

  move_rest :
      (pre ds : List DeviceInfo)
      → default_guid l ≡ some home
      → AllMissing pre ds
      → Distinct ds
      → move_devices env l (with_devices m (pre ++ ds)) guid dev_guids ds
        ≡ some (with_devices m (pre ++ map (placed guid home dev_guids) ds), calls_of_all ds)
  unfolding move_devices calls_of_all
  move_rest pre [] h q v = refl
  move_rest pre (d ∷ ds) h q v =
      let p = placed guid home dev_guids d in
      let ih = move_rest (pre ++ (p ∷ [])) ds h (AllMissing-append pre ds p q.1 v.0) v.1 in
      rw (move_one pre ds d h q.0, ← append_assoc pre (p ∷ []) ds, ih, append_assoc) refl

  -- The loop over all devices of a list with distinct guids puts each in its place.
  pub move_devices-placed :
      default_guid l ≡ some home
      → Distinct m.dev_infos
      → (calls : List Call) × (move_devices env l m guid dev_guids m.dev_infos
          ≡ some (with_devices m (map (placed guid home dev_guids) m.dev_infos), calls))
  move_devices-placed h v =
      (calls_of_all m.dev_infos, move_rest [] m.dev_infos h (AllMissing-nil m.dev_infos) v)
