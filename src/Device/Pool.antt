-- ===== src/Device/Pool.antt =====
-- The list of devices: counted, one device for each guid.
use chroot_cbccd.Base.{
  suc, ◌+◌, ◌-◌, ◌≡◌, ◌≢◌, refl, Bool, true, none, some, List, [], ◌∷◌, ◌++◌, inl, inr, arith,
  length, length-append, ◌==◌, if◌then◌else◌, Bool-cases, Text, str_eq, str_eq_iff,
}
use chroot_cbccd.Device.{
  DeviceInfo, DeviceMgr, has_guid, find_device, modify_device, unlink_device, add_device_info,
  remove_device_info,
}

-- No two devices have one guid.
abbrev pub Distinct : List DeviceInfo → Type 0
Distinct [] = Unit {0}
Distinct (d ∷ ds) = (find_device (has_guid d.guid) ds ≡ none) × Distinct ds

pub record IsValid (m : DeviceMgr) : Type 0 where
  pub counted : m.num_of_devices ≡ length m.dev_infos
  pub distinct : Distinct m.dev_infos

-- A write that leaves the guid alone.
abbrev pub KeepsGuid : (DeviceInfo → DeviceInfo) → Type 0
KeepsGuid f = (d : DeviceInfo) → (f d).guid ≡ d.guid

pub find_device-test :
    (test : DeviceInfo → Bool) (ds : List DeviceInfo) (d : DeviceInfo)
    → find_device test ds ≡ some d
    → test d ≡ true
unfolding find_device
find_device-test test [] d e = cc
find_device-test test (p ∷ ds) d e = ground (arith, find_device-test test ds d)

length-modify :
    (test : DeviceInfo → Bool) (f : DeviceInfo → DeviceInfo) (ds : List DeviceInfo)
    → length (modify_device test f ds) ≡ length ds
unfolding modify_device
length-modify test f [] = refl
length-modify test f (d ∷ ds) = ground (arith, length-modify test f ds)

pub modify-missing :
    (test : DeviceInfo → Bool) (f : DeviceInfo → DeviceInfo) (ds : List DeviceInfo)
    → find_device test ds ≡ none
    → modify_device test f ds ≡ ds
unfolding modify_device find_device
modify-missing test f [] e = refl
modify-missing test f (d ∷ ds) e = ground (arith, modify-missing test f ds)

-- What a look-up by guid finds after a write through a pointer, whichever device it points to.
find-modify_missing :
    (test : DeviceInfo → Bool) (f : DeviceInfo → DeviceInfo) (ds : List DeviceInfo) (g : Text)
    → KeepsGuid f
    → find_device (has_guid g) ds ≡ none
    → find_device (has_guid g) (modify_device test f ds) ≡ none
unfolding modify_device find_device
find-modify_missing test f [] g k e = refl
find-modify_missing test f (d ∷ ds) g k e = ground (arith, find-modify_missing test f ds g k, k d)

Distinct-modify :
    (test : DeviceInfo → Bool) (f : DeviceInfo → DeviceInfo) (ds : List DeviceInfo)
    → KeepsGuid f
    → Distinct ds
    → Distinct (modify_device test f ds)
unfolding modify_device
Distinct-modify test f [] k v = tt
Distinct-modify test f (d ∷ ds) k v = elim (Bool-cases (test d)) [
  | inl e ↦ rw (e, k d) v
  | inr e ↦ rw e (find-modify_missing test f ds d.guid k v.0, Distinct-modify test f ds k v.1)
]

pub find-modify_self :
    (f : DeviceInfo → DeviceInfo) (ds : List DeviceInfo) (g : Text) (d : DeviceInfo)
    → KeepsGuid f
    → find_device (has_guid g) ds ≡ some d
    → find_device (has_guid g) (modify_device (has_guid g) f ds) ≡ some (f d)
unfolding modify_device find_device
find-modify_self f [] g d k e = cc
find-modify_self f (p ∷ ds) g d k e =
    ground (arith, find-modify_self f ds g d k, k p, str_eq_iff p.guid g)

pub find-modify_ne :
    (f : DeviceInfo → DeviceInfo) (ds : List DeviceInfo) (g h : Text)
    → KeepsGuid f
    → g ≢ h
    → find_device (has_guid h) (modify_device (has_guid g) f ds) ≡ find_device (has_guid h) ds
unfolding modify_device find_device
find-modify_ne f [] g h k n = refl
find-modify_ne f (p ∷ ds) g h k n =
    ground (arith, find-modify_ne f ds g h k n, k p, str_eq_iff p.guid g, str_eq_iff p.guid h)

pub find-append :
    (ds : List DeviceInfo) (d : DeviceInfo) (g : Text)
    → find_device (has_guid g) (ds ++ (d ∷ [])) ≡ elim (find_device (has_guid g) ds) [
      | none ↦ if str_eq d.guid g then some d else none
      | some p ↦ some p
    ]
unfolding find_device
find-append [] d g = refl
find-append (p ∷ ds) d g = ground (arith, find-append ds d g)

pub Distinct-append :
    (ds : List DeviceInfo) (d : DeviceInfo)
    → Distinct ds
    → find_device (has_guid d.guid) ds ≡ none
    → Distinct (ds ++ (d ∷ []))
unfolding find_device
Distinct-append [] d v e = (refl, tt)
Distinct-append (p ∷ ds) d v e = ground (
  arith,
  Distinct-append ds d v.1,
  find-append ds d p.guid,
  str_eq_iff p.guid d.guid,
  str_eq_iff d.guid p.guid,
)

pub find-unlink_self :
    (ds : List DeviceInfo) (g : Text)
    → Distinct ds
    → find_device (has_guid g) (unlink_device (has_guid g) ds) ≡ none
unfolding find_device unlink_device
find-unlink_self [] g v = refl
find-unlink_self (p ∷ ds) g v = ground (arith, find-unlink_self ds g v.1, str_eq_iff p.guid g, v.0)

pub find-unlink_ne :
    (ds : List DeviceInfo) (g h : Text)
    → g ≢ h
    → find_device (has_guid h) (unlink_device (has_guid g) ds) ≡ find_device (has_guid h) ds
unfolding find_device unlink_device
find-unlink_ne [] g h n = refl
find-unlink_ne (p ∷ ds) g h n =
    ground (arith, find-unlink_ne ds g h n, str_eq_iff p.guid g, str_eq_iff p.guid h)

find-unlink_missing :
    (ds : List DeviceInfo) (g h : Text)
    → find_device (has_guid h) ds ≡ none
    → find_device (has_guid h) (unlink_device (has_guid g) ds) ≡ none
unfolding find_device unlink_device
find-unlink_missing [] g h e = refl
find-unlink_missing (p ∷ ds) g h e = ground (arith, find-unlink_missing ds g h)

pub Distinct-unlink :
    (ds : List DeviceInfo) (g : Text) → Distinct ds → Distinct (unlink_device (has_guid g) ds)
unfolding unlink_device
Distinct-unlink [] g v = tt
Distinct-unlink (p ∷ ds) g v =
    ground (arith, Distinct-unlink ds g v.1, find-unlink_missing ds g p.guid v.0, v.0, v.1)

pub length-unlink :
    (ds : List DeviceInfo) (g : Text) (d : DeviceInfo)
    → find_device (has_guid g) ds ≡ some d
    → length ds ≡ suc (length (unlink_device (has_guid g) ds))
unfolding find_device unlink_device
length-unlink [] g d e = cc
length-unlink (p ∷ ds) g d e = ground (arith, length-unlink ds g d)

length_zero : (ds : List DeviceInfo) → length ds ≡ 0 → ds ≡ []
length_zero [] h = refl
length_zero (d ∷ ds) h = absurd (omega arith)

pub modify-IsValid :
    (m : DeviceMgr) (test : DeviceInfo → Bool) (f : DeviceInfo → DeviceInfo)
    → KeepsGuid f
    → IsValid m
    → IsValid (record m { dev_infos = modify_device test f m.dev_infos })
modify-IsValid m test f k v = record {
  counted = omega (arith, v.counted, length-modify test f m.dev_infos);
  distinct = Distinct-modify test f m.dev_infos k v.distinct;
}

pub add-eq-append :
    (m : DeviceMgr) (d : DeviceInfo)
    → IsValid m
    → add_device_info m d
      ≡ record m { dev_infos = m.dev_infos ++ (d ∷ []); num_of_devices = m.num_of_devices + 1 }
unfolding add_device_info
add-eq-append m d v = elim (Bool-cases (m.num_of_devices == 0)) [
  | inl e ↦ rw (e, length_zero m.dev_infos (ground (arith, v.counted)))
  | inr e ↦ rw e
]

pub add-IsValid :
    (m : DeviceMgr) (d : DeviceInfo)
    → IsValid m
    → find_device (has_guid d.guid) m.dev_infos ≡ none
    → IsValid (add_device_info m d)
add-IsValid m d v e = rw (add-eq-append m d v) (record {
  counted = omega (arith, v.counted, length-append m.dev_infos (d ∷ []));
  distinct = Distinct-append m.dev_infos d v.distinct e;
})

pub remove-eq-unlink :
    (m : DeviceMgr) (g : Text) (d : DeviceInfo)
    → IsValid m
    → find_device (has_guid g) m.dev_infos ≡ some d
    → remove_device_info m g ≡ record m {
      dev_infos = unlink_device (has_guid g) m.dev_infos;
      num_of_devices = m.num_of_devices - 1;
    }
unfolding remove_device_info
remove-eq-unlink m g d v e = elim (Bool-cases (m.num_of_devices - 1 == 0)) [
  | inl z ↦ rw (
    z,
    length_zero (unlink_device (has_guid g) m.dev_infos)
        (ground (arith, v.counted, length-unlink m.dev_infos g d e)),
  )
  | inr z ↦ rw z
]

pub remove-IsValid :
    (m : DeviceMgr) (g : Text) (d : DeviceInfo)
    → IsValid m
    → find_device (has_guid g) m.dev_infos ≡ some d
    → IsValid (remove_device_info m g)
remove-IsValid m g d v e = rw (remove-eq-unlink m g d v e) (record {
  counted = omega (arith, v.counted, length-unlink m.dev_infos g d e);
  distinct = Distinct-unlink m.dev_infos g v.distinct;
})
