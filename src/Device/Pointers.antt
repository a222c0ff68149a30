-- ===== src/Device/Pointers.antt =====
-- A device that was found by another test than that of its guid, and a write to it.
use chroot_cbccd.Base.{
  ◌≡◌, ◌≢◌, refl, Bool, true, some, List, [], ◌∷◌, inl, inr, arith, Bool-cases, Text, str_eq,
  str_eq_refl, str_eq_iff,
}
use chroot_cbccd.Device.{DeviceInfo, has_guid, find_device, modify_device}
use chroot_cbccd.Device.Pool.{Distinct, KeepsGuid}

-- Whatever holds of a device that was found is found.
pub found-other :
    (test other : DeviceInfo → Bool) (ds : List DeviceInfo) (d : DeviceInfo)
    → find_device test ds ≡ some d
    → other d ≡ true
    → (q : DeviceInfo) × (find_device other ds ≡ some q)
unfolding find_device
found-other test other [] d e h = absurd (cc (e))
found-other test other (p ∷ ds) d e h = elim (Bool-cases (other p)) [
  | inl y ↦ (p, rw y refl)
  | inr n ↦ elim (Bool-cases (test p)) [
    | inl y ↦
        let here : some p ≡ some d = rw y at e in
        let same : p ≡ d = cc (here) in absurd (cc (rw same at n, h))
    | inr z ↦ let (q, f) = found-other test other ds d (rw z at e) h in (q, rw n f)
  ]
]

-- Writing through the pointer changes the device with that guid, and no other.
pub modify-own :
    (test : DeviceInfo → Bool) (f : DeviceInfo → DeviceInfo) (ds : List DeviceInfo) (d : DeviceInfo)
    → KeepsGuid f
    → Distinct ds
    → find_device test ds ≡ some d
    → (find_device (has_guid d.guid) (modify_device test f ds) ≡ some (f d))
      × ((g : Text)
          → d.guid ≢ g
          → find_device (has_guid g) (modify_device test f ds) ≡ find_device (has_guid g) ds)
unfolding find_device modify_device
modify-own test f [] d k v e = absurd (cc (e))
modify-own test f (p ∷ ds) d k v e = elim (Bool-cases (test p)) [
  | inl y ↦
      let here : some p ≡ some d = rw y at e in
      let same : p ≡ d = cc (here) in
      rw (y, same, k d, str_eq_refl d.guid)
        (refl, λ g n. ground (arith, n, str_eq_iff d.guid g, k d))
  | inr z ↦
      let there : find_device test ds ≡ some d = rw z at e in
      let (own, others) = modify-own test f ds d k v.1 there in
      let (q, found) = found-other test (has_guid d.guid) ds d there (str_eq_refl d.guid) in
      rw z (
        elim (Bool-cases (str_eq p.guid d.guid)) [
          | inl s ↦ absurd (cc (rw ((str_eq_iff p.guid d.guid).0 s) at v.0, found))
          | inr s ↦ rw s own
        ],
        λ g n. ground (arith, others g n),
      )
]
