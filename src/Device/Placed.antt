-- ===== src/Device/Placed.antt =====
-- What placing the devices in their OUs keeps at the start.
use chroot_cbccd.Base.{
  ◌≡◌, ◌≢◌, refl, ◌∙◌, false, some, List, [], ◌∷◌, inl, inr, Option-cases, Bool-cases, Text, codes,
  str_eq, str_eq_iff, str_eq_refl,
}
use chroot_cbccd.Config.{OuList, get_ou_info}
use chroot_cbccd.Device.{DeviceInfo, DeviceMgr, has_guid, find_device, modify_device}
use chroot_cbccd.Device.Json.{Env}
use chroot_cbccd.Device.Login.{top}
use chroot_cbccd.Device.Outcome.{device, flag}
use chroot_cbccd.Device.Pool.{
  IsValid, modify-IsValid, modify-missing, find-modify_self, find-modify_ne,
}
use chroot_cbccd.Device.Start.{with_ou, set_device_ou, specified, read_ou_row, read_ou_rows}
use chroot_cbccd.Device.Rows.{AllThere}

-- What reading the OUs keeps of the list.
pub record OuRead (m n : DeviceMgr) : Type 0 where
  pub valid : IsValid n
  pub same_flag : (g : Text) → flag (device n g) ≡ flag (device m g)
  pub status :
      (g : Text) (d : DeviceInfo)
      → device m g ≡ some d
      → (q : DeviceInfo) × (device n g ≡ some q) × (q.reg_status ≡ d.reg_status)

OuRead-refl : (m : DeviceMgr) → IsValid m → OuRead m m
OuRead-refl m v = record { valid = v; same_flag = λ g. refl; status = λ g d e. (d, e, refl) }

OuRead-trans : (m n o : DeviceMgr) → OuRead m n → OuRead n o → OuRead m o
OuRead-trans m n o h k = record {
  valid = k.valid;
  same_flag = λ g. k.same_flag g ∙ h.same_flag g;
  status =
      λ g d e. let (q, f, s) = h.status g d e in let (p, i, t) = k.status g q f in (p, i, t ∙ s);
}

modify-OuRead :
    (m : DeviceMgr) (guid ou : Text)
    → IsValid m
    → OuRead m (record m { dev_infos = modify_device (has_guid guid) (with_ou ou) m.dev_infos })
modify-OuRead m guid ou v = record {
  valid = modify-IsValid m (has_guid guid) (with_ou ou) (λ p. refl) v;
  same_flag = λ g. elim (Bool-cases (str_eq guid g)) [
    | inl y ↦ rw (← (str_eq_iff guid g).0 y) own_flag
    | inr n ↦ rw (find-modify_ne (with_ou ou) m.dev_infos guid g (λ p. refl) (ne g n)) refl
  ];
  status = λ g d e. elim (Bool-cases (str_eq guid g)) [
    | inl y ↦ (
      with_ou ou d,
      rw (← (str_eq_iff guid g).0 y) (
          find-modify_self (with_ou ou) m.dev_infos guid d (λ p. refl)
            (rw ((str_eq_iff guid g).0 y) e)),
      refl,
    )
    | inr n ↦ (d, find-modify_ne (with_ou ou) m.dev_infos guid g (λ p. refl) (ne g n) ∙ e, refl)
  ];
}
  where
    ne : (g : Text) → str_eq guid g ≡ false → guid ≢ g
    ne g n e = absurd (cc (rw (← e, str_eq_refl guid) at n))

    own_flag :
        flag (find_device (has_guid guid) (modify_device (has_guid guid) (with_ou ou) m.dev_infos))
        ≡ flag (find_device (has_guid guid) m.dev_infos)
    own_flag = elim (Option-cases (find_device (has_guid guid) m.dev_infos)) [
      | inl e ↦ rw (modify-missing (has_guid guid) (with_ou ou) m.dev_infos e) refl
      | inr (d, e) ↦ rw (e, find-modify_self (with_ou ou) m.dev_infos guid d (λ p. refl) e) refl
    ]

module _ (env : Env) (ous : OuList) where
  ou_row-OuRead :
      (m : DeviceMgr) (guid content : Text)
      → IsValid m
      → OuRead m (read_ou_row env ous m guid content)
  unfolding read_ou_row set_device_ou
  ou_row-OuRead m guid content v =
      elim (Option-cases (specified (env.json.parse content (top (codes "ou") ∷ [])))) [
        | inl p ↦ rw (p, read_ou_row) (OuRead-refl m v)
        | inr (guid_of_ou, p) ↦ elim (Option-cases (get_ou_info ous guid_of_ou)) [
          | inl q ↦ rw (p, read_ou_row, q, set_device_ou) (OuRead-refl m v)
          | inr (ou, q) ↦ rw (p, read_ou_row, q, set_device_ou) (modify-OuRead m guid _ v)
        ]
      ]

  pub ou_rows-OuRead :
      (m : DeviceMgr) (rows : List (Text × Text))
      → IsValid m
      → OuRead m (read_ou_rows env ous m rows)
  unfolding read_ou_rows
  ou_rows-OuRead m [] v = OuRead-refl m v
  ou_rows-OuRead m ((guid, content) ∷ rows) v =
      let one = ou_row-OuRead m guid content v in
      OuRead-trans m _ _ one (ou_rows-OuRead (read_ou_row env ous m guid content) rows one.valid)

pub AllThere-after :
    (env : Env) (m n : DeviceMgr) (rows : List (Text × Text))
    → OuRead m n
    → AllThere env m rows
    → AllThere env n rows
AllThere-after env m n [] h a = tt
AllThere-after env m n ((guid, content) ∷ rows) h a = (
  λ s p. let (d, e, t) = a.0 s p in let (q, f, u) = h.status guid d e in (q, f, u ∙ t),
  AllThere-after env m n rows h a.1,
)
