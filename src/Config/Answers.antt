-- ===== src/Config/Answers.antt =====
-- What every operation on the configuration leaves as it was: with a refusal the configuration is
-- as it was, and the list of devices stays valid.
use chroot_cbccd.Base.{
  ◌≡◌, refl, false, ◌&&◌, not, Option, some, List, [], ◌∷◌, inl, inr, ltb, Bool-cases, Option-cases,
  Text, str_eq, Ensures, bind-Ensures, split-Ensures, Ensures-some,
}
use chroot_cbccd.Device.{
  DeviceInfo, DeviceMgr, Call, RespCode, is_ok, json_invalid, has_guid,
  cbccd_device_get_info_by_guid,
}
use chroot_cbccd.Device.Pool.{IsValid, modify-IsValid}
use chroot_cbccd.Device.Json.{Env}
use chroot_cbccd.Device.Agent.{cbccd_device_set_ou_info}
use chroot_cbccd.Config.{
  ObjectType, ConfigMgr, OuList, Located, get_config_obj, get_ou_info, ref_count, get_obj_type,
  add_ou_info,
}
use chroot_cbccd.Config.References.{ConfigEnv, parse_text}
use chroot_cbccd.Config.Deploy.{send_check_config_cmd}
use chroot_cbccd.Json.Edit.{cbcc_json_build}
use chroot_cbccd.Config.Manage.{
  Answer, refused, rebuild, set_ou_tbl_data, insert_object, add_to_ou, cbccd_config_add_object,
  drop_object, cbccd_config_delete_object, change_object, cbccd_config_edit_object,
  set_ou_info_into_db, set_devices, has_name, cbccd_config_create_ou, in_list, same_ou,
  default_guid, move_device, move_devices, taken_by_other, rename_ou, cbccd_config_edit_ou,
  cbccd_config_delete_ou, switch_default, cbccd_config_set_default_ou,
}

-- The list of devices is valid, and the configuration is `m` unless the code is OK.
abbrev pub Keeps : ConfigMgr → RespCode → ConfigMgr → DeviceMgr → Type 0
Keeps m code n devs = IsValid devs × (is_ok code ≡ false → n ≡ m)

abbrev pub AnswerKeeps : ConfigMgr → Answer → Type 0
AnswerKeeps m a = Keeps m a.code a.mgr a.devs

set_ou_info-IsValid :
    (env : Env) (devs : DeviceMgr) (guid ou : Text)
    → IsValid devs
    → IsValid (cbccd_device_set_ou_info env devs guid ou).0
unfolding cbccd_device_set_ou_info
set_ou_info-IsValid env devs guid ou v =
    elim (Option-cases (cbccd_device_get_info_by_guid devs guid)) [
      | inl e ↦ rw (e, cbccd_device_set_ou_info) v
      | inr (d, e) ↦
          rw (e, cbccd_device_set_ou_info)
            (modify-IsValid devs (has_guid guid) (λ p. record p { ou_info = some ou }) (λ p. refl)
              v)
    ]

set_devices-IsValid :
    (env : ConfigEnv) (devs : DeviceMgr) (ou : Text) (gs : List Text)
    → IsValid devs
    → IsValid (set_devices env devs ou gs).0
unfolding set_devices
set_devices-IsValid env devs ou [] v = v
set_devices-IsValid env devs ou (g ∷ gs) v =
    set_devices-IsValid env (cbccd_device_set_ou_info env.dev devs g ou).0 ou gs
      (set_ou_info-IsValid env.dev devs g ou v)

abbrev MovedValid : DeviceMgr × List Call → Type 0
MovedValid r = IsValid r.0

move_device-IsValid :
    (env : ConfigEnv) (l : OuList) (devs : DeviceMgr) (guid : Text) (gs : List Text)
    (d : DeviceInfo)
    → IsValid devs
    → Ensures MovedValid (move_device env l devs guid gs d)
unfolding move_device
move_device-IsValid env l devs guid gs d v = elim (Bool-cases (in_list d.guid gs)) [
  | inl y ↦ elim (Bool-cases (same_ou d.ou_info guid)) [
    | inl z ↦ rw (y, z) v
    | inr z ↦ rw (y, z) (set_ou_info-IsValid env.dev devs d.guid guid v)
  ]
  | inr y ↦ elim (Bool-cases (same_ou d.ou_info guid)) [
    | inl z ↦
        rw (y, z)
          (bind-Ensures MovedValid (default_guid l) _
            (λ home e. set_ou_info-IsValid env.dev devs d.guid home v))
    | inr z ↦ rw (y, z) v
  ]
]

move_devices-IsValid :
    (env : ConfigEnv) (l : OuList) (devs : DeviceMgr) (guid : Text) (gs : List Text)
    (ds : List DeviceInfo)
    → IsValid devs
    → Ensures MovedValid (move_devices env l devs guid gs ds)
unfolding move_devices
move_devices-IsValid env l devs guid gs [] v = v
move_devices-IsValid env l devs guid gs (d ∷ ds) v =
    elim (Option-cases (move_device env l devs guid gs d)) [
      | inl e ↦ rw e tt
      | inr (one, e) ↦
          let one_valid : Ensures MovedValid (some one) =
            rw e at (move_device-IsValid env l devs guid gs d v) in
          elim (Option-cases (move_devices env l one.0 guid gs ds)) [
            | inl f ↦ rw (e, f) tt
            | inr (rest, f) ↦
                let rest_valid : Ensures MovedValid (some rest) =
                  rw f at (move_devices-IsValid env l one.0 guid gs ds one_valid) in
                rw (e, f) rest_valid
          ]
    ]

module _ (env : ConfigEnv) (m : ConfigMgr) (devs : DeviceMgr) (v : IsValid devs) where
  abbrev Fine : Option Answer → Type 0
  Fine a = Ensures (AnswerKeeps m) a

  refused-Keeps : (code : RespCode) → Fine (refused code m devs)
  refused-Keeps code = (v, λ e. refl)

  insert_object-Keeps :
      (ou_guid guid : Text) (type : ObjectType) (type_str content : Text)
      → Fine (insert_object env m devs ou_guid guid type type_str content)
  unfolding insert_object
  insert_object-Keeps ou_guid guid type type_str content =
      bind-Ensures (AnswerKeeps m) (rebuild env _) _ λ ous e.
        bind-Ensures (AnswerKeeps m) (set_ou_tbl_data env ou_guid guid type_str) _ λ calls f.
          bind-Ensures (AnswerKeeps m) (send_check_config_cmd env devs) _
            λ checks g. (v, λ x. absurd (cc (x)))

  add_to_ou-Keeps :
      (ou_guid guid type_str content : Text)
      → Fine (add_to_ou env m devs ou_guid guid type_str content)
  unfolding add_to_ou
  add_to_ou-Keeps ou_guid guid type_str content =
      elim (Option-cases (get_ou_info m.ou_list ou_guid)) [
        | inl e ↦ rw (e, add_to_ou) (v, λ x. refl)
        | inr (ou, e) ↦ elim (Option-cases (get_obj_type type_str)) [
          | inl f ↦ rw (e, add_to_ou, f) (v, λ x. refl)
          | inr (type, f) ↦
              rw (e, add_to_ou, f) (insert_object-Keeps ou_guid guid type type_str content)
        ]
      ]

  pub add_object-Keeps :
      (guid type_str content : Text)
      → Fine (cbccd_config_add_object env m devs guid type_str content)
  unfolding cbccd_config_add_object
  add_object-Keeps guid type_str content =
      split-Ensures (AnswerKeeps m) (parse_text env content _ _ _) _ (refused-Keeps json_invalid)
        (λ g. add_to_ou-Keeps g guid type_str content)

  drop_object-Keeps :
      (l : Located) (guid type_str : Text) → Fine (drop_object env m devs l guid type_str)
  unfolding drop_object
  drop_object-Keeps l guid type_str = bind-Ensures (AnswerKeeps m) (rebuild env _) _ λ ous e.
      bind-Ensures (AnswerKeeps m) (send_check_config_cmd env devs) _
        λ checks f. (v, λ x. absurd (cc (x)))

  pub delete_object-Keeps :
      (guid type_str : Text) → Fine (cbccd_config_delete_object env m devs guid type_str)
  unfolding cbccd_config_delete_object
  delete_object-Keeps guid type_str = elim (Option-cases (get_config_obj m.ou_list.ou_infos guid)) [
    | inl e ↦ rw (e, cbccd_config_delete_object) (v, λ x. refl)
    | inr (l, e) ↦ elim (Bool-cases (ltb 0 (ref_count l.1.ref_objs))) [
      | inl y ↦ rw (e, cbccd_config_delete_object, y) (v, λ x. refl)
      | inr y ↦ rw (e, cbccd_config_delete_object, y) (drop_object-Keeps l guid type_str)
    ]
  ]

  change_object-Keeps :
      (l : Located) (guid type_str content : Text)
      → Fine (change_object env m devs l guid type_str content)
  unfolding change_object
  change_object-Keeps l guid type_str content =
      bind-Ensures (AnswerKeeps m) (rebuild env _) _ λ ous e.
        bind-Ensures (AnswerKeeps m) (send_check_config_cmd env devs) _
          λ checks f. (v, λ x. absurd (cc (x)))

  pub edit_object-Keeps :
      (guid type_str content : Text)
      → Fine (cbccd_config_edit_object env m devs guid type_str content)
  unfolding cbccd_config_edit_object
  edit_object-Keeps guid type_str content =
      elim (Option-cases (get_config_obj m.ou_list.ou_infos guid)) [
        | inl e ↦ rw (e, cbccd_config_edit_object) (v, λ x. refl)
        | inr (l, e) ↦
            rw (e, cbccd_config_edit_object) (change_object-Keeps l guid type_str content)
      ]

  pub create_ou-Keeps :
      (guid name comment : Text) (gs : List Text)
      → Fine (cbccd_config_create_ou env m devs guid name comment gs)
  unfolding cbccd_config_create_ou
  create_ou-Keeps guid name comment gs = elim (Bool-cases (has_name name m.ou_list.ou_infos)) [
    | inl y ↦ rw y (v, λ x. refl)
    | inr y ↦ rw y (
        bind-Ensures (AnswerKeeps m) (add_ou_info m.ou_list guid name) _ λ l e.
          bind-Ensures (AnswerKeeps m) (set_ou_info_into_db env guid name comment) _
            λ calls f. (set_devices-IsValid env devs guid gs v, λ x. absurd (cc (x))))
  ]

  rename_ou-Keeps :
      (guid name comment : Text) (gs : List Text) → Fine (rename_ou env m devs guid name comment gs)
  unfolding rename_ou
  rename_ou-Keeps guid name comment gs =
      bind-Ensures (AnswerKeeps m) (set_ou_info_into_db env guid name comment) _ λ calls e.
        bind-Ensures (AnswerKeeps m) (move_devices env _ devs guid gs devs.dev_infos) _ λ moved f. (
          Ensures-some MovedValid _ moved (move_devices-IsValid env _ devs guid gs devs.dev_infos v)
              f,
          λ x. absurd (cc (x)),
        )

  pub edit_ou-Keeps :
      (guid name comment : Text) (gs : List Text)
      → Fine (cbccd_config_edit_ou env m devs guid name comment gs)
  unfolding cbccd_config_edit_ou
  edit_ou-Keeps guid name comment gs = elim (Option-cases (get_ou_info m.ou_list guid)) [
    | inl e ↦ rw (e, cbccd_config_edit_ou) (v, λ x. refl)
    | inr (ou, e) ↦
        elim (Bool-cases
          (not (str_eq name ou.ou_name) && taken_by_other guid name m.ou_list.ou_infos)) [
            | inl y ↦ rw (e, cbccd_config_edit_ou, y) (v, λ x. refl)
            | inr y ↦ rw (e, cbccd_config_edit_ou, y) (rename_ou-Keeps guid name comment gs)
          ]
  ]

  pub delete_ou-Keeps : (guid : Text) → Fine (cbccd_config_delete_ou env m devs guid)
  unfolding cbccd_config_delete_ou
  delete_ou-Keeps guid = elim (Option-cases (get_ou_info m.ou_list guid)) [
    | inl e ↦ rw (e, cbccd_config_delete_ou) (v, λ x. refl)
    | inr (ou, e) ↦
        rw (e, cbccd_config_delete_ou)
          (bind-Ensures (AnswerKeeps m) (move_devices env m.ou_list devs guid [] devs.dev_infos) _
            λ moved f. (
              Ensures-some MovedValid _ moved
                  (move_devices-IsValid env m.ou_list devs guid [] devs.dev_infos v) f,
              λ x. absurd (cc (x)),
            ))
  ]

  pub set_default_ou-Keeps : (guid : Text) → Fine (cbccd_config_set_default_ou env m devs guid)
  unfolding cbccd_config_set_default_ou
  set_default_ou-Keeps guid = elim (Option-cases (get_ou_info m.ou_list guid)) [
    | inl e ↦ rw (e, cbccd_config_set_default_ou) (v, λ x. refl)
    | inr (ou, e) ↦
        rw (e, cbccd_config_set_default_ou)
          (bind-Ensures (AnswerKeeps m) (switch_default m.ou_list guid) _ λ l f.
            bind-Ensures (AnswerKeeps m) (cbcc_json_build env.lib _) _
              λ t g. (v, λ x. absurd (cc (x))))
  ]
