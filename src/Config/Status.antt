-- ===== src/Config/Status.antt =====
-- set_deploy_status runs past the end of deploy_st_tbl_names.
use chroot_cbccd.Base.{
  ℕ, zero, suc, ◌+◌, ◌≤◌, ◌≡◌, refl, true, false, Option, none, some, List, [], ◌∷◌, arith, inl,
  inr, length, get_elem?, Option-cases, Text, str_eq,
}
use chroot_cbccd.Device.{DeviceInfo}
use chroot_cbccd.Config.{ConfigObject, OuInfo}
use chroot_cbccd.Config.References.{ConfigEnv}
use chroot_cbccd.Config.Deploy.{
  deploy_cmd, deploy_st_tbl_names, status_text, status_rounds, set_deploy_status, deploy,
  compare_sum, md5_of,
}

past-get_elem? {ℓ} : {A : Type ℓ} (xs : List A) (i : ℕ) → length xs ≤ i → get_elem? xs i ≡ none
past-get_elem? [] i h = refl
past-get_elem? (x ∷ xs) zero h = absurd (omega arith)
past-get_elem? (x ∷ xs) (suc i) h = past-get_elem? xs i (omega arith)

module _ (env : ConfigEnv) (dev_guid : Text) (os : List ConfigObject) where
  rounds_past : (k i : ℕ) → 14 ≤ i + k → status_rounds env dev_guid os (suc k) i ≡ none
  unfolding status_rounds
  rounds_past zero i h = elim (Option-cases (status_text env i os)) [
    | inl e ↦ rw e refl
    | inr (t, e) ↦ rw (e, past-get_elem? deploy_st_tbl_names i (omega arith)) refl
  ]
  rounds_past (suc k) i h =
      let later = rounds_past k (i + 1) (omega arith) in
      elim (Option-cases (status_text env i os)) [
        | inl e ↦ rw e refl
        | inr (t, e) ↦ elim (Option-cases (get_elem? deploy_st_tbl_names i)) [
          | inl f ↦ rw (e, f) refl
          | inr (table, f) ↦ rw (e, f, later) refl
        ]
      ]

-- Wherever sending it succeeds, deploying a configuration to a device whose sum differs is
-- undefined: the loop over the 16 object types reads past the 14 names of the status tables.
compare_sum-undefined :
    (env : ConfigEnv) (d : DeviceInfo) (sum : Text) (ou : Option OuInfo) (cmd : Text)
    → str_eq (md5_of ou) sum ≡ false
    → deploy_cmd env ou ≡ some cmd
    → env.sends d.sock cmd ≡ true
    → compare_sum env d sum ou ≡ none
unfolding compare_sum deploy set_deploy_status
compare_sum-undefined env d sum ou cmd e f h =
    rw (e, f, h, rounds_past env d.guid _ 15 0 (omega arith)) refl
