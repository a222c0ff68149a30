-- ===== src/Admin/Devices.antt =====
-- Administration keeps the list of devices valid.
use chroot_cbccd.Base.{
  false, Option, none, some, List, inl, inr, Bool-cases, Option-cases, Text, Ensures, bind-Ensures,
  split-Ensures, Ensures-some,
}
use chroot_cbccd.Json.Parse.{Item, cbcc_json_parse_from_buffer}
use chroot_cbccd.Json.Edit.{cbcc_json_add, cbcc_json_remove}
use chroot_cbccd.Device.{RespCode, cbccd_device_get_info_by_guid}
use chroot_cbccd.Device.Pool.{IsValid}
use chroot_cbccd.Store.Devices.{set_guid_tbl_data-IsValid}
use chroot_cbccd.Admin.{
  AdminEnv, World, sent, put_data, get_data, happened, build_backup_cmd, send_backup,
  cbccd_admin_send_create_backup_cmd,
}
use chroot_cbccd.Admin.Backup.{BackupInfo, backup_table, get_backup_info_from_db}
use chroot_cbccd.Admin.Restore.{
  build_restore_backup_cmd, set_backup_file_contents, set_restore_result_into_db, send_restore,
  restore_found, cbccd_admin_send_restore_backup_cmd, remove_backup, delete_backup_info_from_db,
  cbccd_admin_delete_backup,
}
use chroot_cbccd.Admin.Action.{action_cmd, send_to_device, cbccd_admin_send_action_cmd}

abbrev pub WorldValid : {S : Type 0} → World S → Type 0
WorldValid w = IsValid w.devs

abbrev pub AnswerValid : {S : Type 0} → RespCode × World S → Type 0
AnswerValid r = IsValid r.1.devs

module _ {S : Type 0} (env : AdminEnv S) (w : World S) (v : IsValid w.devs) where
  pub put_data-WorldValid : (name guid t : Text) → WorldValid (put_data env w name guid t)
  unfolding put_data
  put_data-WorldValid name guid t =
      set_guid_tbl_data-IsValid env.exec env.dev w.devs w.db name guid t v

  send_backup-AnswerValid : (dev_guid cmd : Text) → AnswerValid (send_backup env w dev_guid cmd)
  unfolding send_backup
  send_backup-AnswerValid dev_guid cmd =
      elim (Option-cases (cbccd_device_get_info_by_guid w.devs dev_guid)) [
        | inl e ↦ rw (e, send_backup) v
        | inr (d, e) ↦ rw (e, send_backup) v
      ]

  pub create_backup-AnswerValid :
      (backup_guid dev_guid comment user : Text)
      → Ensures AnswerValid
          (cbccd_admin_send_create_backup_cmd env w backup_guid dev_guid comment user)
  unfolding cbccd_admin_send_create_backup_cmd
  create_backup-AnswerValid backup_guid dev_guid comment user =
      bind-Ensures AnswerValid (build_backup_cmd env.lib false backup_guid comment user) _
        (λ cmd e. send_backup-AnswerValid dev_guid cmd)

  send_to_device-AnswerValid :
      (dev_guid cmd : Text) → AnswerValid (send_to_device env w dev_guid cmd)
  unfolding send_to_device
  send_to_device-AnswerValid dev_guid cmd =
      elim (Option-cases (cbccd_device_get_info_by_guid w.devs dev_guid)) [
        | inl e ↦ rw (e, send_to_device) v
        | inr (d, e) ↦ elim (Bool-cases d.is_logined) [
          | inl y ↦ rw (e, send_to_device, y) v
          | inr y ↦ rw (e, send_to_device, y) v
        ]
      ]

  pub send_action-AnswerValid :
      (act_str content : Text)
      → Ensures AnswerValid (cbccd_admin_send_action_cmd env w act_str content)
  unfolding cbccd_admin_send_action_cmd
  send_action-AnswerValid act_str content =
      split-Ensures AnswerValid (cbcc_json_parse_from_buffer env.lib content _) _ v λ is.
        bind-Ensures AnswerValid (action_cmd env _ act_str) _
          (λ cmd e. send_to_device-AnswerValid _ cmd)

  set_restore_result-WorldValid :
      (dev_guid backup_guid : Text)
      → Ensures WorldValid (set_restore_result_into_db env w dev_guid backup_guid)
  unfolding set_restore_result_into_db
  set_restore_result-WorldValid dev_guid backup_guid =
      split-Ensures WorldValid (get_data env w backup_table dev_guid) _ v λ t.
        split-Ensures WorldValid (cbcc_json_add env.lib t _) _ tt
          (λ res. put_data-WorldValid backup_table dev_guid res)

  remove_backup-WorldValid :
      (dev_guid backup_guid old : Text) (is : List (Option Item))
      → Ensures WorldValid (remove_backup env w dev_guid backup_guid old is)
  unfolding remove_backup put_data
  remove_backup-WorldValid dev_guid backup_guid old is =
      split-Ensures WorldValid (cbcc_json_remove env.lib old _) _ tt
        (λ res. set_guid_tbl_data-IsValid env.exec env.dev w.devs w.db backup_table dev_guid res v)

  delete_info-WorldValid :
      (dev_guid backup_guid : Text)
      → Ensures WorldValid (delete_backup_info_from_db env w dev_guid backup_guid)
  unfolding delete_backup_info_from_db
  delete_info-WorldValid dev_guid backup_guid =
      split-Ensures WorldValid (get_data env w backup_table dev_guid) _ v λ t.
        split-Ensures WorldValid (cbcc_json_parse_from_buffer env.lib t _) _ v
          (λ is. remove_backup-WorldValid dev_guid backup_guid t is)

  pub delete_backup-AnswerValid :
      (backup_guid dev_guid : Text)
      → Ensures AnswerValid (cbccd_admin_delete_backup env w backup_guid dev_guid)
  unfolding cbccd_admin_delete_backup
  delete_backup-AnswerValid backup_guid dev_guid =
      bind-Ensures AnswerValid (delete_backup_info_from_db env w dev_guid backup_guid) _
        (λ r e. Ensures-some WorldValid _ r (delete_info-WorldValid dev_guid backup_guid) e)

module _ {S : Type 0} (env : AdminEnv S) (w : World S) (v : IsValid w.devs) where
  send_restore-AnswerValid :
      (dev_guid backup_guid cmd : Text)
      → Ensures AnswerValid (send_restore env w dev_guid backup_guid cmd)
  unfolding send_restore
  send_restore-AnswerValid dev_guid backup_guid cmd =
      elim (Option-cases (cbccd_device_get_info_by_guid w.devs dev_guid)) [
        | inl e ↦ rw (e, send_restore) v
        | inr (d, e) ↦ elim (Bool-cases d.is_logined) [
          | inl y ↦ elim (Bool-cases (env.sends d.sock cmd)) [
            | inl z ↦
                let next = happened env w (sent d.sock cmd) in
                rw (e, send_restore, y, z)
                  (bind-Ensures AnswerValid
                    (set_restore_result_into_db env next dev_guid backup_guid) _
                    (λ r f.
                      Ensures-some WorldValid _ r
                        (set_restore_result-WorldValid env next v dev_guid backup_guid) f))
            | inr z ↦ rw (e, send_restore, y, z) v
          ]
          | inr y ↦ rw (e, send_restore, y) v
        ]
      ]

  restore_found-AnswerValid :
      (dev_guid backup_guid : Text) (info : Option BackupInfo)
      → Ensures AnswerValid (restore_found env w dev_guid backup_guid info)
  restore_found-AnswerValid dev_guid backup_guid none = v
  restore_found-AnswerValid dev_guid backup_guid (some info) =
      elim (Option-cases (set_backup_file_contents env w dev_guid info)) [
        | inl e ↦ rw e v
        | inr (filled, e) ↦ rw e (
            bind-Ensures AnswerValid (build_restore_backup_cmd env.lib filled) _
              (λ cmd f. send_restore-AnswerValid dev_guid backup_guid cmd))
      ]

  pub send_restore_backup-AnswerValid :
      (dev_guid backup_guid : Text)
      → Ensures AnswerValid (cbccd_admin_send_restore_backup_cmd env w dev_guid backup_guid)
  unfolding cbccd_admin_send_restore_backup_cmd
  send_restore_backup-AnswerValid dev_guid backup_guid =
      bind-Ensures AnswerValid (get_backup_info_from_db env w dev_guid backup_guid) _
        (λ info e. restore_found-AnswerValid dev_guid backup_guid info)
