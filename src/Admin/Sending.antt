-- ===== src/Admin/Sending.antt =====
-- What was checked when a restore command is answered with OK, and who gets an action when.
use chroot_cbccd.Base.{
  ℕ, ◌+◌, ◌<◌, ◌≡◌, sym, true, false, ◌&&◌, Option, none, some, [], ◌∷◌, ◌++◌, ◌>>=◌, arith, inl,
  inr, Bool-cases, Option-cases, Text, str_eq, str_eq_iff,
}
use chroot_cbccd.Json.Edit.{cbcc_json_add}
use chroot_cbccd.Digests.{get_md5sum_of_file, get_base64_encoded_from_file}
use chroot_cbccd.Device.{RespCode, DeviceInfo, ok, cbccd_device_get_info_by_guid}
use chroot_cbccd.Admin.{AdminEnv, World, sent, happened, get_data, put_data}
use chroot_cbccd.Admin.Backup.{BackupInfo, backup_path, backup_table, get_backup_info_from_db}
use chroot_cbccd.Admin.Restore.{
  build_restore_backup_cmd, set_backup_file_contents, set_restore_result_into_db, send_restore,
  restore_found, cbccd_admin_send_restore_backup_cmd,
}
use chroot_cbccd.Admin.Action.{once, ActionInfo, fetch_interval, is_due}

module _ {S : Type 0} (env : AdminEnv S) (w : World S) (dev_guid : Text) where
  -- The file of a backup has the sum that is recorded, and `filled` has its text.
  abbrev pub Checked : BackupInfo → BackupInfo → Type 0
  Checked info filled =
      (get_md5sum_of_file env.ssl w.files (backup_path dev_guid info.file_name) ≡ some info.md5sum)
      × (t : Text) × (get_base64_encoded_from_file env.ssl w.files
            (backup_path dev_guid info.file_name)
          ≡ some t)
      × (filled ≡ record info { base64_encoded = some t })

  contents-Checked :
      (info filled : BackupInfo)
      → set_backup_file_contents env w dev_guid info ≡ some filled
      → Checked info filled
  unfolding set_backup_file_contents
  contents-Checked info filled e =
      let path = backup_path dev_guid info.file_name in
      elim (Option-cases (get_md5sum_of_file env.ssl w.files path)) [
        | inl n ↦ absurd (cc (rw n at e))
        | inr (sum, n) ↦ elim (Bool-cases (str_eq sum info.md5sum)) [
          | inl y ↦ elim (Option-cases (get_base64_encoded_from_file env.ssl w.files path)) [
            | inl m ↦ absurd (cc (rw (n, y, m) at e))
            | inr (t, m) ↦
                let built : some (record info { base64_encoded = some t }) ≡ some filled =
                  rw (n, y, m) at e in
                (rw (sym ((str_eq_iff sum info.md5sum).0 y)) n, t, m, cc (built))
          ]
          | inr z ↦ absurd (cc (rw (n, z) at e))
        ]
      ]

  -- Recording the result is no event.
  result-events :
      (backup_guid : Text) (after : World S)
      → set_restore_result_into_db env w dev_guid backup_guid ≡ some after
      → after.events ≡ w.events
  unfolding set_restore_result_into_db put_data
  result-events backup_guid after e = elim (Option-cases (get_data env w backup_table dev_guid)) [
    | inl n ↦ absurd (cc (rw n at e))
    | inr (none, n) ↦ let same : some w ≡ some after = rw n at e in cc (same)
    | inr (some t, n) ↦ stored (cbcc_json_add env.lib t _) (rw n at e)
  ]
    where
      put :
          (o : Option Text)
          → (o >>= λ res. some (put_data env w backup_table dev_guid res)) ≡ some after
          → after.events ≡ w.events
      put none f = absurd (cc (f))
      put (some res) f =
          let same : some (put_data env w backup_table dev_guid res) ≡ some after = f in cc (same)

      stored :
          (o : Option (Option Text))
          → (o >>= λ r. r >>= λ res. some (put_data env w backup_table dev_guid res)) ≡ some after
          → after.events ≡ w.events
      stored none f = absurd (cc (f))
      stored (some r) f = put r f

abbrev done_ok : {S : Type 0} → World S → Option (RespCode × World S)
done_ok r = some (ok, r)

module _ {S : Type 0} (env : AdminEnv S) (w : World S) (dev_guid : Text) where
  sent-Logined :
      (backup_guid cmd : Text) (after : World S)
      → send_restore env w dev_guid backup_guid cmd ≡ some (ok, after)
      → (d : DeviceInfo) × (cbccd_device_get_info_by_guid w.devs dev_guid ≡ some d)
        × (d.is_logined ≡ true)
        × (env.sends d.sock cmd ≡ true)
        × (after.events ≡ w.events ++ (sent d.sock cmd ∷ []))
  unfolding send_restore
  sent-Logined backup_guid cmd after e =
      elim (Option-cases (cbccd_device_get_info_by_guid w.devs dev_guid)) [
        | inl n ↦ absurd (cc (rw (n, send_restore) at e))
        | inr (d, n) ↦ elim (Bool-cases d.is_logined) [
          | inl y ↦ elim (Bool-cases (env.sends d.sock cmd)) [
            | inl z ↦ (d, n, y, z, recorded d (rw (n, y, z, send_restore) at e))
            | inr z ↦ absurd (cc (rw (n, y, z, send_restore) at e))
          ]
          | inr y ↦ absurd (cc (rw (n, y, send_restore) at e))
        ]
      ]
    where
      recorded :
          (d : DeviceInfo)
          → (set_restore_result_into_db env (happened env w (sent d.sock cmd)) dev_guid backup_guid
              >>= done_ok)
            ≡ some (ok, after)
          → after.events ≡ w.events ++ (sent d.sock cmd ∷ [])
      recorded d f =
          let next = happened env w (sent d.sock cmd) in
          elim (Option-cases (set_restore_result_into_db env next dev_guid backup_guid)) [
            | inl n ↦ absurd (cc (rw n at f))
            | inr (r, n) ↦
                let pair : some (ok, r) ≡ some (ok, after) = rw n at f in
                let same : r ≡ after = cc (pair) in
                rw (← same) (result-events env next dev_guid backup_guid r n)
          ]

-- Where restoring a backup is answered with OK, the backup was recorded for the device, the MD5 sum
-- of its file is the recorded one, and the command with the text of that very file was sent to the
-- device, which was known and logged in: it is the one event that was added.
pub send_restore_backup_cmd-Checked :
    {S : Type 0} (env : AdminEnv S) (w after : World S) (dev_guid backup_guid : Text)
    → cbccd_admin_send_restore_backup_cmd env w dev_guid backup_guid ≡ some (ok, after)
    → (info : BackupInfo) × (filled : BackupInfo) × (cmd : Text) × (d : DeviceInfo)
      × (get_backup_info_from_db env w dev_guid backup_guid ≡ some (some info))
      × Checked env w dev_guid info filled
      × (build_restore_backup_cmd env.lib filled ≡ some cmd)
      × (cbccd_device_get_info_by_guid w.devs dev_guid ≡ some d)
      × (d.is_logined ≡ true)
      × (env.sends d.sock cmd ≡ true)
      × (after.events ≡ w.events ++ (sent d.sock cmd ∷ []))
unfolding cbccd_admin_send_restore_backup_cmd
send_restore_backup_cmd-Checked env w after dev_guid backup_guid e =
    elim (Option-cases (get_backup_info_from_db env w dev_guid backup_guid)) [
      | inl n ↦ absurd (cc (rw n at e))
      | inr (none, n) ↦ absurd (cc (rw n at e))
      | inr (some info, n) ↦
          let found : restore_found env w dev_guid backup_guid (some info) ≡ some (ok, after) =
            rw n at e in
          elim (Option-cases (set_backup_file_contents env w dev_guid info)) [
            | inl m ↦ absurd (cc (rw m at found))
            | inr (filled, m) ↦ elim (Option-cases (build_restore_backup_cmd env.lib filled)) [
              | inl b ↦ absurd (cc (rw (m, b) at found))
              | inr (cmd, b) ↦
                  let (d, known, on, done, event) =
                    sent-Logined env w dev_guid backup_guid cmd after (rw (m, b) at found) in
                  let checked = contents-Checked env w dev_guid info filled m in
                  (info, filled, cmd, d, n, checked, b, known, on, done, event)
            ]
          ]
    ]

-- An action to be executed once, looked at by two polls that are more than
-- CBCC_ADMIN_DB_FETCH_INTERVAL apart: at most one of them takes it, and if its start time is the
-- very second of the first poll, neither does, nor any later one.
pub is_due-once :
    (local_day : ℕ → ℕ × ℕ) (a : ActionInfo) (poll next : ℕ)
    → a.exec_type ≡ once
    → poll + fetch_interval < next
    → ((is_due local_day poll a && is_due local_day next a) ≡ false)
      × (a.start_time ≡ poll
          → (is_due local_day poll a ≡ false) × (is_due local_day next a ≡ false))
unfolding is_due
is_due-once local_day a poll next e h =
    rw e (ground (arith, h), λ s. (ground (arith, s), ground (arith, s, h)))
