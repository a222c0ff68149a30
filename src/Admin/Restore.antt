-- ===== src/Admin/Restore.antt =====
-- Backups are restored and deleted.
use chroot_cbccd.Base.{
  not, Option, none, some, List, [], ◌∷◌, ◌>>=◌, if◌then◌else◌, Text, codes, str_eq,
}
use chroot_cbccd.Json.Tree.{JsonC}
use chroot_cbccd.Json.Parse.{Item, string_type, cbcc_json_parse_from_buffer}
use chroot_cbccd.Json.Edit.{
  new_object, string_given, int_given, cbcc_json_build, cbcc_json_add, cbcc_json_remove,
}
use chroot_cbccd.Digests.{get_md5sum_of_file, get_base64_encoded_from_file}
use chroot_cbccd.Store.{cbccd_pgsql_rm_guid_tbl_data}
use chroot_cbccd.Device.{
  RespCode, ok, not_connected, not_logined, send_failed, no_exist_backup, no_valid_backup,
  cbccd_device_get_info_by_guid,
}
use chroot_cbccd.Config.Deploy.{text_jobj, jobj, jobj_under}
use chroot_cbccd.Admin.{
  AdminEnv, World, sent, remove_path, request, text_after, text_under, happened, put_data, get_data,
  with_file,
}
use chroot_cbccd.Admin.Backup.{
  BackupInfo, backup_dir, backup_path, backup_table, get_backup_info_from_db,
}

-- `build_restore_backup_cmd`
unfoldable pub build_restore_backup_cmd : JsonC → BackupInfo → Option Text
build_restore_backup_cmd lib info =
    let parent = codes "data" in
    cbcc_json_build lib (
      text_jobj (codes "cmd") (codes "device.restore.backup")
      ∷ jobj parent new_object
      ∷ jobj_under parent (codes "auto_backup") (int_given info.auto_backup)
      ∷ text_under parent (codes "guid") info.guid
      ∷ text_under parent (codes "comment") info.comment
      ∷ jobj_under parent (codes "filesize") (int_given info.file_size)
      ∷ text_under parent (codes "md5sum") info.md5sum
      ∷ jobj_under parent (codes "base64_encoded") (string_given info.base64_encoded)
      ∷ text_under parent (codes "version") info.version
      ∷ text_under parent (codes "user") info.user
      ∷ [])

module _ {S : Type 0} (env : AdminEnv S) (w : World S) where
  -- `set_backup_file_contents`; `none` is -1.
  unfoldable pub set_backup_file_contents : Text → BackupInfo → Option BackupInfo
  set_backup_file_contents dev_guid info = do
    let path = backup_path dev_guid info.file_name
    sum ← get_md5sum_of_file env.ssl w.files path
    if str_eq sum info.md5sum
        then (get_base64_encoded_from_file env.ssl w.files path >>= λ t.
            some (record info { base64_encoded = some t }))
        else none

  -- The pointer to the new text stays NULL where the old one cannot be parsed, and is stored.
  unfoldable pub set_restore_result_into_db : Text → Text → Option (World S)
  set_restore_result_into_db dev_guid backup_guid = do
    old ← get_data env w backup_table dev_guid
    elim old [
      | none ↦ some w
      | some t ↦ do
        r ← cbcc_json_add env.lib t (
            jobj (codes "last_restore") new_object
            ∷ text_under (codes "last_restore") (codes "backup") backup_guid
            ∷ jobj_under (codes "last_restore") (codes "timestamp") (int_given env.dev.now)
            ∷ [])
        res ← r
        some (put_data env w backup_table dev_guid res)
    ]

module _ {S : Type 0} (env : AdminEnv S) (w : World S) where
  -- Sending it, and the result if it was sent.
  unfoldable pub send_restore : Text → Text → Text → Option (RespCode × World S)
  send_restore dev_guid backup_guid cmd = elim (cbccd_device_get_info_by_guid w.devs dev_guid) [
    | none ↦ some (not_connected, w)
    | some d ↦
        let next = happened env w (sent d.sock cmd) in
        if not d.is_logined
        then some (not_logined, w)
        else if not (env.sends d.sock cmd)
        then some (send_failed, next)
        else (set_restore_result_into_db env next dev_guid backup_guid >>= λ r. some (ok, r))
  ]

  abbrev pub restore_filled : Text → Text → Option BackupInfo → Option (RespCode × World S)
  restore_filled dev_guid backup_guid none = some (no_valid_backup, w)
  restore_filled dev_guid backup_guid (some info) =
      build_restore_backup_cmd env.lib info >>= send_restore dev_guid backup_guid

  abbrev pub restore_found : Text → Text → Option BackupInfo → Option (RespCode × World S)
  restore_found dev_guid backup_guid none = some (no_exist_backup, w)
  restore_found dev_guid backup_guid (some info) =
      restore_filled dev_guid backup_guid (set_backup_file_contents env w dev_guid info)

  unfoldable pub cbccd_admin_send_restore_backup_cmd : Text → Text → Option (RespCode × World S)
  cbccd_admin_send_restore_backup_cmd dev_guid backup_guid =
      get_backup_info_from_db env w dev_guid backup_guid >>= restore_found dev_guid backup_guid

  abbrev name_after : Text → List (Option Item) → Text
  name_after old [] = old
  name_after old (i ∷ is) = text_after old i

  -- The file is removed, then the member; the new text is NULL if the old one cannot be parsed.
  unfoldable pub remove_backup : Text → Text → Text → List (Option Item) → Option (World S)
  remove_backup dev_guid backup_guid old is = do
    let path = backup_path dev_guid (name_after env.dev.uninit is)
    let next = happened env (with_file env w path none) (remove_path path)
    r ← cbcc_json_remove env.lib old (jobj backup_guid new_object ∷ [])
    res ← r
    some (put_data env next backup_table dev_guid res)

  -- `delete_backup_info_from_db`
  unfoldable pub delete_backup_info_from_db : Text → Text → Option (World S)
  delete_backup_info_from_db dev_guid backup_guid = do
    old ← get_data env w backup_table dev_guid
    elim old [
      | none ↦ some w
      | some t ↦ do
        r ←
            cbcc_json_parse_from_buffer env.lib t
              (request string_type 128 (some backup_guid) (codes "name") ∷ [])
        elim r [ none ↦ some w | some is ↦ remove_backup dev_guid backup_guid t is ]
    ]

module _ {S : Type 0} (env : AdminEnv S) (w : World S) where
  unfoldable pub cbccd_admin_delete_backup : Text → Text → Option (RespCode × World S)
  cbccd_admin_delete_backup backup_guid dev_guid =
      delete_backup_info_from_db env w dev_guid backup_guid >>= λ r. some (ok, r)

  -- `remove` of the directory, which fails while there are files in it.
  unfoldable pub cbccd_admin_delete_all_backups : Text → World S
  cbccd_admin_delete_all_backups dev_guid =
      happened env
        (record w { db = cbccd_pgsql_rm_guid_tbl_data env.exec w.db backup_table dev_guid })
        (remove_path (backup_dir dev_guid))
