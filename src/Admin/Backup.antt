-- ===== src/Admin/Backup.antt =====
-- Backups: storing what an agent sends, restoring and deleting.
use chroot_cbccd.Base.{
  ℕ, Bool, false, Option, none, some, List, [], ◌∷◌, ◌++◌, ◌>>=◌, ltb, if◌then◌else◌, Status,
  success, failure, Text, codes, str_eq, snprintf,
}
use chroot_cbccd.Json.Parse.{
  Request, Item, object_type, string_type, int_type, string_big_type, cbcc_json_parse_from_buffer,
}
use chroot_cbccd.Json.Edit.{
  Jobj, new_object, int_given, boolean_given, cbcc_json_build, cbcc_json_add,
}
use chroot_cbccd.Digests.{decimal, get_md5sum_of_file, decode_base64_to_file}
use chroot_cbccd.Device.{
  DeviceInfo, RespCode, ok, json_invalid, create_backup_failed, db_oper_failed,
  cbccd_device_get_info_by_sock,
}
use chroot_cbccd.Config.Deploy.{jobj, jobj_under}
use chroot_cbccd.Admin.{
  AdminEnv, World, make_dir, request, text_after, big_after, int_after, text_under, happened,
  put_data, get_data, with_file,
}

-- struct cbccd_backup_info
pub record BackupInfo : Type 0 where
  pub auto_backup : ℕ
  pub timestamp : ℕ
  pub guid : Text
  pub comment : Text
  pub file_path : Text
  pub file_name : Text
  pub file_size : ℕ
  pub md5sum : Text
  pub base64_encoded : Option Text
  pub version : Text
  pub user : Text

-- After `memset`, with a guid.
abbrev pub empty_backup : Text → BackupInfo
empty_backup guid = record {
  auto_backup = 0;
  timestamp = 0;
  guid = guid;
  comment = [];
  file_path = [];
  file_name = [];
  file_size = 0;
  md5sum = [];
  base64_encoded = none;
  version = [];
  user = [];
}

abbrev pub backup_dir : Text → Text
backup_dir dev_guid = snprintf 128 (codes "/var/storage/sessions/backup/" ++ dev_guid)

abbrev pub backup_path : Text → Text → Text
backup_path dev_guid file_name =
    snprintf 128 (codes "/var/storage/sessions/backup/" ++ (dev_guid ++ (codes "/" ++ file_name)))

abbrev named : Text → ℕ → BackupInfo → BackupInfo
named dir now info =
    let name = snprintf 128 (codes "cfg_" ++ decimal 20 now) in
    record info {
      timestamp = now;
      file_name = name;
      file_path = snprintf 128 (dir ++ (codes "/" ++ name));
    }

-- A device that is logged in at a socket.
abbrev pub logined : Option DeviceInfo → Option DeviceInfo
logined none = none
logined (some d) = if d.is_logined then some d else none

abbrev same_sum : Option Text → Text → Bool
same_sum none sum = false
same_sum (some s) sum = str_eq s sum

abbrev pub backup_table : Text
backup_table = codes "device_backup"

module _ {S : Type 0} (env : AdminEnv S) where
  -- The file is written before its sum is looked at, and stays there if the sum differs.
  unfoldable pub write_backup : World S → BackupInfo → Text → Option BackupInfo × World S
  write_backup w info encoded =
      elim (decode_base64_to_file env.ssl env.opens_in env.opens_out encoded) [
        | none ↦ (none, w)
        | some bytes ↦
            let next = with_file env w info.file_path (some bytes) in
            if same_sum (get_md5sum_of_file env.ssl next.files info.file_path) info.md5sum
            then (some info, next)
            else (none, next)
      ]

  -- `create_backup_file`; `none` is -1.
  unfoldable pub create_backup_file : World S → Option ℕ → BackupInfo → Option BackupInfo × World S
  create_backup_file w sock info = elim (logined (cbccd_device_get_info_by_sock w.devs sock)) [
    | none ↦ (none, w)
    | some d ↦ elim info.base64_encoded [
      | none ↦ (none, w)
      | some encoded ↦
          let dir = backup_dir d.guid in
          write_backup (happened env w (make_dir dir)) (named dir env.dev.now info) encoded
    ]
  ]

  abbrev pub info_jobjs : BackupInfo → List Jobj
  info_jobjs info =
      jobj info.guid new_object
      ∷ jobj_under info.guid (codes "auto_backup") (boolean_given (ltb 0 info.auto_backup))
      ∷ text_under info.guid (codes "comment") info.comment
      ∷ jobj_under info.guid (codes "filesize") (int_given info.file_size)
      ∷ text_under info.guid (codes "md5") info.md5sum
      ∷ text_under info.guid (codes "name") info.file_name
      ∷ jobj_under info.guid (codes "timestamp") (int_given env.dev.now)
      ∷ text_under info.guid (codes "user") info.user
      ∷ text_under info.guid (codes "version") info.version
      ∷ []

  abbrev put_if : World S → Text → Text → Option Text → World S
  put_if w name guid none = w
  put_if w name guid (some t) = put_data env w name guid t

  unfoldable pub add_backup_info_into_db :
      World S → Option ℕ → BackupInfo → Option (Status × World S)
  add_backup_info_into_db w sock info = elim (logined (cbccd_device_get_info_by_sock w.devs sock)) [
    | none ↦ some (failure, w)
    | some d ↦ do
      old ← get_data env w backup_table d.guid
      jstr ← elim old [
        | none ↦ cbcc_json_build env.lib (info_jobjs info) >>= λ t. some (some t)
        | some t ↦ cbcc_json_add env.lib t (info_jobjs info)
      ]
      some (success, put_if w backup_table d.guid jstr)
  ]

  abbrev created_requests : List Request
  created_requests =
      request int_type 0 none (codes "auto_backup")
      ∷ request string_type 128 none (codes "guid")
      ∷ request string_type 128 none (codes "comment")
      ∷ request int_type 0 none (codes "filesize")
      ∷ request string_type 33 none (codes "md5sum")
      ∷ request string_big_type 0 none (codes "base64_encoded")
      ∷ request string_type 32 none (codes "version")
      ∷ request string_type 64 none (codes "user")
      ∷ []

  abbrev created_info : List (Option Item) → BackupInfo
  created_info (a ∷ g ∷ c ∷ f ∷ m ∷ b ∷ v ∷ u ∷ is) = record (empty_backup (text_after [] g)) {
    auto_backup = int_after 0 a;
    comment = text_after [] c;
    file_size = int_after 0 f;
    md5sum = text_after [] m;
    base64_encoded = big_after none b;
    version = text_after [] v;
    user = text_after [] u;
  }
  created_info is = empty_backup []

  abbrev db_code : Status → RespCode
  db_code success = ok
  db_code failure = db_oper_failed

  abbrev recorded : Option ℕ → Option BackupInfo × World S → Option (RespCode × World S)
  recorded sock (none, w) = some (create_backup_failed, w)
  recorded sock (some info, w) =
      add_backup_info_into_db w sock info >>= λ r. some (db_code r.0, r.1)

  unfoldable pub cbccd_admin_set_create_backup_info :
      World S → Option ℕ → Text → Option (RespCode × World S)
  cbccd_admin_set_create_backup_info w sock obj_data = do
    r ← cbcc_json_parse_from_buffer env.lib obj_data created_requests
    elim r [
      | none ↦ some (json_invalid, w)
      | some is ↦ recorded sock (create_backup_file w sock (created_info is))
    ]

  abbrev stored_requests : Text → List Request
  stored_requests guid =
      request object_type 0 none guid
      ∷ request string_type 128 (some guid) (codes "comment")
      ∷ request string_type 128 (some guid) (codes "name")
      ∷ request string_type 33 (some guid) (codes "md5")
      ∷ request string_type 32 (some guid) (codes "version")
      ∷ request string_type 64 (some guid) (codes "user")
      ∷ []

  abbrev stored_info : Text → List (Option Item) → BackupInfo
  stored_info guid (o ∷ c ∷ n ∷ m ∷ v ∷ u ∷ is) = record (empty_backup guid) {
    comment = text_after [] c;
    file_name = text_after [] n;
    md5sum = text_after [] m;
    version = text_after [] v;
    user = text_after [] u;
  }
  stored_info guid is = empty_backup guid

  -- `get_backup_info_from_db`; -1 is `some none`.
  unfoldable pub get_backup_info_from_db : World S → Text → Text → Option (Option BackupInfo)
  get_backup_info_from_db w dev_guid backup_guid = do
    old ← get_data env w backup_table dev_guid
    elim old [
      | none ↦ some none
      | some t ↦ do
        r ← cbcc_json_parse_from_buffer env.lib t (stored_requests backup_guid)
        some (elim r [ none ↦ none | some is ↦ some (stored_info backup_guid is) ])
    ]
