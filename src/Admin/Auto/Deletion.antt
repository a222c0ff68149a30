-- ===== src/Admin/Auto/Deletion.antt =====
-- Which automatic backups of a device are there, and the deletion of the oldest.
use chroot_cbccd.Base.{
  ℕ, zero, suc, ◌+◌, true, false, not, Option, none, some, List, [], ◌∷◌, ◌++◌, ◌>>=◌, ltb, length,
  get_elem?, if◌then◌else◌, Text, codes,
}
use chroot_cbccd.Json.Tree.{JsonC}
use chroot_cbccd.Json.Parse.{
  Request, Item, pairs, int_type, boolean_type, obj_pairs_type, cbcc_json_parse_from_buffer,
}
use chroot_cbccd.Cache.{cbccd_pgsql_cache_get_tbl_rows}
use chroot_cbccd.Cache.Names.{cbccd_pgsql_get_tbl_idx}
use chroot_cbccd.Admin.{AdminEnv, World, request, int_after, bool_after}
use chroot_cbccd.Admin.Auto.{
  parse_auto_backup_info_from_db, update_auto_backup_info, send_backup_cmd_to_devices,
}
use chroot_cbccd.Admin.Backup.{backup_table}
use chroot_cbccd.Admin.Restore.{delete_backup_info_from_db}

-- struct cbccd_backup_ts_info, and of struct cbccd_backup_info what is used here.
pub record TsInfo : Type 0 where
  pub timestamp : ℕ
  pub guid : Text

-- The request for all members of the root.
abbrev all_pairs : Request
all_pairs = record {
  key = [];
  parent_key = none;
  data_size = 0;
  must_specify = false;
  is_root = true;
  type = obj_pairs_type;
}

abbrev pairs_after : List (Option Item) → List (Text × Text)
pairs_after (some (pairs ps) ∷ is) = ps
pairs_after is = []

abbrev each_requests : List Request
each_requests =
    request boolean_type 0 none (codes "auto_backup")
    ∷ request int_type 0 none (codes "timestamp")
    ∷ []

-- A backup that is automatic. A timestamp that is not there is not written.
abbrev auto_info : ℕ → Text → List (Option Item) → List TsInfo
auto_info uninit guid (a ∷ t ∷ is) =
    if bool_after false a then record { timestamp = int_after uninit t; guid = guid } ∷ [] else []
auto_info uninit guid is = []

abbrev each_info : ℕ → Text → Option (List (Option Item)) → List TsInfo
each_info uninit guid none = []
each_info uninit guid (some is) = auto_info uninit guid is

unfoldable pub auto_infos : JsonC → ℕ → List (Text × Text) → Option (List TsInfo)
auto_infos lib uninit [] = some []
auto_infos lib uninit ((guid, t) ∷ rest) = do
  r ← cbcc_json_parse_from_buffer lib t each_requests
  infos ← auto_infos lib uninit rest
  some (each_info uninit guid r ++ infos)

-- `get_auto_backup_infos`; -1 and 0 both are no backups, as every caller takes them.
unfoldable pub get_auto_backup_infos : JsonC → ℕ → Text → Option (List TsInfo)
get_auto_backup_infos lib uninit jstr = do
  r ← cbcc_json_parse_from_buffer lib jstr (all_pairs ∷ [])
  elim r [ none ↦ some [] | some is ↦ auto_infos lib uninit (pairs_after is) ]

-- The loop of `get_lower_val_idx` from index `i`.
unfoldable pub lower_from : List TsInfo → ℕ → ℕ → ℕ → ℕ
lower_from [] i val idx = idx
lower_from (s ∷ ss) i val idx =
    let lower = ltb s.timestamp val in
    lower_from ss (i + 1) (if lower then s.timestamp else val) (if lower then i else idx)

-- With no entries, the first is read all the same.
unfoldable pub get_lower_val_idx : List TsInfo → Option ℕ
get_lower_val_idx [] = none
get_lower_val_idx (s ∷ ss) = some (lower_from ss 1 s.timestamp 0)

unfoldable pub replace_at : ℕ → TsInfo → List TsInfo → List TsInfo
replace_at i p [] = []
replace_at zero p (s ∷ ss) = p ∷ ss
replace_at (suc i) p (s ∷ ss) = s ∷ replace_at i p ss

abbrev pub empty_ts : TsInfo
empty_ts = record { timestamp = 0; guid = [] }

unfoldable pub empty_ts_infos : ℕ → List TsInfo
empty_ts_infos zero = []
empty_ts_infos (suc k) = empty_ts ∷ empty_ts_infos k

module _ {S : Type 0} (env : AdminEnv S) (dev_guid : Text) where
  -- The entry that is replaced was a backup, unless it is empty.
  unfoldable pub delete_replaced : World S → TsInfo → Option (World S)
  delete_replaced w s =
      if ltb 0 s.timestamp then delete_backup_info_from_db env w dev_guid s.guid else some w

  -- One round of the loop of `remove_old_auto_backup_infos`.
  unfoldable pub keep_or_delete : World S → List TsInfo → TsInfo → Option (World S × List TsInfo)
  keep_or_delete w slots p = do
    i ← get_lower_val_idx slots
    s ← get_elem? slots i
    if ltb s.timestamp p.timestamp
        then (delete_replaced w s >>= λ r. some (r, replace_at i p slots))
        else (delete_backup_info_from_db env w dev_guid p.guid >>= λ r. some (r, slots))

  unfoldable pub remove_loop : World S → List TsInfo → List TsInfo → Option (World S)
  remove_loop w slots [] = some w
  remove_loop w slots (p ∷ ps) = do next ← keep_or_delete w slots p; remove_loop next.0 next.1 ps

  unfoldable pub remove_old_auto_backup_infos : World S → List TsInfo → ℕ → Option (World S)
  remove_old_auto_backup_infos w infos max_keep_backups =
      remove_loop w (empty_ts_infos max_keep_backups) infos

module _ {S : Type 0} (env : AdminEnv S) where
  -- The loop over the rows, which are a copy.
  unfoldable pub remove_rows : World S → ℕ → List (Text × Text) → Option (World S)
  remove_rows w max_keep_backups [] = some w
  remove_rows w max_keep_backups ((guid, jstr) ∷ rest) = do
    infos ← get_auto_backup_infos env.lib env.uninit_int jstr
    next ←
        (if ltb max_keep_backups (length infos)
          then remove_old_auto_backup_infos env guid w infos max_keep_backups
          else some w)
    remove_rows next max_keep_backups rest

  unfoldable pub remove_auto_backup_infos : World S → ℕ → Option (World S)
  remove_auto_backup_infos w max_keep_backups = do
    rows ← cbccd_pgsql_cache_get_tbl_rows w.db.tbl_infos (cbccd_pgsql_get_tbl_idx backup_table)
    remove_rows w max_keep_backups rows

  -- One round of `cbccd_admin_auto_backup_proc` in which it fetches.
  unfoldable pub auto_backup_round : World S → Option (World S)
  auto_backup_round w = do
    info ← parse_auto_backup_info_from_db env w
    elim info [
      | none ↦ some w
      | some i ↦ if not i.take_backup then some w else do
        asked ← send_backup_cmd_to_devices env w
        updated ← update_auto_backup_info env asked i
        remove_auto_backup_infos updated i.max_keep_backups
    ]
