-- ===== src/Wapi/Edited.antt =====
-- A row that a request edits is what a later request gets.
use chroot_cbccd.Base.{
  ℕ, ◌+◌, ◌≡◌, refl, ap, ◌∙◌, true, Option, some, List, [], ◌∷◌, take, ◌⊎◌, inl, inr, Bool-cases,
  Text, str_eq,
}
use chroot_cbccd.Json.Parse.{Item}
use chroot_cbccd.Cache.{TblInfo, cbccd_pgsql_cache_get_tbl_data}
use chroot_cbccd.Cache.Names.{tbl_names, max_tbl_num, index_from, cbccd_pgsql_get_tbl_idx}
use chroot_cbccd.Cache.Database.{AllValid, AllValid-update, names_of, has_table}
use chroot_cbccd.Cache.Reading.{get_tbl_data-eq-lookup}
use chroot_cbccd.Device.{DeviceInfo, ok, db_oper_failed, cbccd_device_get_info_by_guid}
use chroot_cbccd.Store.{
  Server, Db, Result, tuples_ok, command_ok, sql_failed, StoreCode, stored, not_stored,
  no_device_info, sql, select_text, change_kind, after_statement, after_select, store_data,
  cbccd_pgsql_set_guid_tbl_data,
}
use chroot_cbccd.Store.Mirror.{Mirrors, Serves, Fits, Kept, set_guid_tbl_data-Mirrors}
use chroot_cbccd.Wapi.{WapiEnv, Daemon, WapiRequest, Reply, dev_env, parse_data, text_at}
use chroot_cbccd.Wapi.ActType.{edit_act, get_act}
use chroot_cbccd.Wapi.Tables.{
  guid_requests, edit_requests, store_resp, store_row, edit_row, get_row, process_wapi_edit_req,
  process_wapi_get_req,
}
use chroot_cbccd.Wapi.Dispatch.{process_act}

index_from-has_table :
    (k i : ℕ) (ts : List TblInfo) (name : Text)
    → index_from k (names_of ts) name ≡ some i
    → has_table ts name ≡ true
unfolding index_from has_table
index_from-has_table k i [] name e = absurd (cc)
index_from-has_table k i (t ∷ ts) name e = elim (Bool-cases (str_eq name t.tbl_name)) [
  | inl h ↦ rw h refl
  | inr h ↦ rw h (index_from-has_table (k + 1) i ts name (rw h at e))
]

module _ {S : Type 0} (exec : Server S) (db : Db S) (v : AllValid db.tbl_infos)
    (name guid t : Text) where
  statement-names :
      (kind : Text) (p : Result × S)
      → names_of (after_statement db name guid t kind p).1.tbl_infos ≡ names_of db.tbl_infos
  statement-names kind (command_ok, s) = (AllValid-update db.tbl_infos name guid t v).1
  statement-names kind (tuples_ok rows, s) = refl
  statement-names kind (sql_failed, s) = refl

  select-names :
      (p : Result × S)
      → names_of (after_select exec db name guid t p).1.tbl_infos ≡ names_of db.tbl_infos
  select-names (tuples_ok rows, s) = statement-names (change_kind rows) _
  select-names (command_ok, s) = refl
  select-names (sql_failed, s) = refl

  store_data-names : names_of (store_data exec db name guid t).1.tbl_infos ≡ names_of db.tbl_infos
  unfolding store_data
  store_data-names = select-names (exec db.server (sql (select_text name guid)))

-- The tables bear the names of the array, and the cache has what the server holds.
pub record Cached {S : Type 0} (content : S → Text → Text → Option Text) (db : Db S) : Type 0 where
  pub named : names_of db.tbl_infos ≡ take max_tbl_num tbl_names
  pub valid : AllValid db.tbl_infos
  pub mirrors : Mirrors content db

get_tbl_data-content :
    {S : Type 0} (content : S → Text → Text → Option Text) (db : Db S) (name guid : Text) (i : ℕ)
    → Cached content db
    → cbccd_pgsql_get_tbl_idx name ≡ some i
    → cbccd_pgsql_cache_get_tbl_data db.tbl_infos (cbccd_pgsql_get_tbl_idx name) (some guid)
      ≡ some (content db.server name guid)
unfolding cbccd_pgsql_get_tbl_idx
get_tbl_data-content content db name guid i c e =
    get_tbl_data-eq-lookup db.tbl_infos name guid i c.named e
    ∙ ap some (c.mirrors name guid (index_from-has_table 0 i db.tbl_infos name (rw c.named e)))

store_resp-cases : (c : StoreCode) → (store_resp c ≡ ok) ⊎ (store_resp c ≡ db_oper_failed)
store_resp-cases stored = inl refl
store_resp-cases not_stored = inr refl
store_resp-cases no_device_info = inr refl

store_resp-stored : (c : StoreCode) → store_resp c ≡ ok → c ≡ stored
store_resp-stored stored e = refl
store_resp-stored not_stored e = absurd (cc (e))
store_resp-stored no_device_info e = absurd (cc (e))

module _ {S : Type 0} (env : WapiEnv S) (d : Daemon S)
    (content : S → Text → Text → Option Text) where
  -- The row is stored, or the answer is that it was not.
  store_row-Cached :
      (name guid t : Text) (dev : DeviceInfo)
      → Cached content d.world.db
      → Serves env.admin.exec content name guid t
      → Fits name guid t
      → cbccd_device_get_info_by_guid d.world.devs guid ≡ some dev
      → let r = store_row env d name guid t in
        ((r.code ≡ ok) ⊎ (r.code ≡ db_oper_failed))
        × Cached content r.daemon.world.db
        × (r.code ≡ ok → content r.daemon.world.db.server name guid ≡ some t)
  unfolding store_row cbccd_pgsql_set_guid_tbl_data
  store_row-Cached name guid t dev c laws fits known =
      let db = d.world.db in
      let exec = env.admin.exec in
      let code = (store_data exec db name guid t).0 in
      let kept : Kept content name guid t (store_data exec db name guid t) =
        rw (known, cbccd_pgsql_set_guid_tbl_data) at
          (set_guid_tbl_data-Mirrors exec content (dev_env env d) d.world.devs db name guid t dev
            c.valid c.mirrors laws fits known).1 in
      rw (known, cbccd_pgsql_set_guid_tbl_data)
        (
          store_resp-cases code,
          record {
            named = store_data-names exec db c.valid name guid t ∙ c.named;
            valid = kept.0;
            mirrors = kept.1;
          },
          λ e. kept.2 (store_resp-stored code e),
        )

  module _ (c : Cached content d.world.db) (type guid t : Text) (i : ℕ)
      (idx : cbccd_pgsql_get_tbl_idx type ≡ some i)
      (there : content d.world.db.server type guid ≡ some t) where
    get_row-content :
        get_row env d type guid ≡ some (record { code = ok; resp_data = some t; daemon = d })
    unfolding get_row
    get_row-content = rw (get_tbl_data-content content d.world.db type guid i c idx, there) refl

    edit_row-content :
        (new : Text) → edit_row env d type guid new ≡ some (store_row env d type guid new)
    unfolding edit_row
    edit_row-content new =
        rw (get_tbl_data-content content d.world.db type guid i c idx, there) refl

  get_req-content :
      (req : WapiRequest) (i : ℕ) (js : List (Option Item)) (t : Text)
      → cbccd_pgsql_get_tbl_idx req.type ≡ some i
      → parse_data env d req.content guid_requests ≡ some (some js)
      → Cached content d.world.db
      → content d.world.db.server req.type (text_at env d js 0) ≡ some t
      → process_act env d get_act req ≡ some (record { code = ok; resp_data = some t; daemon = d })
  unfolding process_act process_wapi_get_req
  get_req-content req i js t idx parses c there =
      rw (idx, process_wapi_get_req, parses)
        (get_row-content c req.type (text_at env d js 0) t i idx there)

-- A row that is there, of a known table and under the guid of a known device, in a cache that has
-- what the server holds, by a server that does what SQL says of statements that are not cut: a
-- request that edits it is answered, with OK or as failed, and leaves such a cache; if the answer
-- is OK, any later request for that row is answered with OK and the data that the first one sent.
pub edit_req-get_req :
    {S : Type 0} (env : WapiEnv S) (d : Daemon S) (content : S → Text → Text → Option Text)
    (req : WapiRequest) (i : ℕ) (is : List (Option Item)) (dev : DeviceInfo) (old : Text)
    → let guid = text_at env d is 0 in
      let t = text_at env d is 1 in
      cbccd_pgsql_get_tbl_idx req.type ≡ some i
      → parse_data env d req.content edit_requests ≡ some (some is)
      → Cached content d.world.db
      → Serves env.admin.exec content req.type guid t
      → Fits req.type guid t
      → cbccd_device_get_info_by_guid d.world.devs guid ≡ some dev
      → content d.world.db.server req.type guid ≡ some old
      → (r : Reply S) × (process_act env d edit_act req ≡ some r)
        × ((r.code ≡ ok) ⊎ (r.code ≡ db_oper_failed))
        × Cached content r.daemon.world.db
        × (r.code ≡ ok
            → (later : WapiRequest) (js : List (Option Item)) → later.type ≡ req.type
            → parse_data env r.daemon later.content guid_requests ≡ some (some js)
            → text_at env r.daemon js 0 ≡ guid
            → process_act env r.daemon get_act later
              ≡ some (record { code = ok; resp_data = some t; daemon = r.daemon }))
unfolding process_act process_wapi_edit_req
edit_req-get_req env d content req i is dev old idx parses c laws fits known there =
    let guid = text_at env d is 0 in
    let r = store_row env d req.type guid (text_at env d is 1) in
    let (answer, kept, holds) =
      store_row-Cached env d content req.type guid (text_at env d is 1) dev c laws fits known in
    (
      r,
      rw (idx, process_wapi_edit_req, parses)
          (edit_row-content env d content c req.type guid old i idx there _),
      answer,
      kept,
      λ e later js same asks own.
          get_req-content env r.daemon content later i js (text_at env d is 1) (rw same idx) asks
            kept (rw (same, own) (holds e)),
    )
