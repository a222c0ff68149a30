-- ===== src/Store/Mirror.antt =====
-- The cache as a mirror of the server's tables, under storing and removing.
use chroot_cbccd.Base.{
  ◌-◌, ◌<◌, ◌≡◌, refl, sym, ◌∙◌, Bool, true, false, ◌&&◌, Option, none, some, List, [], ◌∷◌, arith,
  inl, inr, Bool-cases, if◌then◌else◌, length, take_all, Text, str_eq, str_eq_iff, str_eq_refl,
}
use chroot_cbccd.Cache.{TblInfo, update_db_cache, remove_db_cache}
use chroot_cbccd.Cache.Database.{
  AllValid, names_of, lookup_db, has_table, lookup_db-update, lookup_db-remove, AllValid-update,
  AllValid-remove,
}
use chroot_cbccd.Device.{DeviceMgr, DeviceInfo, cbccd_device_get_info_by_guid}
use chroot_cbccd.Device.Json.{Env}
use chroot_cbccd.Store.{
  Result, tuples_ok, command_ok, sql_failed, Server, Db, select_text, insert_text, update_text,
  delete_text, max_sql_len, sql, store_text, change_kind, StoreCode, stored, not_stored, served,
  with_cached, after_statement, after_select, after_delete, store_data,
  cbccd_pgsql_set_guid_tbl_data, cbccd_pgsql_rm_guid_tbl_data,
}

abbrev pub is_some : Option Text → Bool
is_some none = false
is_some (some t) = true

abbrev pub has_row : List (Text × Text) → Bool
has_row [] = false
has_row (r ∷ rs) = true

-- Two states hold the same data, or the same but for one guid of one table.
abbrev pub Same : {S : Type 0} → (S → Text → Text → Option Text) → S → S → Type 0
Same content s r = (n g : Text) → content r n g ≡ content s n g

abbrev pub Wrote :
    {S : Type 0} → (S → Text → Text → Option Text) → S → S → Text → Text → Option Text → Type 0
Wrote content s r name guid o =
    (n g : Text) → content r n g ≡ (if str_eq name n && str_eq guid g then o else content s n g)

-- A statement that changes data does so if it is answered with PGRES_COMMAND_OK, and else nothing.
abbrev pub Did :
    {S : Type 0}
    → (S → Text → Text → Option Text)
    → S
    → Text
    → Text
    → Option Text
    → Result × S
    → Type 0
Did content s name guid o (command_ok, r) = Wrote content s r name guid o
Did content s name guid o (tuples_ok rows, r) = Same content s r
Did content s name guid o (sql_failed, r) = Same content s r

-- What SQL says of the statements for one guid of one table, of a server that holds `content`.
pub record Serves {S : Type 0} (exec : Server S) (content : S → Text → Text → Option Text)
    (name guid t : Text) : Type 0 where
  pub select_same : (s : S) → Same content s (exec s (select_text name guid)).1
  pub select_rows :
      (s : S) (rows : List (Text × Text))
      → (exec s (select_text name guid)).0 ≡ tuples_ok rows
      → has_row rows ≡ is_some (content s name guid)
  pub inserts :
      (s : S)
      → is_some (content s name guid) ≡ false
      → Did content s name guid (some t) (exec s (insert_text name guid t))
  pub updates :
      (s : S)
      → is_some (content s name guid) ≡ true
      → Did content s name guid (some t) (exec s (update_text name guid t))
  pub deletes : (s : S) → Did content s name guid none (exec s (delete_text name guid))

-- The statements are not cut.
pub record Fits (name guid t : Text) : Type 0 where
  pub select_fits : length (select_text name guid) < max_sql_len
  pub insert_fits : length (insert_text name guid t) < max_sql_len
  pub update_fits : length (update_text name guid t) < max_sql_len
  pub delete_fits : length (delete_text name guid) < max_sql_len

-- Every look-up in a cached table gives what the server holds.
abbrev pub Mirrors : {S : Type 0} → (S → Text → Text → Option Text) → Db S → Type 0
Mirrors content db =
    (n g : Text)
    → has_table db.tbl_infos n ≡ true
    → lookup_db db.tbl_infos n g ≡ content db.server n g

has_table-names :
    (ts us : List TblInfo) (n : Text) → names_of ts ≡ names_of us → has_table ts n ≡ has_table us n
unfolding has_table
has_table-names [] [] n e = refl
has_table-names [] (u ∷ us) n e = absurd (cc)
has_table-names (t ∷ ts) [] n e = absurd (cc)
has_table-names (t ∷ ts) (u ∷ us) n e =
    let same : t.tbl_name ≡ u.tbl_name = cc in
    let rest : names_of ts ≡ names_of us = cc in rw (same, has_table-names ts us n rest) refl

not_cut : (t : Text) → length t < max_sql_len → sql t ≡ t
not_cut t h = take_all (max_sql_len - 1) t (omega (arith, h))

module _ {S : Type 0} (exec : Server S) (content : S → Text → Text → Option Text) (db : Db S)
    (v : AllValid db.tbl_infos) (m : Mirrors content db) where
  Mirrors-served : (s : S) → Same content db.server s → Mirrors content (served db s)
  Mirrors-served s same n g h = m n g h ∙ sym (same n g)

  Mirrors-with_cached :
      (s : S) (name guid t kind : Text)
      → Wrote content db.server s name guid (some t)
      → Mirrors content (with_cached db s name guid t kind)
  Mirrors-with_cached s name guid t kind w n g h =
      let ts = db.tbl_infos in
      let there : has_table ts n ≡ true =
        has_table-names ts (update_db_cache ts name guid t) n
          (sym (AllValid-update ts name guid t v).1)
        ∙ h in
      elim (Bool-cases (str_eq name n)) [
        | inl y ↦
            let same = (str_eq_iff name n).0 y in
            rw (lookup_db-update ts name guid t n g v, w n g, y, same, there, m n g there) refl
        | inr y ↦ ground (arith, lookup_db-update ts name guid t n g v, w n g, y, m n g there)
      ]

  Mirrors-removed :
      (s : S) (name guid : Text)
      → Wrote content db.server s name guid none
      → Mirrors content (after_delete db name guid (command_ok, s))
  Mirrors-removed s name guid w n g h =
      let ts = db.tbl_infos in
      let there : has_table ts n ≡ true =
        has_table-names ts (remove_db_cache ts name guid) n (sym (AllValid-remove ts name guid v).1)
        ∙ h in
      ground (arith, lookup_db-remove ts name guid n g v, w n g, m n g there)

Did-after :
    {S : Type 0} (content : S → Text → Text → Option Text) (s r : S) (name guid : Text)
    (o : Option Text) (p : Result × S)
    → Same content s r
    → Did content r name guid o p
    → Did content s name guid o p
Did-after content s r name guid o (command_ok, q) same w = λ n g. rw (w n g, same n g) refl
Did-after content s r name guid o (tuples_ok rows, q) same w = λ n g. w n g ∙ same n g
Did-after content s r name guid o (sql_failed, q) same w = λ n g. w n g ∙ same n g

-- What holds of a manager afterwards: valid tables, the mirror, and the data where it was stored.
abbrev pub Kept :
    {S : Type 0} → (S → Text → Text → Option Text) → Text → Text → Text → StoreCode × Db S → Type 0
Kept content name guid t (code, db) =
    AllValid db.tbl_infos
    × Mirrors content db
    × (code ≡ stored → content db.server name guid ≡ some t)

module _ {S : Type 0} (exec : Server S) (content : S → Text → Text → Option Text) (db : Db S)
    (v : AllValid db.tbl_infos) (m : Mirrors content db) (name guid t : Text) where
  Kept-refused :
      (s : S) → Same content db.server s → Kept content name guid t (not_stored, served db s)
  Kept-refused s same = (v, Mirrors-served exec content db v m s same, λ e. absurd (cc))

  Kept-statement :
      (kind : Text) (p : Result × S)
      → Did content db.server name guid (some t) p
      → Kept content name guid t (after_statement db name guid t kind p)
  Kept-statement kind (command_ok, s) w = (
    (AllValid-update db.tbl_infos name guid t v).0,
    Mirrors-with_cached exec content db v m s name guid t kind w,
    λ e. rw (w name guid, str_eq_refl name, str_eq_refl guid) refl,
  )
  Kept-statement kind (tuples_ok rows, s) w = Kept-refused s w
  Kept-statement kind (sql_failed, s) w = Kept-refused s w

  module _ (laws : Serves exec content name guid t) (fits : Fits name guid t) where
    stores :
        (rows : List (Text × Text)) (s : S)
        → has_row rows ≡ is_some (content s name guid)
        → Did content s name guid (some t) (exec s (sql (store_text rows name guid t)))
    stores [] s e = rw (not_cut (insert_text name guid t) fits.insert_fits) (laws.inserts s (sym e))
    stores (r ∷ rs) s e =
        rw (not_cut (update_text name guid t) fits.update_fits) (laws.updates s (sym e))

    Kept-select :
        (p : Result × S)
        → Same content db.server p.1
        → ((rows : List (Text × Text))
            → p.0 ≡ tuples_ok rows
            → has_row rows ≡ is_some (content db.server name guid))
        → Kept content name guid t (after_select exec db name guid t p)
    Kept-select (tuples_ok rows, s) same told =
        Kept-statement (change_kind rows) (exec s (sql (store_text rows name guid t))) (
          Did-after content db.server s name guid (some t)
            (exec s (sql (store_text rows name guid t))) same
            (stores rows s (rw (same name guid) (told rows refl))))
    Kept-select (command_ok, s) same told = Kept-refused s same
    Kept-select (sql_failed, s) same told = Kept-refused s same

    store_data-Kept : Kept content name guid t (store_data exec db name guid t)
    unfolding store_data
    store_data-Kept = rw (not_cut (select_text name guid) fits.select_fits) (
        Kept-select (exec db.server (select_text name guid)) (laws.select_same db.server)
          (laws.select_rows db.server))

-- Storing under the guid of a known device, by a server that does what SQL says of statements that
-- are not cut and answers them or not: the devices are as they were, the tables stay valid and
-- every look-up in the cache still gives what the server holds; if the code says that it was
-- stored, the server has the data.
pub set_guid_tbl_data-Mirrors :
    {S : Type 0} (exec : Server S) (content : S → Text → Text → Option Text) (env : Env)
    (devs : DeviceMgr) (db : Db S) (name guid t : Text) (d : DeviceInfo)
    → AllValid db.tbl_infos
    → Mirrors content db
    → Serves exec content name guid t
    → Fits name guid t
    → cbccd_device_get_info_by_guid devs guid ≡ some d
    → let (code, after, kept) = cbccd_pgsql_set_guid_tbl_data exec env devs db name guid t in
      (after ≡ devs) × Kept content name guid t (code, kept)
unfolding cbccd_pgsql_set_guid_tbl_data
set_guid_tbl_data-Mirrors exec content env devs db name guid t d v m laws fits e =
    rw (e, cbccd_pgsql_set_guid_tbl_data)
      (refl, store_data-Kept exec content db v m name guid t laws fits)

-- Removing keeps the tables valid and the cache a mirror of the server.
pub rm_guid_tbl_data-Mirrors :
    {S : Type 0} (exec : Server S) (content : S → Text → Text → Option Text) (db : Db S)
    (name guid t : Text)
    → AllValid db.tbl_infos
    → Mirrors content db
    → Serves exec content name guid t
    → Fits name guid t
    → let kept = cbccd_pgsql_rm_guid_tbl_data exec db name guid in
      AllValid kept.tbl_infos × Mirrors content kept
unfolding cbccd_pgsql_rm_guid_tbl_data
rm_guid_tbl_data-Mirrors exec content db name guid t v m laws fits =
    rw (not_cut (delete_text name guid) fits.delete_fits)
      (Kept-delete (exec db.server (delete_text name guid)) (laws.deletes db.server))
  where
    Kept-delete :
        (p : Result × _)
        → Did content db.server name guid none p
        → AllValid (after_delete db name guid p).tbl_infos
          × Mirrors content (after_delete db name guid p)
    Kept-delete (command_ok, s) w = (
      (AllValid-remove db.tbl_infos name guid v).0,
      Mirrors-removed exec content db v m s name guid w,
    )
    Kept-delete (tuples_ok rows, s) w = (v, Mirrors-served exec content db v m s w)
    Kept-delete (sql_failed, s) w = (v, Mirrors-served exec content db v m s w)
