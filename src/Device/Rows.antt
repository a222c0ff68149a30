-- ===== src/Device/Rows.antt =====
-- The devices that the rows of their table add at the start.
use chroot_cbccd.Base.{
  ◌≡◌, ◌≢◌, refl, sym, ◌∙◌, false, none, some, List, [], ◌∷◌, inl, inr, Option-cases, Bool-cases,
  Text, codes, str_eq, str_eq_iff, str_eq_refl,
}
use chroot_cbccd.Device.{
  RegStatus, DeviceInfo, DeviceMgr, add_device_info, cbccd_device_get_info_by_guid,
}
use chroot_cbccd.Device.Json.{Env}
use chroot_cbccd.Device.Login.{new_device, parse_device_reg_info, add_device_info_by_guid}
use chroot_cbccd.Device.Outcome.{device, flag}
use chroot_cbccd.Device.Pool.{IsValid, add-IsValid}
use chroot_cbccd.Device.Start.{offline_text, read_device_row, read_device_rows}
use chroot_cbccd.Store.{Server, Db, cbccd_pgsql_set_guid_tbl_data}
use chroot_cbccd.Store.Devices.{device-add, set_guid_tbl_data-adds}

known_same :
    {S : Type 0} (exec : Server S) (env : Env) (m : DeviceMgr) (db : Db S) (name guid t : Text)
    (d : DeviceInfo)
    → device m guid ≡ some d
    → (cbccd_pgsql_set_guid_tbl_data exec env m db name guid t).1 ≡ m
unfolding cbccd_pgsql_set_guid_tbl_data cbccd_device_get_info_by_guid
known_same exec env m db name guid t d e = rw (e, cbccd_pgsql_set_guid_tbl_data) refl

-- After one row: what is known of the device with the row's guid, and of the others.
record RowRead (env : Env) (m : DeviceMgr) (guid content : Text) (n : DeviceMgr) : Type 0 where
  valid : IsValid n
  others : (g : Text) → guid ≢ g → device n g ≡ device m g
  not_logined : flag (device n guid) ≡ false
  there :
      (s : RegStatus)
      → parse_device_reg_info env content ≡ some s
      → device n guid ≡ some (new_device guid s)

module _ {S : Type 0} (exec : Server S) (env : Env) (m : DeviceMgr) (db : Db S)
    (guid content : Text) (v : IsValid m) (absent : device m guid ≡ none) where
  row_added :
      (s : RegStatus)
      → parse_device_reg_info env content ≡ some s
      → RowRead env m guid content (read_device_row exec env m db guid content).0
  unfolding read_device_row add_device_info_by_guid
  row_added s p =
      let t = offline_text env content in
      let more = add_device_info m (new_device guid s) in
      let (own, others) = device-add m guid guid s v absent in
      let same = known_same exec env more db (codes "device_info") guid t (new_device guid s) own in
      rw (p, add_device_info_by_guid, same)
        (record {
          valid = add-IsValid m (new_device guid s) v absent;
          others = λ g. (device-add m guid g s v absent).1;
          not_logined = rw own refl;
          there = λ r q. let eq : s ≡ r = cc (p, q) in rw (← eq) own;
        })

  row_refused :
      parse_device_reg_info env content ≡ none
      → RowRead env m guid content (read_device_row exec env m db guid content).0
  unfolding read_device_row add_device_info_by_guid
  row_refused p =
      let t = offline_text env content in
      let adds = set_guid_tbl_data-adds exec env m db (codes "device_info") guid t v absent in
      elim (Option-cases (parse_device_reg_info env t)) [
        | inl q ↦
            let same = adds.0 q in
            rw (p, add_device_info_by_guid, same)
              (record {
                valid = v;
                others = λ g h. refl;
                not_logined = rw absent refl;
                there = λ s e. absurd (cc (e, p));
              })
        | inr (s, q) ↦
            let (own, valid, others) = adds.1 s q in
            rw (p, add_device_info_by_guid)
              (record {
                valid = valid;
                others = others;
                not_logined = rw own refl;
                there = λ r e. absurd (cc (e, p));
              })
      ]

  row-RowRead : RowRead env m guid content (read_device_row exec env m db guid content).0
  row-RowRead = elim (Option-cases (parse_device_reg_info env content)) [
    | inl p ↦ row_refused p
    | inr (s, p) ↦ row_added s p
  ]

-- Every row has another guid.
abbrev pub AllOther : Text → List (Text × Text) → Type 0
AllOther g [] = Unit {0}
AllOther g ((guid, content) ∷ rows) = (guid ≢ g) × AllOther g rows

-- The guids of rows are distinct.
abbrev pub DistinctRows : List (Text × Text) → Type 0
DistinctRows [] = Unit {0}
DistinctRows ((guid, content) ∷ rows) = AllOther guid rows × DistinctRows rows

abbrev pub AllAbsent : DeviceMgr → List (Text × Text) → Type 0
AllAbsent m [] = Unit {0}
AllAbsent m ((guid, content) ∷ rows) = (device m guid ≡ none) × AllAbsent m rows

-- Each row that has a status has its device, with that status.
abbrev pub AllThere : Env → DeviceMgr → List (Text × Text) → Type 0
AllThere env m [] = Unit {0}
AllThere env m ((guid, content) ∷ rows) =
    ((s : RegStatus)
      → parse_device_reg_info env content ≡ some s
      → (d : DeviceInfo) × (device m guid ≡ some d) × (d.reg_status ≡ s))
    × AllThere env m rows

AllAbsent-next :
    (m n : DeviceMgr) (guid : Text) (rows : List (Text × Text))
    → ((g : Text) → guid ≢ g → device n g ≡ device m g)
    → AllOther guid rows
    → AllAbsent m rows
    → AllAbsent n rows
AllAbsent-next m n guid [] h o a = tt
AllAbsent-next m n guid ((g, content) ∷ rows) h o a =
    (h g (λ e. o.0 (sym e)) ∙ a.0, AllAbsent-next m n guid rows h o.1 a.1)

module _ {S : Type 0} (exec : Server S) (env : Env) where
  -- No look-up of another guid changes.
  rows-others :
      (m : DeviceMgr) (db : Db S) (rows : List (Text × Text)) (g : Text)
      → IsValid m
      → DistinctRows rows
      → AllAbsent m rows
      → AllOther g rows
      → device (read_device_rows exec env m db rows).0 g ≡ device m g
  unfolding read_device_rows
  rows-others m db [] g v u a o = refl
  rows-others m db ((guid, content) ∷ rows) g v u a o =
      let one = row-RowRead exec env m db guid content v a.0 in
      let next = read_device_row exec env m db guid content in
      rows-others next.0 next.1 rows g one.valid u.1
        (AllAbsent-next m next.0 guid rows one.others u.0 a.1) o.1
      ∙ one.others g o.0

  pub rows-read :
      (m : DeviceMgr) (db : Db S) (rows : List (Text × Text))
      → IsValid m
      → DistinctRows rows
      → AllAbsent m rows
      → let n = (read_device_rows exec env m db rows).0 in
        IsValid n
        × AllThere env n rows
        × (((g : Text) → flag (device m g) ≡ false) → (g : Text) → flag (device n g) ≡ false)
  unfolding read_device_rows
  rows-read m db [] v u a = (v, tt, λ h. h)
  rows-read m db ((guid, content) ∷ rows) v u a =
      let one = row-RowRead exec env m db guid content v a.0 in
      let next = read_device_row exec env m db guid content in
      let absent = AllAbsent-next m next.0 guid rows one.others u.0 a.1 in
      let (valid, there, flags) = rows-read next.0 next.1 rows one.valid u.1 absent in
      let own = rows-others next.0 next.1 rows guid one.valid u.1 absent u.0 in
      (
        valid,
        (λ s p. (new_device guid s, own ∙ one.there s p, refl), there),
        λ h. flags (λ g. elim (Bool-cases (str_eq guid g)) [
          | inl y ↦ rw (← (str_eq_iff guid g).0 y) one.not_logined
          | inr n ↦ rw (one.others g (λ e. absurd (cc (rw (← e, str_eq_refl guid) at n)))) (h g)
        ]),
      )
