-- ===== src/Admin/Schedule.antt =====
-- When an automatic backup is due, from one check to the next, through the text in the table.
use chroot_cbccd.Base.{
  ℕ, ◌+◌, ◌^◌, ◌>>=◌, if◌then◌else◌, arith, ◌<◌, ◌≡◌, refl, ◌∙◌, true, false, ◌&&◌, none, some,
  List, [], ◌∷◌, inl, inr, lt→ltb, ltb, ◌==◌, Bool-cases, Text, codes, str_eq, snprintf,
}
use chroot_cbccd.Memory.{add_int}
use chroot_cbccd.Json.Tree.{
  JsonC, IsLawful, Members, lookup, string_node, int_node, object_node, no_members,
}
use chroot_cbccd.Json.Parse.{
  str_val, int_val, string_type, int_type, wrote, parse_one, find_value, check_obj_validation,
  read_value, cbcc_jobj_parse,
}
use chroot_cbccd.Json.Edit.{cbcc_json_build}
use chroot_cbccd.Json.RoundTrip.{
  Plain, words, number, DistinctKeys, object_of, ReadsBack, AllInts, build-object_of, Holds, holds,
  found_plain, parse_from_object,
}
use chroot_cbccd.Admin.{request}
use chroot_cbccd.Admin.Auto.{
  Interval, daily, weekly, monthly, seconds, ba_interval_strs, get_ba_interval_type, AutoBackupInfo,
  auto_backup_text, auto_requests, check_starttime, schedule, parse_auto_backup_info,
}

-- What the text says of an automatic backup.
abbrev pub auto_entries : AutoBackupInfo → List (Text × Plain)
auto_entries info =
    (codes "ba_interval", words (ba_interval_strs info.interval_type))
    ∷ (codes "status", number info.status)
    ∷ (codes "ba_max", number info.max_keep_backups)
    ∷ (codes "enqueued_starttime", number info.enqueued_starttime)
    ∷ (codes "next_starttime", number info.next_starttime)
    ∷ []

abbrev pub auto_members : JsonC → AutoBackupInfo → Members
auto_members lib info = object_of lib no_members (auto_entries info)

auto-DistinctKeys : (info : AutoBackupInfo) → DistinctKeys (auto_entries info)
unfolding str_eq
auto-DistinctKeys info = (refl, (refl, (refl, (refl, (refl, tt)))))

auto_backup_text_lem :
    (lib : JsonC) (info : AutoBackupInfo)
    → auto_backup_text lib info ≡ some (lib.get_string (object_node (auto_members lib info)))
unfolding auto_backup_text cbcc_json_build
auto_backup_text_lem lib info = rw (build-object_of lib no_members (auto_entries info)) refl

module _ (lib : JsonC) (l : IsLawful lib) (b : ReadsBack lib) (ms : Members) (key : Text) where
  parse_text :
      (size : ℕ) (t : Text)
      → lookup ms key ≡ some (string_node t)
      → parse_one lib ms (request string_type size none key)
        ≡ some (wrote (some (str_val (snprintf size t))))
  unfolding parse_one find_value check_obj_validation read_value
  parse_text size t h = rw (found_plain lib l ms key (words t) h, b.string_back t) refl

  parse_int :
      (i : ℕ)
      → i < 2 ^ 31
      → lookup ms key ≡ some (int_node i)
      → parse_one lib ms (request int_type 0 none key) ≡ some (wrote (some (int_val i)))
  unfolding parse_one find_value check_obj_validation read_value
  parse_int i n h = rw (found_plain lib l ms key (number i) h, b.int_back i n) refl

-- The information as it is before its start time is checked.
abbrev pub unchecked : AutoBackupInfo → AutoBackupInfo
unchecked info = record info { interval_type = daily; take_backup = false }

fits_array : (i : Interval) → snprintf 32 (ba_interval_strs i) ≡ ba_interval_strs i
fits_array daily = refl
fits_array weekly = refl
fits_array monthly = refl

parse-auto_backup_text :
    (lib : JsonC) (info : AutoBackupInfo) (now : ℕ) (uninit t : Text)
    → IsLawful lib
    → ReadsBack lib
    → AllInts (auto_entries info)
    → lib.tokener_parse (lib.get_string (object_node (auto_members lib info)))
      ≡ some (object_node (auto_members lib info))
    → auto_backup_text lib info ≡ some t
    → parse_auto_backup_info lib now uninit t
      ≡ schedule now (ba_interval_strs info.interval_type) (unchecked info)
unfolding parse_auto_backup_info cbcc_jobj_parse Holds
parse-auto_backup_text lib info now uninit t l b n p e =
    let ms = auto_members lib info in
    let h = holds lib l no_members (auto_entries info) (auto-DistinctKeys info) in
    let printed : t ≡ lib.get_string (object_node ms) = cc (e, auto_backup_text_lem lib info) in
    rw
      (
        printed,
        parse_from_object lib (lib.get_string (object_node ms)) ms auto_requests p,
        parse_text lib l b ms (codes "ba_interval") 32 (ba_interval_strs info.interval_type) h.0,
        parse_int lib l b ms (codes "status") info.status n.1.0 h.1.0,
        parse_int lib l b ms (codes "ba_max") info.max_keep_backups n.1.1.0 h.1.1.0,
        parse_int lib l b ms (codes "enqueued_starttime") info.enqueued_starttime n.1.1.1.0
            h.1.1.1.0,
        parse_int lib l b ms (codes "next_starttime") info.next_starttime n.1.1.1.1.0 h.1.1.1.1.0,
        fits_array info.interval_type,
      )
      refl

interval-back : (i : Interval) → get_ba_interval_type (ba_interval_strs i) ≡ some i
unfolding get_ba_interval_type str_eq
interval-back daily = refl
interval-back weekly = refl
interval-back monthly = refl

-- The information after a check that takes a backup.
abbrev pub taken : AutoBackupInfo → AutoBackupInfo
taken info = record info {
  take_backup = true;
  enqueued_starttime = info.next_starttime;
  next_starttime = info.next_starttime + seconds info.interval_type;
}

pub check_starttime-taken :
    (now : ℕ) (info : AutoBackupInfo)
    → info.enqueued_starttime < now
    → now < info.next_starttime
    → info.next_starttime + seconds info.interval_type < 2 ^ 31
    → check_starttime now info ≡ some (taken info)
unfolding check_starttime add_int
check_starttime-taken now info h k fits =
    rw
      (
        lt→ltb info.enqueued_starttime now h,
        lt→ltb now info.next_starttime k,
        lt→ltb (info.next_starttime + seconds info.interval_type) (2 ^ 31) fits,
      )
      refl

-- A check whose sum fits: what it makes of the information, whether it takes a backup or not.
abbrev pub checked : ℕ → AutoBackupInfo → AutoBackupInfo
checked now info =
    if ltb info.enqueued_starttime now && ltb now info.next_starttime then taken info else info

pub check_starttime-checked :
    (now : ℕ) (info : AutoBackupInfo)
    → info.next_starttime + seconds info.interval_type < 2 ^ 31
    → check_starttime now info ≡ some (checked now info)
unfolding check_starttime add_int
check_starttime-checked now info fits =
    let small = lt→ltb (info.next_starttime + seconds info.interval_type) (2 ^ 31) fits in
    elim (Bool-cases (ltb info.enqueued_starttime now && ltb now info.next_starttime)) [
      | inl y ↦ rw (y, small) refl
      | inr n ↦ rw n refl
    ]

take_backup-checked :
    (now : ℕ) (info : AutoBackupInfo)
    → info.take_backup ≡ false
    → (checked now info).take_backup
      ≡ (ltb info.enqueued_starttime now && ltb now info.next_starttime)
take_backup-checked now info e =
    elim (Bool-cases (ltb info.enqueued_starttime now && ltb now info.next_starttime)) [
      | inl y ↦ rw y refl
      | inr n ↦ rw n e
    ]

same :
    {A : Type 0} (now : ℕ) (info : AutoBackupInfo) (f : AutoBackupInfo → A)
    → f (taken info) ≡ f info
    → f (checked now info) ≡ f info
same now info f e =
    elim (Bool-cases (ltb info.enqueued_starttime now && ltb now info.next_starttime)) [
      | inl y ↦ rw y e
      | inr n ↦ rw n refl
    ]

-- An automatic backup that is switched on and that a check takes, where two more intervals leave
-- the start time an int: the check is defined, and what update_auto_backup_info then stores is read
-- at any later time as due exactly after the old next start and before the one that is an interval
-- later, with the interval and the maximum as they were; if json-c reads what it printed and hands
-- back texts and numbers.
pub auto_backup-once :
    (lib : JsonC) (info : AutoBackupInfo) (now later : ℕ) (uninit t : Text)
    → IsLawful lib
    → ReadsBack lib
    → lib.tokener_parse (lib.get_string (object_node (auto_members lib (taken info))))
      ≡ some (object_node (auto_members lib (taken info)))
    → (info.status == 0) ≡ false
    → info.status < 2 ^ 31
    → info.max_keep_backups < 2 ^ 31
    → info.next_starttime + (seconds info.interval_type + seconds info.interval_type) < 2 ^ 31
    → info.enqueued_starttime < now
    → now < info.next_starttime
    → (check_starttime now info >>= auto_backup_text lib) ≡ some t
    → (r : AutoBackupInfo) × (parse_auto_backup_info lib later uninit t ≡ some (some r))
      × (r.take_backup ≡ (
          ltb info.next_starttime later
          && ltb later (info.next_starttime + seconds info.interval_type)))
      × (r.interval_type ≡ info.interval_type)
      × (r.max_keep_backups ≡ info.max_keep_backups)
unfolding schedule
auto_backup-once lib info now later uninit t l b p on small few fits h k e =
    let stored = record (unchecked (taken info)) { interval_type = info.interval_type } in
    let once : info.next_starttime + seconds info.interval_type < 2 ^ 31 = omega (arith, fits) in
    let enqueued : info.next_starttime < 2 ^ 31 = omega (arith, once) in
    let printed : auto_backup_text lib (taken info) ≡ some t =
      rw (check_starttime-taken now info h k once) at e in
    let ints : AllInts (auto_entries (taken info)) = (tt, (small, (few, (enqueued, (once, tt))))) in
    let read = parse-auto_backup_text lib (taken info) later uninit t l b ints p printed in
    let scheduled : schedule later (ba_interval_strs info.interval_type) (unchecked (taken info))
        ≡ some (some (checked later stored)) =
      rw
        (
          on,
          interval-back info.interval_type,
          check_starttime-checked later stored (omega (arith, fits)),
        )
        refl in
    (
      checked later stored,
      read ∙ scheduled,
      take_backup-checked later stored refl,
      same later stored (λ i. i.interval_type) refl,
      same later stored (λ i. i.max_keep_backups) refl,
    )
