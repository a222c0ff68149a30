-- ===== src/Admin/Kept.antt =====
-- The automatic backups that remove_old_auto_backup_infos keeps are the newest.
use chroot_cbccd.Base.{
  ℕ, zero, suc, ◌+◌, ◌≤◌, ◌<◌, ◌≡◌, refl, ◌∙◌, Bool, true, ◌&&◌, Option, some, List, [], ◌∷◌, ◌>>=◌,
  arith, inl, inr, ◌⊎◌, ltb, lt→ltb, length, if◌then◌else◌, Bool-cases, Option-cases, Text,
}
use chroot_cbccd.Admin.{AdminEnv, World}
use chroot_cbccd.Admin.Restore.{delete_backup_info_from_db}
use chroot_cbccd.Admin.Auto.Deletion.{
  TsInfo, empty_ts_infos, delete_replaced, remove_old_auto_backup_infos,
}
use chroot_cbccd.Admin.Slots.{count, AllFrom, AllOlder, AllFrom-le}
use chroot_cbccd.Admin.Retention.{delete_each, loop-Outcome}

-- The entries that are backups.
unfoldable pub real : List TsInfo → List TsInfo
real [] = []
real (s ∷ ss) = let rest = real ss in if ltb 0 s.timestamp then s ∷ rest else rest

real-count :
    (f : TsInfo → Bool) (ss : List TsInfo)
    → count f (real ss) ≡ count (λ s. ltb 0 s.timestamp && f s) ss
unfolding real
real-count f [] = refl
real-count f (s ∷ ss) = elim (Bool-cases (ltb 0 s.timestamp)) [
  | inl y ↦ rw (y, real-count f ss) refl
  | inr n ↦ rw (n, real-count f ss) (omega arith)
]

count-empty :
    (f : TsInfo → Bool) (k : ℕ) → count (λ s. ltb 0 s.timestamp && f s) (empty_ts_infos k) ≡ 0
unfolding empty_ts_infos
count-empty f zero = refl
count-empty f (suc k) = rw (count-empty f k) refl

count-real :
    (f : TsInfo → Bool) (ss : List TsInfo)
    → AllFrom 1 ss
    → count (λ s. ltb 0 s.timestamp && f s) ss ≡ count f ss
count-real f [] h = refl
count-real f (s ∷ ss) h = rw (lt→ltb 0 s.timestamp (omega (arith, h.0)), count-real f ss h.1) refl

count-length : (ss : List TsInfo) → count (λ s. true) ss ≡ length ss
count-length [] = refl
count-length (s ∷ ss) = omega (arith, count-length ss)

length-empty_ts_infos : (k : ℕ) → length (empty_ts_infos k) ≡ k
unfolding empty_ts_infos
length-empty_ts_infos zero = refl
length-empty_ts_infos (suc k) = omega (arith, length-empty_ts_infos k)

length-real : (ss : List TsInfo) → length (real ss) ≤ length ss
unfolding real
length-real [] = omega arith
length-real (s ∷ ss) = ground (arith, length-real ss)

real-all : (ss : List TsInfo) → AllFrom 1 ss → real ss ≡ ss
unfolding real
real-all [] h = refl
real-all (s ∷ ss) h = rw (lt→ltb 0 s.timestamp (omega (arith, h.0)), real-all ss h.1) refl

real-AllFrom : (low : ℕ) (ss : List TsInfo) → AllFrom low ss → AllFrom low (real ss)
unfolding real
real-AllFrom low [] h = tt
real-AllFrom low (s ∷ ss) h = elim (Bool-cases (ltb 0 s.timestamp)) [
  | inl y ↦ rw y (h.0, real-AllFrom low ss h.1)
  | inr n ↦ rw n (real-AllFrom low ss h.1)
]

real-AllOlder : (rs ss : List TsInfo) → AllOlder rs ss → AllOlder (real rs) (real ss)
unfolding real
real-AllOlder [] ss h = tt
real-AllOlder (r ∷ rs) ss h = elim (Bool-cases (ltb 0 r.timestamp)) [
  | inl y ↦ rw y (real-AllFrom r.timestamp ss h.0, real-AllOlder rs ss h.1)
  | inr n ↦ rw n (real-AllOlder rs ss h.1)
]

-- Either no backup is among those that are gone, or every slot has one.
full-slots : (rs ss : List TsInfo) → AllOlder rs ss → (length (real rs) ≡ 0) ⊎ (real ss ≡ ss)
unfolding real
full-slots [] ss h = inl refl
full-slots (r ∷ rs) ss h = elim (Bool-cases (ltb 0 r.timestamp)) [
  | inl y ↦ inr (real-all ss (AllFrom-le 1 r.timestamp ss (ground (arith, y)) h.0))
  | inr n ↦ rw n (full-slots rs ss h.1)
]

kept_length :
    (gone last infos : List TsInfo) (k : ℕ)
    → count (λ s. true) (real gone) + count (λ s. true) (real last) ≡ count (λ s. true) infos
    → length last ≡ k
    → (length (real gone) ≡ 0) ⊎ (real last ≡ last)
    → length (real last) ≡ (if ltb k (length infos) then k else length infos)
kept_length gone last infos k total size (inl z) = ground (
  arith,
  total,
  size,
  z,
  count-length (real gone),
  count-length (real last),
  count-length infos,
  length-real last,
)
kept_length gone last infos k total size (inr full) =
    let same : length (real last) ≡ k = rw full size in
    ground
      (arith, total, same, count-length (real gone), count-length (real last), count-length infos)

module _ {S : Type 0} (env : AdminEnv S) (dev_guid : Text) where
  -- Deleting backups one after another.
  unfoldable pub delete_all : World S → List TsInfo → Option (World S)
  delete_all w [] = some w
  delete_all w (s ∷ ss) = delete_backup_info_from_db env w dev_guid s.guid >>= λ r. delete_all r ss

  delete_each-real :
      (ss : List TsInfo) (w : World S) → delete_each env dev_guid w ss ≡ delete_all w (real ss)
  unfolding delete_each delete_all real delete_replaced
  delete_each-real [] w = refl
  delete_each-real (s ∷ ss) w = elim (Bool-cases (ltb 0 s.timestamp)) [
    | inl y ↦ elim (Option-cases (delete_backup_info_from_db env w dev_guid s.guid)) [
      | inl n ↦ rw (y, n) refl
      | inr (r, n) ↦ rw (y, n) (delete_each-real ss r)
    ]
    | inr z ↦ rw z (delete_each-real ss w)
  ]

-- Of automatic backups that all have a positive time, remove_old_auto_backup_infos with a positive
-- maximum deletes some, one after another, and keeps the others: as many as the maximum, or all if
-- there are no more, and no backup that it deletes is newer than one that it keeps.
pub remove_old_auto_backup_infos_lem :
    {S : Type 0} (env : AdminEnv S) (dev_guid : Text) (w : World S) (infos : List TsInfo) (k : ℕ)
    → AllFrom 1 infos
    → 0 < k
    → (gone : List TsInfo) × (kept : List TsInfo) × (remove_old_auto_backup_infos env dev_guid w
          infos k
        ≡ delete_all env dev_guid w gone)
      × ((f : TsInfo → Bool) → count f gone + count f kept ≡ count f infos)
      × (length kept ≡ (if ltb k (length infos) then k else length infos))
      × AllOlder gone kept
unfolding remove_old_auto_backup_infos
remove_old_auto_backup_infos_lem env dev_guid w infos zero h p = absurd (omega (arith, p))
remove_old_auto_backup_infos_lem env dev_guid w infos (suc k) h p =
    let slots = empty_ts_infos (suc k) in
    let (gone, last, run, all, size, old, low) =
      loop-Outcome env dev_guid infos k h slots (length-empty_ts_infos (suc k)) in
    let shared : (f : TsInfo → Bool) → count f (real gone) + count f (real last) ≡ count f infos =
      λ f. omega (
        arith,
        real-count f gone,
        real-count f last,
        all (λ s. ltb 0 s.timestamp && f s),
        count-empty f (suc k),
        count-real f infos h,
      ) in
    let total = shared (λ s. true) in
    (
      real gone,
      real last,
      run w ∙ delete_each-real env dev_guid gone w,
      shared,
      kept_length gone last infos (suc k) total (size ∙ length-empty_ts_infos (suc k))
          (full-slots gone last old),
      real-AllOlder gone last old,
    )
