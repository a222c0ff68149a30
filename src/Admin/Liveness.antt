-- ===== src/Admin/Liveness.antt =====
-- Automatic backups over many checks.
use chroot_cbccd.Base.{
  ℕ, zero, suc, ◌+◌, ◌^◌, ◌≤◌, ◌<◌, ◌≡◌, refl, false, Option, some, List, [], ◌∷◌, ◌>>=◌, arith,
  inl, inr, ltb, if◌then◌else◌, Bool-cases,
}
use chroot_cbccd.Admin.Auto.{seconds, AutoBackupInfo, check_starttime}
use chroot_cbccd.Admin.Schedule.{taken, check_starttime-taken}

-- One round's check. The information was cleared, so that nothing is to be taken before it.
unfoldable pub poll : ℕ → AutoBackupInfo → Option AutoBackupInfo
poll t info = check_starttime t (record info { take_backup = false })

-- Checks at one time after another, each of what the one before left, with how many of them said
-- to take a backup.
unfoldable pub checks : List ℕ → AutoBackupInfo → Option (ℕ × AutoBackupInfo)
checks [] info = some (0, info)
checks (t ∷ ts) info = do
  r ← poll t info
  rest ← checks ts r
  some (if r.take_backup then suc rest.0 else rest.0, rest.1)

-- The time of so many intervals.
abbrev pub spans : ℕ → ℕ → ℕ
spans zero i = 0
spans (suc n) i = i + spans n i

-- Each check comes less than `i` seconds after the one before.
abbrev pub Close : ℕ → ℕ → List ℕ → Type 0
Close i before [] = Unit {0}
Close i before (t ∷ ts) = (before ≤ t) × (t < before + i) × Close i t ts

abbrev pub final : ℕ → List ℕ → ℕ
final before [] = before
final before (t ∷ ts) = final t ts

final-le : (i before : ℕ) (ts : List ℕ) → Close i before ts → before ≤ final before ts
final-le i before [] c = omega arith
final-le i before (t ∷ ts) c = omega (arith, c.0, final-le i t ts c.2)

not_due :
    (t : ℕ) (info : AutoBackupInfo)
    → ltb info.enqueued_starttime t ≡ false
    → poll t info ≡ some (record info { take_backup = false })
unfolding poll check_starttime
not_due t info n = rw n refl

is_due :
    (t : ℕ) (info : AutoBackupInfo)
    → info.enqueued_starttime < t
    → t < info.next_starttime
    → info.next_starttime + seconds info.interval_type < 2 ^ 31
    → poll t info ≡ some (taken info)
unfolding poll
is_due t info h k fits = check_starttime-taken t (record info { take_backup = false }) h k fits

-- Where the next start is an interval after the one that is enqueued, which has not passed, every
-- check comes less than an interval after the one before, and two intervals after the last check
-- are still an int: the checks are defined, and say to take a backup for every start that passes,
-- so that the start that is enqueued lies one interval later for each check that said so, and the
-- last check leaves none overdue.
pub auto_backup-live :
    (ts : List ℕ) (before : ℕ) (info : AutoBackupInfo)
    → let i = seconds info.interval_type in
      info.next_starttime ≡ info.enqueued_starttime + i
      → before ≤ info.enqueued_starttime
      → Close i before ts
      → final before ts + (i + i) < 2 ^ 31
      → (n : ℕ) × (r : AutoBackupInfo) × (checks ts info ≡ some (n, r))
        × (r.enqueued_starttime ≡ info.enqueued_starttime + spans n i)
        × (r.next_starttime ≡ r.enqueued_starttime + i)
        × (final before ts ≤ r.enqueued_starttime)
unfolding checks
auto_backup-live [] before info e h c fits = (0, info, refl, omega arith, e, h)
auto_backup-live (t ∷ ts) before info e h (le, near, c) fits =
    let i = seconds info.interval_type in
    let last = final-le i t ts c in
    elim (Bool-cases (ltb info.enqueued_starttime t)) [
      | inl y ↦
          let passed : info.enqueued_starttime < t = ground (arith, y) in
          let due =
            is_due t info passed (omega (arith, e, h, near))
              (omega (arith, e, passed, last, fits)) in
          let (n, r, k, a, b, d) =
            auto_backup-live ts t (taken info) refl (omega (arith, e, h, near)) c fits in
          (suc n, r, rw (checks, due, k) refl, omega (arith, a, e), b, d)
      | inr n ↦
          let (m, r, k, a, b, d) =
            auto_backup-live ts t (record info { take_backup = false }) e (ground (arith, n)) c
              fits in
          (m, r, rw (checks, not_due t info n, k) refl, a, b, d)
    ]
