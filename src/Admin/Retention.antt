-- ===== src/Admin/Retention.antt =====
-- Which automatic backups are kept.
use chroot_cbccd.Base.{
  ℕ, suc, ◌+◌, ◌≤◌, ◌≡◌, refl, ◌∙◌, Bool, true, false, Option, some, List, [], ◌∷◌, ◌>>=◌, arith,
  inl, inr, ltb, lt→ltb, length, get_elem?, Bool-cases, Option-cases, Text,
}
use chroot_cbccd.Admin.{AdminEnv, World}
use chroot_cbccd.Admin.Restore.{delete_backup_info_from_db}
use chroot_cbccd.Admin.Auto.Deletion.{
  TsInfo, get_lower_val_idx, replace_at, delete_replaced, keep_or_delete, remove_loop,
}
use chroot_cbccd.Admin.Slots.{
  count, AllFrom, AllOlder, AllFrom-le, AllFrom-at, AllFrom-replace, length-replace, count-replace,
  get_lower_val_idx-Lowest,
}

module _ {S : Type 0} (env : AdminEnv S) (dev_guid : Text) where
  unfoldable pub delete_each : World S → List TsInfo → Option (World S)
  delete_each w [] = some w
  delete_each w (s ∷ ss) = delete_replaced env dev_guid w s >>= λ r. delete_each r ss

  pub delete_replaced_lem :
      (w : World S) (s : TsInfo)
      → 1 ≤ s.timestamp
      → delete_replaced env dev_guid w s ≡ delete_backup_info_from_db env w dev_guid s.guid
  unfolding delete_replaced
  delete_replaced_lem w s h = rw (lt→ltb 0 s.timestamp (omega (arith, h))) refl

  -- What the loop does: it deletes some, and the slots end with the others, none of which is older.
  abbrev pub Outcome : List TsInfo → List TsInfo → Type 0
  Outcome slots ps =
      (gone : List TsInfo) × (last : List TsInfo) × ((w : World S)
        → remove_loop env dev_guid w slots ps ≡ delete_each w gone)
      × ((f : TsInfo → Bool) → count f gone + count f last ≡ count f slots + count f ps)
      × (length last ≡ length slots)
      × AllOlder gone last
      × ((low : ℕ) → AllFrom low slots → AllFrom low last)

  module _ (slots ps : List TsInfo) (p s : TsInfo) (i : ℕ)
      (found : get_lower_val_idx slots ≡ some i) (at : get_elem? slots i ≡ some s) where
    replaced :
        ltb s.timestamp p.timestamp ≡ true
        → AllFrom s.timestamp slots
        → Outcome (replace_at i p slots) ps
        → Outcome slots (p ∷ ps)
    unfolding remove_loop delete_each keep_or_delete
    replaced y k (gone, last, run, all, size, old, low) =
        let newer : s.timestamp ≤ p.timestamp = ground (arith, y) in
        (
          s ∷ gone,
          last,
          runs,
          λ f. omega (arith, all f, count-replace p f slots i s at),
          size ∙ length-replace p slots i,
          (low s.timestamp (AllFrom-replace p s.timestamp slots i newer k), old),
          λ a h.
              let le = AllFrom-at a slots i s h at in
              low a (AllFrom-replace p a slots i (omega (arith, le, newer)) h),
        )
      where
        runs : (w : World S) → remove_loop env dev_guid w slots (p ∷ ps) ≡ delete_each w (s ∷ gone)
        runs w = elim (Option-cases (delete_replaced env dev_guid w s)) [
          | inl n ↦ rw (found, at, y, n) refl
          | inr (r, n) ↦ rw (found, at, y, n) (run r)
        ]

    refused :
        ltb s.timestamp p.timestamp ≡ false
        → 1 ≤ p.timestamp
        → AllFrom s.timestamp slots
        → Outcome slots ps
        → Outcome slots (p ∷ ps)
    unfolding remove_loop delete_each keep_or_delete
    refused n h k (gone, last, run, all, size, old, low) = (
      p ∷ gone,
      last,
      runs,
      λ f. omega (arith, all f),
      size,
      (low p.timestamp (AllFrom-le p.timestamp s.timestamp slots (ground (arith, n)) k), old),
      low,
    )
      where
        runs : (w : World S) → remove_loop env dev_guid w slots (p ∷ ps) ≡ delete_each w (p ∷ gone)
        runs w = elim (Option-cases (delete_backup_info_from_db env w dev_guid p.guid)) [
          | inl e ↦ rw (found, at, n, delete_replaced_lem w p h, e) refl
          | inr (r, e) ↦ rw (found, at, n, delete_replaced_lem w p h, e) (run r)
        ]

  pub loop-Outcome :
      (ps : List TsInfo) (n : ℕ)
      → AllFrom 1 ps
      → (slots : List TsInfo) → length slots ≡ suc n
      → Outcome slots ps
  unfolding remove_loop delete_each
  loop-Outcome [] n h slots e = ([], slots, λ w. refl, λ f. omega arith, refl, tt, λ low k. k)
  loop-Outcome (p ∷ ps) n h [] e = absurd (omega (arith, e))
  loop-Outcome (p ∷ ps) n h (u ∷ us) e =
      let (i, found, (s, at, k)) = get_lower_val_idx-Lowest u us in
      elim (Bool-cases (ltb s.timestamp p.timestamp)) [
        | inl y ↦
            replaced (u ∷ us) ps p s i found at y k
              (loop-Outcome ps n h.1 (replace_at i p (u ∷ us)) (length-replace p (u ∷ us) i ∙ e))
        | inr z ↦ refused (u ∷ us) ps p s i found at z h.0 k (loop-Outcome ps n h.1 (u ∷ us) e)
      ]
