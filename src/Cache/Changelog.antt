-- ===== src/Cache/Changelog.antt =====
-- The change log: revisions are unique, the newest is `total_rev`, and each can be read back.
use chroot_cbccd.Base.{
  ℕ, ◌+◌, ◌<◌, ◌≤◌, ◌≡◌, ◌≢◌, refl, none, some, List, [], ◌∷◌, ◌++◌, arith, length, length-append,
  ◌==◌, if◌then◌else◌, Text, Bool-cases, inl, inr,
}
use chroot_cbccd.Cache.Rows.{length-put_row}
use chroot_cbccd.Cache.{
  Row, TblInfo, find_row, get_tbl_row, set_tbl_row, put_row, find_rev, set_changlog_info,
  cbccd_pgsql_set_cache,
}

-- Every row's revision is at most `n`.
abbrev Below : ℕ → List Row → Type 0
Below n [] = Unit {0}
Below n (r ∷ rs) = (r.rev ≤ n) × Below n rs

-- No two rows have one revision.
abbrev DistinctRevs : List Row → Type 0
DistinctRevs [] = Unit {0}
DistinctRevs (r ∷ rs) = (find_rev rs r.rev ≡ none) × DistinctRevs rs

pub record IsLog (c : TblInfo) : Type 0 where
  pub counted : c.rows_count ≡ length c.rows
  pub below : Below c.total_rev c.rows
  pub distinct : DistinctRevs c.rows
  pub fresh : c.rows_count ≡ 0 → c.total_rev ≡ 0

Below-mono : (m n : ℕ) (rs : List Row) → m ≤ n → Below m rs → Below n rs
Below-mono m n [] h b = tt
Below-mono m n (r ∷ rs) h b = (omega arith, Below-mono m n rs h b.1)

Below-append : (n : ℕ) (rs : List Row) (q : Row) → Below n rs → q.rev ≤ n → Below n (rs ++ (q ∷ []))
Below-append n [] q b h = (h, tt)
Below-append n (r ∷ rs) q b h = (b.0, Below-append n rs q b.1 h)

Below-put : (n : ℕ) (rs : List Row) (q : Row) → Below n rs → q.rev ≤ n → Below n (put_row rs q)
unfolding put_row
Below-put n [] q b h = tt
Below-put n (r ∷ rs) q b h = ground (arith, Below-put n rs q b.1)

find_rev_above : (n k : ℕ) (rs : List Row) → Below n rs → n < k → find_rev rs k ≡ none
unfolding find_rev
find_rev_above n k [] b h = refl
find_rev_above n k (r ∷ rs) b h = ground (arith, find_rev_above n k rs b.1)

find_rev-append :
    (rs : List Row) (q : Row) (k : ℕ)
    → find_rev (rs ++ (q ∷ [])) k
      ≡ elim (find_rev rs k) [ none ↦ if q.rev == k then some q else none | some r ↦ some r ]
unfolding find_rev
find_rev-append [] q k = refl
find_rev-append (r ∷ rs) q k = ground (arith, find_rev-append rs q k)

DistinctRevs-append :
    (rs : List Row) (q : Row)
    → DistinctRevs rs
    → find_rev rs q.rev ≡ none
    → DistinctRevs (rs ++ (q ∷ []))
unfolding find_rev
DistinctRevs-append [] q d e = (refl, tt)
DistinctRevs-append (r ∷ rs) q d e =
    ground (arith, DistinctRevs-append rs q d.1, find_rev-append rs q r.rev)

-- A revision that no row has is not found after a row with another revision is put.
find_rev-put_ne :
    (rs : List Row) (q : Row) (k : ℕ)
    → find_rev rs k ≡ none
    → q.rev ≢ k
    → find_rev (put_row rs q) k ≡ none
unfolding find_rev put_row
find_rev-put_ne [] q k e h = refl
find_rev-put_ne (r ∷ rs) q k e h = ground (arith, find_rev-put_ne rs q k)

DistinctRevs-put :
    (n : ℕ) (rs : List Row) (q : Row)
    → DistinctRevs rs
    → Below n rs
    → n < q.rev
    → DistinctRevs (put_row rs q)
unfolding put_row
DistinctRevs-put n [] q d b h = tt
DistinctRevs-put n (r ∷ rs) q d b h = ground (
  arith,
  DistinctRevs-put n rs q d.1 b.1,
  find_rev_above n q.rev rs b.1,
  find_rev-put_ne rs q r.rev d.0,
)

find_rev-put_self :
    (n : ℕ) (rs : List Row) (r q : Row)
    → find_row rs q.guid ≡ some r
    → Below n rs
    → n < q.rev
    → find_rev (put_row rs q) q.rev ≡ some q
unfolding find_rev put_row find_row
find_rev-put_self n [] r q e b h = cc
find_rev-put_self n (p ∷ rs) r q e b h = ground (arith, find_rev-put_self n rs r q)

length_zero : (rs : List Row) → length rs ≡ 0 → rs ≡ []
length_zero [] h = refl
length_zero (r ∷ rs) h = absurd (omega arith)

-- The entry that `set_changlog_info` makes.
abbrev pub entry : TblInfo → Text → Text → Text → Row
entry c guid content kind = record {
  guid = guid;
  row_data = content;
  changelog_type = kind;
  rev = c.total_rev + 1;
}

changlog-append :
    (c : TblInfo) (name guid content kind : Text)
    → IsLog c
    → set_changlog_info c name guid content kind ≡ record {
      tbl_name = name;
      rows_count = c.rows_count + 1;
      rows = c.rows ++ (entry c guid content kind ∷ []);
      total_rev = c.total_rev + 1;
    }
unfolding set_changlog_info
changlog-append c name guid content kind v = elim (Bool-cases (c.rows_count == 0)) [
  | inl e ↦ rw (e, length_zero c.rows (ground (arith, v.counted)))
  | inr e ↦ rw e
]

-- The log has one table name, that of the latest change.
pub set_changlog_info-name :
    (c : TblInfo) (name guid content kind : Text)
    → IsLog c
    → (set_changlog_info c name guid content kind).tbl_name ≡ name
set_changlog_info-name c name guid content kind v =
    rw (changlog-append c name guid content kind v) refl

-- A change is logged under the next revision, whose row is the change's; every older revision has
-- the row it had, and the log stays well formed.
pub set_changlog_info_lem :
    (c : TblInfo) (name guid content kind : Text)
    → IsLog c
    → let d = set_changlog_info c name guid content kind in
      IsLog d
      × (d.total_rev ≡ c.total_rev + 1)
      × (find_rev d.rows d.total_rev ≡ some (entry c guid content kind))
      × ((k : ℕ) → k ≤ c.total_rev → find_rev d.rows k ≡ find_rev c.rows k)
set_changlog_info_lem c name guid content kind v =
    let q = entry c guid content kind in
    let new : find_rev c.rows (c.total_rev + 1) ≡ none =
      find_rev_above c.total_rev (c.total_rev + 1) c.rows v.below (omega arith) in
    rw (changlog-append c name guid content kind v) (
      record {
        counted = omega (arith, v.counted, length-append c.rows (q ∷ []));
        below =
            Below-append (c.total_rev + 1) c.rows q
              (Below-mono c.total_rev (c.total_rev + 1) c.rows (omega arith) v.below) (omega arith);
        distinct = DistinctRevs-append c.rows q v.distinct new;
        fresh = λ e. absurd (omega arith);
      },
      refl,
      ground (arith, find_rev-append c.rows q (c.total_rev + 1), new),
      λ k h. ground (arith, find_rev-append c.rows q k),
    )

-- The entry that `cbccd_pgsql_set_cache` makes of a row that exists.
abbrev pub cached_entry : TblInfo → Text → Text → Row
cached_entry c guid content = record {
  guid = guid;
  row_data = content;
  changelog_type = [];
  rev = c.total_rev + 1;
}

find_row-length :
    (rs : List Row) (guid : Text) (r : Row) → find_row rs guid ≡ some r → length rs ≢ 0
unfolding find_row
find_row-length [] guid r e h = absurd (cc)
find_row-length (p ∷ rs) guid r e h = absurd (omega arith)

set_cache-row :
    (c : TblInfo) (guid content : Text) (r : Row)
    → find_row c.rows guid ≡ some r
    → cbccd_pgsql_set_cache c guid content ≡ record c {
      rows = put_row c.rows (cached_entry c guid content);
      total_rev = c.total_rev + 1;
    }
unfolding cbccd_pgsql_set_cache get_tbl_row set_tbl_row
set_cache-row c guid content r e = rw (e, cbccd_pgsql_set_cache) refl

-- Writing a guid that the log has replaces its row, under the next revision, at which
-- the row is exactly the new one; the log stays well formed.
pub cbccd_pgsql_set_cache_lem :
    (c : TblInfo) (guid content : Text) (r : Row)
    → IsLog c
    → find_row c.rows guid ≡ some r
    → let d = cbccd_pgsql_set_cache c guid content in
      IsLog d
      × (d.total_rev ≡ c.total_rev + 1)
      × (find_rev d.rows d.total_rev ≡ some (cached_entry c guid content))
cbccd_pgsql_set_cache_lem c guid content r v e =
    let q = cached_entry c guid content in
    let n = c.total_rev in
    rw (set_cache-row c guid content r e) (
      record {
        counted = omega (arith, v.counted, length-put_row c.rows q);
        below =
            Below-put (n + 1) c.rows q (Below-mono n (n + 1) c.rows (omega arith) v.below)
              (omega arith);
        distinct = DistinctRevs-put n c.rows q v.distinct v.below (omega arith);
        fresh = λ z. absurd (find_row-length c.rows guid r e (rw (← v.counted) z));
      },
      refl,
      find_rev-put_self n c.rows r q e v.below (omega arith),
    )
