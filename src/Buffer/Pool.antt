-- ===== src/Buffer/Pool.antt =====
-- The list of entries: one for each socket, found by its socket, with `count` as its length.
use chroot_cbccd.Base.{
  ℕ, suc, ◌+◌, ◌-◌, ◌≡◌, ◌≢◌, refl, none, some, List, [], ◌∷◌, ◌++◌, inl, inr, arith, length, ◌==◌,
  if◌then◌else◌, Option-cases, Bool-cases,
}
use chroot_cbccd.Buffer.{
  Buffer, BufferList, find_sock, get_buffer_by_sock, add_buffer_to_list, put_buffer, unlink,
  cbcc_buffer_free,
}
use chroot_cbccd.Buffer.Parse.{Holds, gathered}

-- No two entries have one socket.
abbrev pub Distinct : List Buffer → Type 0
Distinct [] = Unit {0}
Distinct (p ∷ ps) = (find_sock ps p.sock ≡ none) × Distinct ps

-- Every entry's length field agrees with its block.
abbrev pub AllHold : List Buffer → Type 0
AllHold [] = Unit {0}
AllHold (p ∷ ps) = Holds p (gathered p.buffer) × AllHold ps

pub record IsValid (l : BufferList) : Type 0 where
  pub counted : l.count ≡ length l.buffers
  pub distinct : Distinct l.buffers

pub find-sock : (ps : List Buffer) (s : ℕ) (p : Buffer) → find_sock ps s ≡ some p → p.sock ≡ s
unfolding find_sock
find-sock [] s p e = cc
find-sock (q ∷ ps) s p e = ground (arith, find-sock ps s p)

pub find-put_self :
    (ps : List Buffer) (p q : Buffer)
    → find_sock ps q.sock ≡ some p
    → find_sock (put_buffer ps q) q.sock ≡ some q
unfolding find_sock put_buffer
find-put_self [] p q e = cc
find-put_self (r ∷ ps) p q e = ground (arith, find-put_self ps p q)

pub find-put_ne :
    (ps : List Buffer) (q : Buffer) (s : ℕ)
    → q.sock ≢ s
    → find_sock (put_buffer ps q) s ≡ find_sock ps s
unfolding find_sock put_buffer
find-put_ne [] q s h = refl
find-put_ne (r ∷ ps) q s h = ground (arith, find-put_ne ps q s)

pub find-append :
    (ps : List Buffer) (q : Buffer) (s : ℕ)
    → find_sock (ps ++ (q ∷ [])) s
      ≡ elim (find_sock ps s) [ none ↦ if q.sock == s then some q else none | some p ↦ some p ]
unfolding find_sock
find-append [] q s = refl
find-append (r ∷ ps) q s = ground (arith, find-append ps q s)

pub find-unlink_self : (ps : List Buffer) (s : ℕ) → Distinct ps → find_sock (unlink ps s) s ≡ none
unfolding find_sock unlink
find-unlink_self [] s d = refl
find-unlink_self (p ∷ ps) s d = ground (arith, find-unlink_self ps s d.1)

pub find-unlink_ne :
    (ps : List Buffer) (s t : ℕ) → s ≢ t → find_sock (unlink ps s) t ≡ find_sock ps t
unfolding find_sock unlink
find-unlink_ne [] s t h = refl
find-unlink_ne (p ∷ ps) s t h = ground (arith, find-unlink_ne ps s t)

pub length-put : (ps : List Buffer) (q : Buffer) → length (put_buffer ps q) ≡ length ps
unfolding put_buffer
length-put [] q = refl
length-put (p ∷ ps) q = ground (arith, length-put ps q)

pub length-unlink :
    (ps : List Buffer) (s : ℕ) (p : Buffer)
    → find_sock ps s ≡ some p
    → length ps ≡ suc (length (unlink ps s))
unfolding find_sock unlink
length-unlink [] s p e = cc
length-unlink (q ∷ ps) s p e = ground (arith, length-unlink ps s p)

pub Distinct-put : (ps : List Buffer) (q : Buffer) → Distinct ps → Distinct (put_buffer ps q)
unfolding find_sock put_buffer
Distinct-put [] q d = tt
Distinct-put (p ∷ ps) q d = ground (arith, Distinct-put ps q d.1, find-put_ne ps q p.sock)

pub Distinct-append :
    (ps : List Buffer) (q : Buffer)
    → Distinct ps
    → find_sock ps q.sock ≡ none
    → Distinct (ps ++ (q ∷ []))
unfolding find_sock
Distinct-append [] q d e = (refl, tt)
Distinct-append (p ∷ ps) q d e = ground (arith, Distinct-append ps q d.1, find-append ps q p.sock)

pub Distinct-unlink : (ps : List Buffer) (s : ℕ) → Distinct ps → Distinct (unlink ps s)
unfolding find_sock unlink
Distinct-unlink [] s d = tt
Distinct-unlink (p ∷ ps) s d = ground (arith, Distinct-unlink ps s d.1, find-unlink_ne ps s p.sock)

pub AllHold-find :
    (ps : List Buffer) (s : ℕ) (p : Buffer)
    → AllHold ps
    → find_sock ps s ≡ some p
    → Holds p (gathered p.buffer)
unfolding find_sock
AllHold-find [] s p a e = cc
AllHold-find (q ∷ ps) s p a e = ground (arith, AllHold-find ps s p a.1)

pub AllHold-put :
    (ps : List Buffer) (q : Buffer)
    → AllHold ps
    → Holds q (gathered q.buffer)
    → AllHold (put_buffer ps q)
unfolding put_buffer
AllHold-put [] q a h = tt
AllHold-put (p ∷ ps) q a h = ground (arith, AllHold-put ps q a.1)

pub AllHold-append :
    (ps : List Buffer) (q : Buffer)
    → AllHold ps
    → Holds q (gathered q.buffer)
    → AllHold (ps ++ (q ∷ []))
AllHold-append [] q a h = (h, tt)
AllHold-append (p ∷ ps) q a h = (a.0, AllHold-append ps q a.1 h)

pub AllHold-unlink : (ps : List Buffer) (s : ℕ) → AllHold ps → AllHold (unlink ps s)
unfolding unlink
AllHold-unlink [] s a = tt
AllHold-unlink (p ∷ ps) s a = ground (arith, AllHold-unlink ps s a.1)

pub unlink-put :
    (ps : List Buffer) (q : Buffer) → unlink (put_buffer ps q) q.sock ≡ unlink ps q.sock
unfolding unlink put_buffer
unlink-put [] q = refl
unlink-put (p ∷ ps) q = ground (arith, unlink-put ps q)

length_zero : {ps : List Buffer} → length ps ≡ 0 → ps ≡ []
length_zero {ps} e = go ps e
  where
    go : (qs : List Buffer) → length qs ≡ 0 → qs ≡ []
    go [] h = refl
    go (q ∷ qs) h = absurd (omega arith)

-- In a valid list the test of `count` agrees with the walk.
pub get-eq-find :
    (l : BufferList) (s : ℕ) → IsValid l → get_buffer_by_sock l s ≡ find_sock l.buffers s
unfolding get_buffer_by_sock find_sock
get-eq-find l s v = elim (Bool-cases (l.count == 0)) [
  | inl e ↦ rw (e, length_zero {ps = l.buffers} (ground (arith, v.counted)))
  | inr e ↦ rw e
]

pub add-eq-append :
    (l : BufferList) (q : Buffer)
    → IsValid l
    → add_buffer_to_list l q ≡ record { count = l.count + 1; buffers = l.buffers ++ (q ∷ []) }
unfolding add_buffer_to_list
add-eq-append l q v = elim (Bool-cases (l.count == 0)) [
  | inl e ↦ rw (e, length_zero {ps = l.buffers} (ground (arith, v.counted)))
  | inr e ↦ rw e
]

free-none : (l : BufferList) (s : ℕ) → get_buffer_by_sock l s ≡ none → cbcc_buffer_free l s ≡ l
unfolding cbcc_buffer_free
free-none l s e = rw (e, cbcc_buffer_free)

pub free-some :
    (l : BufferList) (s : ℕ) (p : Buffer)
    → get_buffer_by_sock l s ≡ some p
    → cbcc_buffer_free l s ≡ record l { buffers = unlink l.buffers s; count = l.count - 1 }
unfolding cbcc_buffer_free
free-some l s p e = rw (e, cbcc_buffer_free)

-- `cbcc_buffer_free` keeps the list valid, removes the entry of its socket, and leaves those of
-- the other sockets.
pub cbcc_buffer_free-IsValid :
    (l : BufferList) (s : ℕ)
    → IsValid l
    → IsValid (cbcc_buffer_free l s)
      × (get_buffer_by_sock (cbcc_buffer_free l s) s ≡ none)
      × ((t : ℕ) → s ≢ t → get_buffer_by_sock (cbcc_buffer_free l s) t ≡ get_buffer_by_sock l t)
cbcc_buffer_free-IsValid l s v = elim (Option-cases (get_buffer_by_sock l s)) [
  | inl e ↦ rw (free-none l s e) (v, e, λ t h. refl)
  | inr (p, e) ↦ rw (free-some l s p e) (freed p e)
]
  where
    freed :
        (p : Buffer)
        → get_buffer_by_sock l s ≡ some p
        → let m : BufferList = record l { buffers = unlink l.buffers s; count = l.count - 1 } in
          IsValid m
          × (get_buffer_by_sock m s ≡ none)
          × ((t : ℕ) → s ≢ t → get_buffer_by_sock m t ≡ get_buffer_by_sock l t)
    freed p e =
        let m : BufferList = record l { buffers = unlink l.buffers s; count = l.count - 1 } in
        let valid : IsValid m = record {
          counted =
              omega (arith, v.counted, length-unlink l.buffers s p (rw (← get-eq-find l s v) e));
          distinct = Distinct-unlink l.buffers s v.distinct;
        } in
        (
          valid,
          rw (get-eq-find m s valid) (find-unlink_self l.buffers s v.distinct),
          λ t h. rw (get-eq-find m t valid, get-eq-find l t v) (find-unlink_ne l.buffers s t h),
        )
