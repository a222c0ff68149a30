-- ===== src/Inbound/Entry.antt =====
-- The entry of one socket in a list of buffers: storing into it and freeing it.
use chroot_cbccd.Base.{
  ℕ, ◌+◌, ◌-◌, ◌≡◌, ◌≢◌, refl, Option, none, some, List, [], ◌∷◌, ◌++◌, arith, length-append, inl,
  inr, Option-cases,
}
use chroot_cbccd.Buffer.{
  Buffer, BufferList, find_sock, get_buffer_by_sock, add_buffer_to_list, put_buffer, unlink,
  new_buffer, entry_of, cbcc_buffer_free,
}
use chroot_cbccd.Buffer.Parse.{Holds, gathered}
use chroot_cbccd.Buffer.Pool.{
  IsValid, AllHold, AllHold-find, AllHold-put, AllHold-append, AllHold-unlink, find-sock,
  find-put_self, find-put_ne, find-append, length-put, Distinct-put, Distinct-append, unlink-put,
  get-eq-find, add-eq-append, free-some, cbcc_buffer_free-IsValid,
}

-- What the list has gathered for a socket; nothing, if it has no entry.
abbrev bytes_in : Option Buffer → List ℕ
bytes_in none = []
bytes_in (some p) = gathered p.buffer

unfoldable pub held : BufferList → ℕ → List ℕ
held l sock = bytes_in (get_buffer_by_sock l sock)

-- The list is well formed, and the length field of each entry agrees with its block.
pub record IsSound (l : BufferList) : Type 0 where
  pub valid : IsValid l
  pub holds : AllHold l.buffers

-- The entry `p` of the socket in the list `m`, which is `l` but for that entry.
pub record Entry (l : BufferList) (sock : ℕ) (e : BufferList × Buffer) : Type 0 where
  pub sound : IsSound e.0
  pub found : find_sock e.0.buffers sock ≡ some e.1
  pub of_sock : e.1.sock ≡ sock
  pub holds : Holds e.1 (held l sock)
  pub same : (t : ℕ) → sock ≢ t → get_buffer_by_sock e.0 t ≡ get_buffer_by_sock l t

Entry-new :
    (l : BufferList) (sock : ℕ)
    → IsSound l
    → get_buffer_by_sock l sock ≡ none
    → Entry l sock (add_buffer_to_list l (new_buffer sock), new_buffer sock)
unfolding new_buffer held
Entry-new l sock v e =
    let q = new_buffer sock in
    let m : BufferList = record { count = l.count + 1; buffers = l.buffers ++ (q ∷ []) } in
    let missing : find_sock l.buffers sock ≡ none = rw (← get-eq-find l sock v.valid) e in
    let valid : IsValid m = record {
      counted = omega (arith, v.valid.counted, length-append l.buffers (q ∷ []));
      distinct = Distinct-append l.buffers q v.valid.distinct missing;
    } in
    rw (add-eq-append l q v.valid) (record {
      sound = record {
        valid = valid;
        holds = AllHold-append l.buffers q v.holds (record { total = refl; content = refl });
      };
      found = ground (arith, find-append l.buffers q sock, missing);
      of_sock = refl;
      holds = rw e (record { total = refl; content = refl });
      same = λ t h.
          rw (get-eq-find m t valid, get-eq-find l t v.valid)
            (ground (arith, find-append l.buffers q t));
    })

Entry-old :
    (l : BufferList) (sock : ℕ) (p : Buffer)
    → IsSound l
    → get_buffer_by_sock l sock ≡ some p
    → Entry l sock (l, p)
unfolding held
Entry-old l sock p v e =
    let there : find_sock l.buffers sock ≡ some p = rw (← get-eq-find l sock v.valid) e in
    record {
      sound = v;
      found = there;
      of_sock = find-sock l.buffers sock p there;
      holds = rw e (AllHold-find l.buffers sock p v.holds there);
      same = λ t h. refl;
    }

pub entry_of-Entry : (l : BufferList) (sock : ℕ) → IsSound l → Entry l sock (entry_of l sock)
unfolding entry_of
entry_of-Entry l sock v = elim (Option-cases (get_buffer_by_sock l sock)) [
  | inl e ↦ rw (e, entry_of) (Entry-new l sock v e)
  | inr (p, e) ↦ rw (e, entry_of) (Entry-old l sock p v e)
]

-- The socket's entry replaced by one that holds `bs`.
pub record Stored (l m : BufferList) (sock : ℕ) (bs : List ℕ) : Type 0 where
  pub sound : IsSound m
  pub own : held m sock ≡ bs
  pub same : (t : ℕ) → sock ≢ t → held m t ≡ held l t

pub put-Stored :
    {l : BufferList} {sock : ℕ} {e : BufferList × Buffer} (q : Buffer) (bs : List ℕ)
    → Entry l sock e
    → q.sock ≡ sock
    → Holds q bs
    → Stored l (record (e.0) { buffers = put_buffer e.0.buffers q }) sock bs
unfolding held
put-Stored {l} {sock} {e} q bs v s h =
    let m : BufferList = record (e.0) { buffers = put_buffer e.0.buffers q } in
    let valid : IsValid m = record {
      counted = omega (arith, v.sound.valid.counted, length-put e.0.buffers q);
      distinct = Distinct-put e.0.buffers q v.sound.valid.distinct;
    } in
    let found : find_sock e.0.buffers q.sock ≡ some e.1 = rw s v.found in
    record {
      sound = record {
        valid = valid;
        holds =
            AllHold-put e.0.buffers q v.sound.holds
              (record { total = rw (h.content) h.total; content = refl });
      };
      own = rw (get-eq-find m sock valid, ← s, find-put_self e.0.buffers e.1 q found) h.content;
      same = λ t k. rw (
        ← v.same t k,
        get-eq-find m t valid,
        get-eq-find e.0 t v.sound.valid,
        find-put_ne e.0.buffers q t (rw s k),
      );
    }

free-put :
    {l : BufferList} {sock : ℕ} {e : BufferList × Buffer} (q : Buffer)
    → Entry l sock e
    → q.sock ≡ sock
    → cbcc_buffer_free (record (e.0) { buffers = put_buffer e.0.buffers q }) sock
      ≡ record { count = e.0.count - 1; buffers = unlink e.0.buffers sock }
free-put {l} {sock} {e} q v s =
    let m : BufferList = record (e.0) { buffers = put_buffer e.0.buffers q } in
    let valid : IsValid m = record {
      counted = omega (arith, v.sound.valid.counted, length-put e.0.buffers q);
      distinct = Distinct-put e.0.buffers q v.sound.valid.distinct;
    } in
    let found : find_sock e.0.buffers q.sock ≡ some e.1 = rw s v.found in
    let at : get_buffer_by_sock m sock ≡ some q =
      rw (get-eq-find m sock valid, ← s) (find-put_self e.0.buffers e.1 q found) in
    rw (free-some m sock q at, ← s, unlink-put e.0.buffers q)

-- Freeing the entry, whatever was stored in it before.
pub free-Stored :
    {l : BufferList} {sock : ℕ} {e : BufferList × Buffer} (q : Buffer)
    → Entry l sock e
    → q.sock ≡ sock
    → Stored l (cbcc_buffer_free (record (e.0) { buffers = put_buffer e.0.buffers q }) sock) sock []
unfolding held
free-Stored {l} {sock} {e} q v s =
    let there : get_buffer_by_sock e.0 sock ≡ some e.1 =
      rw (get-eq-find e.0 sock v.sound.valid) v.found in
    let (valid, gone, others) = cbcc_buffer_free-IsValid e.0 sock v.sound.valid in
    rw (free-put q v s, ← free-some e.0 sock e.1 there)
      (record {
        sound = record {
          valid = valid;
          holds = rw (free-some e.0 sock e.1 there) (AllHold-unlink e.0.buffers sock v.sound.holds);
        };
        own = rw gone;
        same = λ t k. rw (others t k, v.same t k);
      })
