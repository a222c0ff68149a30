-- ===== src/Outbound/RoundTrip.antt =====
-- What is cut into frames on one side is put together again on the other.
use chroot_cbccd.Base.{
  ℕ, zero, suc, ◌+◌, ◌-◌, ◌^◌, ◌<◌, ◌≤◌, ◌≡◌, ◌≢◌, refl, sym, subst, ◌∙◌, ap, Bool, true, some,
  List, [], ◌∷◌, ◌++◌, map, append_assoc, arith, length, length-append, length-take, length-drop,
  take, drop, Text, take-append-drop, take_all, ◌==◌, ne→==, if◌then◌else◌, NoNul, c_string-append,
}
use chroot_cbccd.Buffer.{BufferList, fits_in}
use chroot_cbccd.Buffer.Parse.{type_word, len_word, payload_of}
use chroot_cbccd.Inbound.{receive_all}
use chroot_cbccd.Inbound.Entry.{held, IsSound}
use chroot_cbccd.Inbound.Refine.{
  is_final, complete, partial, arrive, left, handed_on, receive-Received,
}
use chroot_cbccd.Outbound.{
  tlv_count, frame_header, build_frame, build_frames, cbcc_tlv_buffer_build, wire, max_payload,
}
use chroot_cbccd.Outbound.Build.{
  Fits, At, frame_header-Fits, At-next, wire_words, build_frame_buffer, start-At,
}

-- The list `m` after the frames of one message from `sock` have arrived in the list `l`.
pub record Delivered (l : BufferList) (sock : ℕ) (m : BufferList) : Type 0 where
  pub sound : IsSound m
  pub empty : held m sock ≡ []
  pub same : (t : ℕ) → sock ≢ t → held m t ≡ held l t

arrive-words :
    (bs stream payload : List ℕ) (n t len : ℕ) (final : Bool)
    → (type_word stream ≡ t) × (len_word stream ≡ len) × (payload_of stream ≡ payload)
    → fits_in t (length bs) ≡ true
    → 8 + len ≤ n
    → is_final t ≡ final
    → arrive bs stream n ≡ (if final then complete (bs ++ payload) else partial (bs ++ payload))
unfolding arrive
arrive-words bs stream payload n t len final w f h e = ground arith

module _ (junk : ℕ → List ℕ) (full : (i : ℕ) → length (junk i) ≡ max_payload)
    (count msg_len : ℕ) where
  -- One frame arrives: it is as long as the array, and what it adds is its part of the message.
  pub arrive-frame :
      (i rounds : ℕ) (bs : List ℕ) (p : Text)
      → At count i msg_len rounds bs (length p)
      → length p < 2 ^ 31
      → let f = build_frame junk count msg_len i p in
        (arrive bs (wire f) 1024
          ≡ (if rounds == 0 then complete (bs ++ take f.len p) else partial (bs ++ take f.len p)))
        × (length (wire f) ≡ 1024)
        × (rounds ≡ 0 → take f.len p ≡ p)
  arrive-frame i rounds bs p v h =
      let f = build_frame junk count msg_len i p in
      let g = header in
      let (pay, size) =
        build_frame_buffer junk count msg_len i p (full i) (unfold build_frame in g.length_le)
          (unfold build_frame in g.length_max) in
      let (t, n, b) =
        wire_words f (unfold build_frame in omega (arith, g.small))
          (unfold build_frame in omega (arith, g.length_le)) in
      (
        arrive-words bs (wire f) (take f.len p) 1024 f.type f.len (rounds == 0) (t, n, b ∙ pay)
            (unfold build_frame in g.fits) (unfold build_frame in omega (arith, g.length_max))
            (unfold build_frame in g.final),
        omega (arith, size),
        λ e. take_all f.len p (unfold build_frame in omega (arith, g.remaining)),
      )
    where
      header : Fits rounds bs (length p) (frame_header count i msg_len (length p))
      header = frame_header-Fits count i msg_len rounds bs (length p) v

  -- The frames of the turns that are left complete the message.
  frames-Delivered :
      (rounds i : ℕ) (l : BufferList) (sock : ℕ) (bs : List ℕ) (p : Text)
      → IsSound l
      → held l sock ≡ bs
      → At count i msg_len rounds bs (length p)
      → length bs + length p + 1024 < 2 ^ 31
      → NoNul (bs ++ p)
      → (m : BufferList) × (receive_all l sock
            (map wire (build_frames junk count msg_len (suc rounds) i p))
          ≡ some (m, (bs ++ p) ∷ []))
        × Delivered l sock m
  unfolding receive_all build_frames
  frames-Delivered zero i l sock bs p v e at small clean =
      let f = build_frame junk count msg_len i p in
      let (how, size, whole) = arrive-frame i 0 bs p at (omega arith) in
      let (r, got, rec) =
        receive-Received l sock (wire f) 1024 v (omega arith) (omega (arith, size))
          (rw e (omega arith)) in
      let done : arrive (held l sock) (wire f) 1024 ≡ complete (bs ++ p) =
        rw e (how ∙ ap (λ (q : List ℕ). complete (bs ++ q)) (whole refl)) in
      (
        r.0,
        rw got (rw (rec.message ∙ ap handed_on done, c_string-append (bs ++ p) [] clean)),
        record { sound = rec.sound; empty = rec.own ∙ ap left done; same = rec.same },
      )
  frames-Delivered (suc rounds) i l sock bs p v e at small clean =
      let f = build_frame junk count msg_len i p in
      let (how, size, whole) = arrive-frame i (suc rounds) bs p at (omega arith) in
      let (r, got, rec) =
        receive-Received l sock (wire f) 1024 v (omega arith) (omega (arith, size))
          (rw e (omega arith)) in
      let more : arrive (held l sock) (wire f) 1024 ≡ partial (bs ++ take f.len p) =
        rw (e, how, ne→== (suc rounds) 0 (omega arith)) in
      let parts : (bs ++ take f.len p) ++ drop f.len p ≡ bs ++ p =
        rw (append_assoc, take-append-drop) in
      let (m, rest, d) =
        frames-Delivered rounds (i + 1) r.0 sock (bs ++ take f.len p) (drop f.len p) rec.sound
          (rec.own ∙ ap left more) (unfold build_frame in At-next count i msg_len rounds bs p at)
          (omega (arith, length-append bs (take f.len p), length-take f.len p, length-drop f.len p))
          (rw parts clean) in
      (
        m,
        rw (got, rest, rec.message ∙ ap handed_on more, parts),
        record { sound = d.sound; empty = d.empty; same = λ t h. d.same t h ∙ rec.same t h },
      )

-- A message that was cut into frames and arrives one frame to a `recv` is put together again:
-- the receiver hands on exactly that message, once, keeps its list sound, holds nothing more for
-- that socket, and has left the bytes of the other sockets alone. The message is not empty, has
-- no NUL and leaves the sum of lengths an `int`; `junk` is what the sender's memory held before.
pub receive_all-build :
    (junk : ℕ → List ℕ) (l : BufferList) (sock : ℕ) (msg : Text)
    → ((i : ℕ) → length (junk i) ≡ max_payload)
    → IsSound l
    → held l sock ≡ []
    → 0 < length msg
    → length msg + 1024 < 2 ^ 31
    → NoNul msg
    → (m : BufferList) × (receive_all l sock
          (map wire (cbcc_tlv_buffer_build true junk msg).tlv_buffer_list)
        ≡ some (m, msg ∷ []))
      × Delivered l sock m
unfolding cbcc_tlv_buffer_build
receive_all-build junk l sock msg full v e h k clean =
    let n = tlv_count (length msg) in
    let (c, at) = start-At msg h in
    subst
      (λ rounds.
        (m : BufferList) × (receive_all l sock
            (map wire (build_frames junk n (length msg) rounds 0 msg))
          ≡ some (m, msg ∷ []))
        × Delivered l sock m)
      (sym c)
      (frames-Delivered junk full n (length msg) (n - 1) 0 l sock [] msg v e at (omega arith) clean)
