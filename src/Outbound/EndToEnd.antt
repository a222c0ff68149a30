-- ===== src/Outbound/EndToEnd.antt =====
-- From the sender's message, through its send loop, to the receiver's command processor.
use chroot_cbccd.Base.{
  ℕ, zero, suc, ◌+◌, ◌-◌, ◌^◌, ◌<◌, ◌≡◌, refl, sym, subst, true, some, List, [], ◌∷◌, ◌++◌, map,
  arith, length, length-drop, take, drop, success, Text, NoNul,
}
use chroot_cbccd.Buffer.{BufferList}
use chroot_cbccd.Inbound.{receive_all}
use chroot_cbccd.Inbound.Entry.{held, IsSound}
use chroot_cbccd.Outbound.{
  tlv_count, build_frame, build_frames, cbcc_tlv_buffer_build, wire, max_payload, Answer,
  send_tlv_buffer,
}
use chroot_cbccd.Outbound.Build.{At, At-next, start-At}
use chroot_cbccd.Outbound.RoundTrip.{Delivered, arrive-frame, receive_all-build}
use chroot_cbccd.Outbound.Sending.{AllFit, TakesWhole, send_tlv_buffer-whole}

module _ (junk : ℕ → List ℕ) (full : (i : ℕ) → length (junk i) ≡ max_payload)
    (count msg_len : ℕ) where
  frames-AllFit :
      (rounds i : ℕ) (bs : List ℕ) (p : Text)
      → At count i msg_len rounds bs (length p)
      → length p < 2 ^ 31
      → let ts = build_frames junk count msg_len (suc rounds) i p in
        AllFit ts × (length ts ≡ suc rounds)
  unfolding build_frames
  frames-AllFit zero i bs p at h =
      ((omega (arith, (arrive-frame junk full count msg_len i 0 bs p at h).1), tt), refl)
  frames-AllFit (suc rounds) i bs p at h =
      let f = build_frame junk count msg_len i p in
      let (fit, n) =
        frames-AllFit rounds (i + 1) (bs ++ take f.len p) (drop f.len p)
          (unfold build_frame in At-next count i msg_len rounds bs p at)
          (omega (arith, length-drop f.len p)) in
      (
        (omega (arith, (arrive-frame junk full count msg_len i (suc rounds) bs p at h).1), fit),
        omega (arith, n),
      )

build-AllFit :
    (junk : ℕ → List ℕ) (msg : Text)
    → ((i : ℕ) → length (junk i) ≡ max_payload)
    → 0 < length msg
    → length msg < 2 ^ 31
    → let ts = (cbcc_tlv_buffer_build true junk msg).tlv_buffer_list in
      AllFit ts × (length ts ≡ tlv_count (length msg))
unfolding cbcc_tlv_buffer_build
build-AllFit junk msg full h k =
    let n = tlv_count (length msg) in
    let (c, at) = start-At msg h in
    subst
      (λ rounds.
        let ts = build_frames junk n (length msg) rounds 0 msg in AllFit ts × (length ts ≡ rounds))
      (sym c) (frames-AllFit junk full n (length msg) (n - 1) 0 [] msg at k)

-- A message that is not empty, has no NUL and leaves the sum of lengths an `int` arrives whole: if
-- the socket takes whole frames, after however many refusals to block, `send_tlv_buffer` reports
-- success, and a receiver that reads what was sent frame by frame, into a sound list that holds
-- nothing for this socket, hands on exactly that message, once, and has left the bytes of the other
-- sockets alone.
pub message_arrives :
    (junk : ℕ → List ℕ) (answers : List Answer) (l : BufferList) (sock : ℕ) (msg : Text)
    → ((i : ℕ) → length (junk i) ≡ max_payload)
    → TakesWhole (tlv_count (length msg)) answers
    → IsSound l
    → held l sock ≡ []
    → 0 < length msg
    → length msg + 1024 < 2 ^ 31
    → NoNul msg
    → (chunks : List (List ℕ)) × (m : BufferList) × (send_tlv_buffer
          (cbcc_tlv_buffer_build true junk msg).tlv_buffer_list
          answers
        ≡ some (success, chunks))
      × (receive_all l sock chunks ≡ some (m, msg ∷ []))
      × Delivered l sock m
message_arrives junk answers l sock msg full takes v e h k clean =
    let ts = (cbcc_tlv_buffer_build true junk msg).tlv_buffer_list in
    let (fit, long) = build-AllFit junk msg full h (omega arith) in
    let (m, got, d) = receive_all-build junk l sock msg full v e h k clean in
    (map wire ts, m, send_tlv_buffer-whole ts answers fit (rw long takes), got, d)
