-- ===== src/Outbound/Sending.antt =====
-- The send loops against the answers of the socket.
use chroot_cbccd.Base.{
  ℕ, zero, suc, ◌≤◌, ◌≡◌, refl, some, List, [], ◌∷◌, map, arith, length, take_all, success,
}
use chroot_cbccd.Outbound.{
  TlvBuffer, wire, Answer, sent, would_block, broken, send_frame, send_tlv_buffer,
}

-- Answers in which the socket takes `k` whole frames, each after any number of refusals to block.
abbrev pub TakesWhole : ℕ → List Answer → Type 0
TakesWhole zero answers = Unit {0}
TakesWhole (suc k) [] = ⊥
TakesWhole (suc k) (sent n ∷ answers) = (1024 ≤ n) × TakesWhole k answers
TakesWhole (suc k) (would_block ∷ answers) = TakesWhole (suc k) answers
TakesWhole (suc k) (broken ∷ answers) = ⊥

-- Frames that are no longer than the array.
abbrev pub AllFit : List TlvBuffer → Type 0
AllFit [] = Unit {0}
AllFit (t ∷ ts) = (length (wire t) ≤ 1024) × AllFit ts

send_frame-whole :
    (buf : List ℕ) (k : ℕ) (answers : List Answer)
    → length buf ≤ 1024
    → TakesWhole (suc k) answers
    → (later : List Answer) × (send_frame buf answers ≡ some (success, buf, later))
      × TakesWhole k later
unfolding send_frame
send_frame-whole buf k [] h w = absurd w
send_frame-whole buf k (sent n ∷ answers) h w = (answers, rw (take_all n buf (omega arith)), w.1)
send_frame-whole buf k (would_block ∷ answers) h w = send_frame-whole buf k answers h w
send_frame-whole buf k (broken ∷ answers) h w = absurd w

-- If the socket takes whole frames, every frame is sent once, in order, and success is reported.
pub send_tlv_buffer-whole :
    (ts : List TlvBuffer) (answers : List Answer)
    → AllFit ts
    → TakesWhole (length ts) answers
    → send_tlv_buffer ts answers ≡ some (success, map wire ts)
unfolding send_tlv_buffer
send_tlv_buffer-whole [] answers f w = refl
send_tlv_buffer-whole (t ∷ ts) answers f w =
    let (later, e, v) = send_frame-whole (wire t) (length ts) answers f.0 w in
    rw (e, send_tlv_buffer-whole ts later f.1 v)
