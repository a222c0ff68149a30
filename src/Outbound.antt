-- ===== src/Outbound.antt =====
-- How a message leaves: cbcc_tlv_buffer_build of cbcc-util/cbcc_buffer.c cuts it into frames of at
-- most 1016 bytes, and send_tlv_buffer and ssl_send_tlv_buffer of cbcc-util/cbcc_sock.c write them
-- to the socket. The answers of `send` and `SSL_write` are a list.
pub mod Build
pub mod EndToEnd
pub mod RoundTrip
pub mod Sending
use chroot_cbccd.Base.{
  ℕ, zero, suc, ◌+◌, ◌-◌, ◌*◌, ◌/◌, Bool, true, false, Option, none, some, List, [], ◌∷◌, ◌++◌,
  ◌>>=◌, length, take, drop, ltb, ◌==◌, if◌then◌else◌, Status, success, failure, Text,
}
use chroot_cbccd.Memory.{bytes_of_int}
use chroot_cbccd.Buffer.MsgType

-- CBCC_MAX_SOCK_BUF_LEN, and what is left of it behind the two header words.
abbrev max_sock_buf_len : ℕ
max_sock_buf_len = 1024

abbrev pub max_payload : ℕ
max_payload = max_sock_buf_len - 2 * 4

-- struct cbcc_tlv_buffer and struct cbcc_tlv_buffer_list
pub record TlvBuffer : Type 0 where
  pub type : ℕ
  pub len : ℕ
  pub buffer : List ℕ

pub record TlvBufferList : Type 0 where
  pub count : ℕ
  pub tlv_buffer_list : List TlvBuffer

unfoldable pub tlv_count : ℕ → ℕ
tlv_count len =
    let whole = len / max_payload in if ltb (whole * max_payload) len then whole + 1 else whole

-- The type and the length of frame `i`, where `msg_len` is the length of the message and `rest`
-- that of what is still to be sent.
pub frame_header : ℕ → ℕ → ℕ → ℕ → ℕ × ℕ
frame_header count i msg_len rest =
    if count == 1
    then (MsgType.single, msg_len)
    else if i == 0
    then (MsgType.start, max_payload)
    else if i == count - 1
    then (MsgType.end, rest)
    else (MsgType.continue, max_payload)

-- `junk` is what the allocated memory held: the part of a frame's array that is not written.
pub build_frame : (ℕ → List ℕ) → ℕ → ℕ → ℕ → Text → TlvBuffer
build_frame junk count msg_len i p =
    let (type, len) = frame_header count i msg_len (length p) in
    record { type = type; len = len; buffer = take len p ++ drop len (junk i) }

-- The loop, with the number of rounds left.
unfoldable pub build_frames : (ℕ → List ℕ) → ℕ → ℕ → ℕ → ℕ → Text → List TlvBuffer
build_frames junk count msg_len zero i p = []
build_frames junk count msg_len (suc rounds) i p =
    let f = build_frame junk count msg_len i p in
    f ∷ build_frames junk count msg_len rounds (i + 1) (drop f.len p)

-- `allocated` says whether `malloc` found memory.
pub cbcc_tlv_buffer_build : Bool → (ℕ → List ℕ) → Text → TlvBufferList
cbcc_tlv_buffer_build allocated junk msg =
    let count = tlv_count (length msg) in
    if allocated
    then record {
      count = count;
      tlv_buffer_list = build_frames junk count (length msg) count 0 msg;
    }
    else record { count = 0; tlv_buffer_list = [] }

-- The bytes of the structure, which are what is sent.
abbrev pub wire : TlvBuffer → List ℕ
wire t = bytes_of_int t.type ++ (bytes_of_int t.len ++ t.buffer)

-- What `send` or `SSL_write` answers: the number of bytes that were taken, -1 with EWOULDBLOCK, or
-- -1 with another error.
pub data Answer : Type 0 where
  sent : ℕ → Answer
  would_block : Answer
  broken : Answer

-- The inner loop: what was taken, and the answers that are left; `none` while it is still trying.
pub send_frame : List ℕ → List Answer → Option (Status × List ℕ × List Answer)
send_frame buf [] = none
send_frame buf (sent n ∷ answers) = some (success, take n buf, answers)
send_frame buf (would_block ∷ answers) = send_frame buf answers
send_frame buf (broken ∷ answers) = some (failure, [], answers)

-- What one frame's outcome and the outcome of the later frames make together.
abbrev join_chunks : List ℕ → Status × List (List ℕ) → Status × List (List ℕ)
join_chunks chunk rest = (rest.0, chunk ∷ rest.1)

-- The outer loop, with the chunks that the socket took, one to a frame.
pub send_tlv_buffer : List TlvBuffer → List Answer → Option (Status × List (List ℕ))
send_tlv_buffer [] answers = some (success, [])
send_tlv_buffer (t ∷ ts) answers = do
  done ← send_frame (wire t) answers
  elim done.0 [
    | failure ↦ some (failure, [])
    | success ↦ do rest ← send_tlv_buffer ts done.2; some (join_chunks done.1 rest)
  ]
