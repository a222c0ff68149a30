-- ===== src/Outbound/Build.antt =====
-- The frames that `cbcc_tlv_buffer_build` makes.
use chroot_cbccd.Base.{
  ℕ, zero, suc, ◌+◌, ◌-◌, ◌*◌, ◌^◌, ◌<◌, ◌≤◌, ◌≡◌, ◌≢◌, refl, true, List, [], ◌++◌, arith, length,
  length-append, length-take, length-drop, take, drop, Text, take-append, ap, ◌==◌, if◌then◌else◌,
}
use chroot_cbccd.Outbound.{TlvBuffer, tlv_count, frame_header, build_frame, wire, max_payload}
use chroot_cbccd.Memory.{int_of_bytes-bytes_of_int}
use chroot_cbccd.Buffer.MsgType
use chroot_cbccd.Buffer.{fits_in, is_first, is_later}
use chroot_cbccd.Buffer.Parse.{type_word, len_word, payload_of}
use chroot_cbccd.Inbound.Refine.{is_final}

-- The count is the number of frames that are needed: all but the last are full.
pub tlv_count_bounds :
    (n : ℕ) → (n ≤ tlv_count n * max_payload) × (tlv_count n * max_payload < n + max_payload)
unfolding tlv_count
tlv_count_bounds n = ground arith

-- The header of the frame that is sent after `bs`, with `rest` bytes to go and `rounds` more frames
-- to follow: its type fits what the receiver has gathered, it is final exactly when nothing
-- follows, and its length is what it should be.
pub record Fits (rounds : ℕ) (bs : List ℕ) (rest : ℕ) (h : ℕ × ℕ) : Type 0 where
  pub fits : fits_in h.0 (length bs) ≡ true
  pub small : h.0 < 4
  pub final : is_final h.0 ≡ (rounds == 0)
  pub length_le : h.1 ≤ rest
  pub length_max : h.1 ≤ max_payload
  pub remaining : rest - h.1 ≤ rounds * max_payload
  pub all_but_last : rounds ≢ 0 → ((rounds - 1) * max_payload < rest - h.1) × (0 < h.1)

-- Where the loop stands: frame `i` of `count`, `bs` sent and `rest` bytes to go.
pub record At (count i msg_len rounds : ℕ) (bs : List ℕ) (rest : ℕ) : Type 0 where
  pub index : i + suc rounds ≡ count
  pub first : i ≡ 0 → (bs ≡ []) × (rest ≡ msg_len)
  pub later : i ≢ 0 → 0 < length bs
  pub enough : rest ≤ suc rounds * max_payload
  pub needed : rounds * max_payload < rest

-- Which header it is: by the frames before and the frames after.
frame_header_cases :
    (count i msg_len rounds rest : ℕ)
    → i + suc rounds ≡ count
    → (i ≡ 0 → rest ≡ msg_len)
    → frame_header count i msg_len rest ≡ (
        if i == 0
        then if rounds == 0 then (MsgType.single, rest) else (MsgType.start, max_payload)
        else if rounds == 0
        then (MsgType.end, rest)
        else (MsgType.continue, max_payload))
unfolding frame_header
frame_header_cases count zero msg_len zero rest e f = ground (arith, f refl)
frame_header_cases count zero msg_len (suc rounds) rest e f = ground arith
frame_header_cases count (suc i) msg_len zero rest e f = ground arith
frame_header_cases count (suc i) msg_len (suc rounds) rest e f = ground arith

pub frame_header-Fits :
    (count i msg_len rounds : ℕ) (bs : List ℕ) (rest : ℕ)
    → At count i msg_len rounds bs rest
    → Fits rounds bs rest (frame_header count i msg_len rest)
unfolding fits_in is_first is_later
frame_header-Fits count zero msg_len zero bs rest v =
    rw (frame_header_cases count 0 msg_len 0 rest v.index (λ e. (v.first e).1))
      (ground (arith, v.first refl, v.enough))
frame_header-Fits count zero msg_len (suc rounds) bs rest v =
    rw (frame_header_cases count 0 msg_len (suc rounds) rest v.index (λ e. (v.first e).1))
      (ground (arith, v.first refl, v.enough, v.needed))
frame_header-Fits count (suc i) msg_len zero bs rest v =
    rw (frame_header_cases count (suc i) msg_len 0 rest v.index (λ e. (v.first e).1))
      (ground (arith, v.later (λ e. omega arith)))
frame_header-Fits count (suc i) msg_len (suc rounds) bs rest v =
    rw (frame_header_cases count (suc i) msg_len (suc rounds) rest v.index (λ e. (v.first e).1))
      (ground (arith, v.later (λ e. omega arith)))

-- The next turn of the loop, once `n` bytes have been sent.
pub At-next :
    (count i msg_len rounds : ℕ) (bs : List ℕ) (p : Text)
    → At count i msg_len (suc rounds) bs (length p)
    → let n = (frame_header count i msg_len (length p)).1 in
      At count (i + 1) msg_len rounds (bs ++ take n p) (length (drop n p))
At-next count i msg_len rounds bs p v =
    let n = (frame_header count i msg_len (length p)).1 in
    let f = frame_header-Fits count i msg_len (suc rounds) bs (length p) v in
    let more = f.all_but_last (λ e. omega arith) in
    record {
      index = omega (arith, v.index);
      first = λ e. absurd (omega arith);
      later = λ e. omega (arith, length-append bs (take n p), length-take n p, f.length_le, more);
      enough = omega (arith, length-drop n p, f.remaining);
      needed = omega (arith, length-drop n p, more);
    }

-- What the receiver reads in the structure that was sent.
pub wire_words :
    (t : TlvBuffer)
    → t.type < 2 ^ 32
    → t.len < 2 ^ 32
    → (type_word (wire t) ≡ t.type)
      × (len_word (wire t) ≡ t.len)
      × (payload_of (wire t) ≡ take t.len t.buffer)
wire_words t h k =
    let e = int_of_bytes-bytes_of_int t.len k in
    (int_of_bytes-bytes_of_int t.type h, e, ap (λ n. take n t.buffer) e)

-- The array of a frame: full size, with the payload in front.
pub build_frame_buffer :
    (junk : ℕ → List ℕ) (count msg_len i : ℕ) (p : Text)
    → length (junk i) ≡ max_payload
    → let f = build_frame junk count msg_len i p in
      f.len ≤ length p
      → f.len ≤ max_payload
      → (take f.len f.buffer ≡ take f.len p) × (length f.buffer ≡ max_payload)
unfolding build_frame
build_frame_buffer junk count msg_len i p j h k =
    let n = (frame_header count i msg_len (length p)).1 in
    (
      take-append (take n p) (drop n (junk i)) n (omega (arith, length-take n p)),
      omega (
        arith,
        length-append (take n p) (drop n (junk i)),
        length-take n p,
        length-drop n (junk i),
      ),
    )

-- The first turn of the loop over a message that is not empty.
pub start-At :
    (msg : Text)
    → 0 < length msg
    → let n = tlv_count (length msg) in
      (n ≡ suc (n - 1)) × At n 0 (length msg) (n - 1) [] (length msg)
start-At msg h =
    let (enough, needed) = tlv_count_bounds (length msg) in
    (
      omega arith,
      record {
        index = omega arith;
        first = λ _. (refl, refl);
        later = λ q. absurd (q refl);
        enough = omega arith;
        needed = omega arith;
      },
    )
