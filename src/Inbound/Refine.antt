-- ===== src/Inbound/Refine.antt =====
-- `receive` refines a map from sockets to gathered bytes: its answer on every frame.
use chroot_cbccd.Base.{
  ℕ, ◌+◌, ◌^◌, ◌<◌, ◌≤◌, ◌≡◌, ◌≢◌, refl, sym, Bool, true, false, ◌||◌, Option, none, some, List, [],
  ◌∷◌, ◌++◌, ◌>>=◌, arith, length, length-append, Status, success, failure, ◌⊎◌, inl, inr, ◌==◌,
  if◌then◌else◌, Bool-cases, leb, ◌&&◌, ◌∙◌, Text, c_string,
}
use chroot_cbccd.Memory.{write-append}
use chroot_cbccd.Buffer.{
  Buffer, BufferList, fits_in, put_buffer, entry_of, terminate, finish, cbcc_buffer_add,
  cbcc_buffer_free,
}
use chroot_cbccd.Buffer.MsgType
use chroot_cbccd.Buffer.Parse.{
  extended, extended-Holds, Parsed, parse_buffer-total, type_word, len_word, payload_of,
}
use chroot_cbccd.Inbound.Entry.{held, IsSound, Entry, entry_of-Entry, put-Stored, free-Stored}
use chroot_cbccd.Inbound.{after_add, receive}

-- What the frame in `stream` makes of the bytes gathered so far.
pub data Arrival : Type 0 where
  rejected : Arrival
  partial : List ℕ → Arrival
  complete : List ℕ → Arrival

abbrev pub is_final : ℕ → Bool
is_final type = type == MsgType.end || type == MsgType.single

unfoldable pub arrive : List ℕ → List ℕ → ℕ → Arrival
arrive bs stream n =
    if fits_in (type_word stream) (length bs) && leb (8 + len_word stream) n
    then if is_final (type_word stream)
      then complete (bs ++ payload_of stream)
      else partial (bs ++ payload_of stream)
    else rejected

-- What is gathered afterwards, and the message that is handed on.
abbrev pub left : Arrival → List ℕ
left rejected = []
left (partial bs) = bs
left (complete bs) = []

abbrev pub handed_on : Arrival → Option Text
handed_on rejected = none
handed_on (partial bs) = none
handed_on (complete bs) = some (c_string (bs ++ (0 ∷ [])))

pub record Received (l : BufferList) (sock : ℕ) (a : Arrival) (r : BufferList × Option Text)
    : Type 0 where
  pub sound : IsSound r.0
  pub own : held r.0 sock ≡ left a
  pub same : (t : ℕ) → sock ≢ t → held r.0 t ≡ held l t
  pub message : r.1 ≡ handed_on a

terminate-extended :
    (p : Buffer) (t : ℕ) (bs payload : List ℕ)
    → terminate (extended p t bs payload)
      ≡ some (record (extended p t bs payload) {
        buffer =
            some (record {
              size = length bs + length payload + 1;
              bytes = (bs ++ payload) ++ (0 ∷ []);
            });
      })
unfolding terminate
terminate-extended p t bs payload = rw (
    write-append (record { size = length bs + length payload + 1; bytes = bs ++ payload }) (0 ∷ [])
      (length bs + length payload) (sym (length-append bs payload)) (omega arith))

finish-extended :
    (l : BufferList) (sock : ℕ) (e : BufferList × Buffer) (stream : List ℕ) (n : ℕ)
    → Entry l sock e
    → fits_in (type_word stream) (length (held l sock)) ≡ true
    → 8 + len_word stream ≤ n
    → (out : BufferList × Option Text) × ((finish e.0
            (success, extended e.1 (type_word stream) (held l sock) (payload_of stream))
          >>= λ added. some (after_add sock added))
        ≡ some out)
      × Received l sock (arrive (held l sock) stream n) out
unfolding finish after_add
finish-extended l sock e stream n v fits room = elim (Bool-cases (is_final (type_word stream))) [
  | inl final ↦ (
    (
      cbcc_buffer_free (record (e.0) { buffers = put_buffer e.0.buffers done }) sock,
      some (c_string ((bs ++ payload) ++ (0 ∷ []))),
    ),
    rw (final, terminate-extended e.1 (type_word stream) bs payload),
    rw (final_arrives final) (
        let st = free-Stored done v v.of_sock in
        record { sound = st.sound; own = st.own; same = st.same; message = refl }),
  )
  | inr more ↦ (
    (record (e.0) { buffers = put_buffer e.0.buffers q }, none),
    rw more,
    rw (more_arrives more) (
        let st =
          put-Stored q (bs ++ payload) v v.of_sock
            (extended-Holds e.1 (type_word stream) bs payload) in
        record { sound = st.sound; own = st.own; same = st.same; message = refl }),
  )
]
  where
    bs : List ℕ
    bs = held l sock

    payload : List ℕ
    payload = payload_of stream

    q : Buffer
    q = extended e.1 (type_word stream) bs payload

    done : Buffer
    done = record q {
      buffer =
          some
            (record { size = length bs + length payload + 1; bytes = (bs ++ payload) ++ (0 ∷ []) });
    }

    final_arrives :
        is_final (type_word stream) ≡ true → arrive bs stream n ≡ complete (bs ++ payload)
    final_arrives h = unfold arrive in ground arith

    more_arrives :
        is_final (type_word stream) ≡ false → arrive bs stream n ≡ partial (bs ++ payload)
    more_arrives h = unfold arrive in ground arith

finish-Received :
    (l : BufferList) (sock : ℕ) (e : BufferList × Buffer) (stream : List ℕ) (n : ℕ)
    (r : Status × Buffer)
    → Entry l sock e
    → Parsed e.1 (held l sock) stream n r
    → (out : BufferList × Option Text) × ((finish e.0 r >>= λ added. some (after_add sock added))
        ≡ some out)
      × Received l sock (arrive (held l sock) stream n) out
unfolding finish after_add
finish-Received l sock e stream n (failure, q) v (why, s, h) =
    let m = cbcc_buffer_free (record (e.0) { buffers = put_buffer e.0.buffers q }) sock in
    let st = free-Stored q v (s ∙ v.of_sock) in
    (
      (m, none),
      refl,
      rw (refused why) (record { sound = st.sound; own = st.own; same = st.same; message = refl }),
    )
  where
    refused :
        ((fits_in (type_word stream) (length (held l sock)) ≡ false) ⊎ (n < 8 + len_word stream))
        → arrive (held l sock) stream n ≡ rejected
    refused h = unfold arrive in ground arith
finish-Received l sock e stream n (success, q) v (fits, room, long, eq) =
    rw eq (finish-extended l sock e stream n v fits room)

-- One `recv` of a client: whatever the bytes, if both header words were received and the sum of
-- the lengths fits an `int`, the code has no undefined behaviour, keeps the list sound, appends
-- the frame's payload to what the client's socket had gathered, hands the message on when the
-- frame is its last, drops what was gathered when the frame is refused, and leaves every other
-- socket's bytes as they were.
pub receive-Received :
    (l : BufferList) (sock : ℕ) (stream : List ℕ) (n : ℕ)
    → IsSound l
    → 8 ≤ n
    → n ≤ length stream
    → length (held l sock) + n < 2 ^ 31
    → (r : BufferList × Option Text) × (receive l sock stream n ≡ some r)
      × Received l sock (arrive (held l sock) stream n) r
unfolding receive cbcc_buffer_add
receive-Received l sock stream n v h8 hn hb =
    let e = entry_of l sock in
    let en = entry_of-Entry l sock v in
    let (r, parsed, how) = parse_buffer-total e.1 (held l sock) stream n en.holds h8 hn hb in
    rw parsed (finish-Received l sock e stream n r en how)
