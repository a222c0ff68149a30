-- ===== src/Buffer/Parse.antt =====
-- `parse_buffer` on whole frames, on any received bytes, and on a header that is cut short.
use chroot_cbccd.Base.{
  ℕ, ◌+◌, ◌^◌, ◌<◌, ◌≤◌, ◌≡◌, refl, sym, ap, ◌∙◌, true, false, Option, none, some, List, [], ◌++◌,
  ltb, Status, success, failure, arith, length, length-append, length-take, length-drop, take, drop,
  take-append-drop, ◌⊎◌, inl, inr, Bool-cases, le→ltb, lt→ltb,
}
use chroot_cbccd.Memory.{
  Block, add_int, size_of_int, sub_size, sub_size-eq-sub, int_of_bytes, read-append, write-append,
  read-eq, read-eq_none,
}
use chroot_cbccd.Buffer.{Buffer, fits_in, allocate, append_bytes, parse_buffer}

-- The bytes that an entry has gathered.
abbrev pub gathered : Option Block → List ℕ
gathered none = []
gathered (some b) = b.bytes

-- An entry whose length field agrees with its block.
pub record Holds (p : Buffer) (bs : List ℕ) : Type 0 where
  pub total : p.total_len ≡ length bs
  pub content : gathered p.buffer ≡ bs

-- The entry after `payload` has been appended to `bs`.
abbrev pub extended : Buffer → ℕ → List ℕ → List ℕ → Buffer
extended p t bs payload = record p {
  type = t;
  len = length payload;
  total_len = length bs + length payload;
  buffer = some (record { size = length bs + length payload + 1; bytes = bs ++ payload });
}

pub extended-Holds :
    (p : Buffer) (t : ℕ) (bs payload : List ℕ) → Holds (extended p t bs payload) (bs ++ payload)
extended-Holds p t bs payload = record { total = sym (length-append bs payload); content = refl }

add_int-eq : (a b : ℕ) → a + b < 2 ^ 31 → add_int a b ≡ some (a + b)
unfolding add_int
add_int-eq a b h = rw (lt→ltb (a + b) (2 ^ 31) h)

size_of_int-eq : (n : ℕ) → n < 2 ^ 31 → size_of_int n ≡ n
unfolding size_of_int
size_of_int-eq n h = rw (lt→ltb n (2 ^ 31) h)

le-size_of_int : (n : ℕ) → n ≤ size_of_int n
unfolding size_of_int
le-size_of_int n = ground arith

-- The block that is allocated holds what was gathered and has room for `len` bytes and a NUL.
allocate_lem :
    (b : Option Block) (len total : ℕ)
    → total ≡ length (gathered b)
    → total + len + 1 < 2 ^ 31
    → allocate b len total ≡ some (record { size = total + len + 1; bytes = gathered b })
unfolding allocate
allocate_lem none len total e h = rw (add_int-eq len 1 (omega arith)) (ground (arith, e))
allocate_lem (some b) len total e h =
    rw (add_int-eq len total (omega arith))
      (rw (add_int-eq (len + total) 1 (omega arith)) (ground (arith, e)))

append_bytes_lem :
    (p : Buffer) (bs pre payload rest : List ℕ)
    → Holds p bs
    → length pre ≡ 8
    → p.len ≡ length payload
    → length bs + length payload + 1 < 2 ^ 31
    → append_bytes (pre ++ (payload ++ rest)) p ≡ some (extended p p.type bs payload)
unfolding append_bytes
append_bytes_lem p bs pre payload rest v e f h = ground (
  arith,
  allocate_lem p.buffer p.len p.total_len,
  size_of_int-eq p.len,
  read-append pre payload rest 8 p.len,
  write-append (record { size = p.total_len + p.len + 1; bytes = gathered p.buffer }) payload
      p.total_len,
  add_int-eq p.total_len p.len,
  v.total,
  v.content,
)

-- The two header words and the payload that the length word announces.
abbrev pub type_word : List ℕ → ℕ
type_word stream = int_of_bytes (take 4 stream)

abbrev pub len_word : List ℕ → ℕ
len_word stream = int_of_bytes (take 4 (drop 4 stream))

abbrev pub payload_of : List ℕ → List ℕ
payload_of stream = take (len_word stream) (drop 8 stream)

append_bytes-any :
    (p : Buffer) (bs stream : List ℕ)
    → Holds p bs
    → 8 + p.len ≤ length stream
    → length bs + p.len + 1 < 2 ^ 31
    → append_bytes stream p ≡ some (extended p p.type bs (take p.len (drop 8 stream)))
append_bytes-any p bs stream v h k =
    rw
      (ap (λ s. append_bytes s p)
        (sym (take-append-drop 8 stream)
          ∙ ap (λ s. take 8 stream ++ s) (sym (take-append-drop p.len (drop 8 stream)))))
      (append_bytes_lem p bs (take 8 stream) payload (drop p.len (drop 8 stream)) v
        (omega (arith, length-take 8 stream)) (sym long) (rw long k))
  where
    payload : List ℕ
    payload = take p.len (drop 8 stream)

    long : length payload ≡ p.len
    long = omega (arith, length-take p.len (drop 8 stream), length-drop 8 stream)

-- What `parse_buffer` makes of an entry that holds `bs`.
abbrev pub Parsed : Buffer → List ℕ → List ℕ → ℕ → Status × Buffer → Type 0
Parsed p bs stream buf_len (failure, q) =
    ((fits_in (type_word stream) (length bs) ≡ false) ⊎ (buf_len < 8 + len_word stream))
    × (q.sock ≡ p.sock)
    × Holds q bs
Parsed p bs stream buf_len (success, q) =
    (fits_in (type_word stream) (length bs) ≡ true)
    × (8 + len_word stream ≤ buf_len)
    × (length (payload_of stream) ≡ len_word stream)
    × (q ≡ extended p (type_word stream) bs (payload_of stream))

-- Of any bytes at all, `parse_buffer` makes an answer, without an access out of bounds, as long as
-- both header words have been received: it either reports a failure and leaves what was gathered,
-- or appends the payload that the length word announces.
pub parse_buffer-total :
    (p : Buffer) (bs stream : List ℕ) (buf_len : ℕ)
    → Holds p bs
    → 8 ≤ buf_len
    → buf_len ≤ length stream
    → length bs + buf_len < 2 ^ 31
    → (r : Status × Buffer) × (parse_buffer stream buf_len p ≡ some r)
      × Parsed p bs stream buf_len r
unfolding parse_buffer
parse_buffer-total p bs stream buf_len v h8 hs hb =
    elim (Bool-cases (fits_in (type_word stream) p.total_len)) [
      | inl fits ↦ elim (Bool-cases (ltb (sub_size buf_len 8) (size_of_int (len_word stream)))) [
        | inl long ↦ (
          (failure, record p { type = type_word stream; len = len_word stream }),
          ground (arith, read-eq 0 4 stream, read-eq 4 4 stream),
          (inr (too_long long), refl, record { total = v.total; content = v.content }),
        )
        | inr short ↦ (
          (success, extended p (type_word stream) bs (payload_of stream)),
          ground (
            arith,
            read-eq 0 4 stream,
            read-eq 4 4 stream,
            in_array short,
            append_bytes-any (record p { type = type_word stream; len = len_word stream }) bs stream
                (record { total = v.total; content = v.content }),
          ),
          (
            rw (← v.total) fits,
            in_array short,
            omega (
              arith,
              in_array short,
              length-take (len_word stream) (drop 8 stream),
              length-drop 8 stream,
            ),
            refl,
          ),
        )
      ]
      | inr misfit ↦ (
        (failure, record p { type = type_word stream }),
        ground (arith, read-eq 0 4 stream),
        (inl (rw (← v.total) misfit), refl, record { total = v.total; content = v.content }),
      )
    ]
  where
    too_long :
        ltb (sub_size buf_len 8) (size_of_int (len_word stream)) ≡ true
        → buf_len < 8 + len_word stream
    too_long long = ground (arith, size_of_int-eq (len_word stream), sub_size-eq-sub buf_len 8)

    in_array :
        ltb (sub_size buf_len 8) (size_of_int (len_word stream)) ≡ false
        → 8 + len_word stream ≤ buf_len
    in_array short = ground (arith, le-size_of_int (len_word stream), sub_size-eq-sub buf_len 8)

-- A header that is cut short slips through: with fewer than 8 bytes received the room that is left
-- wraps to a huge `size_t`, and a length word that is not negative but larger than the array is
-- copied out of bounds.
pub parse_buffer-short :
    (p : Buffer) (bs stream : List ℕ) (buf_len : ℕ)
    → Holds p bs
    → buf_len < 8
    → 8 ≤ length stream
    → fits_in (type_word stream) (length bs) ≡ true
    → len_word stream < 2 ^ 31
    → length stream < 8 + len_word stream
    → parse_buffer stream buf_len p ≡ none
unfolding parse_buffer
parse_buffer-short p bs stream buf_len v hn hs fits hl out = ground (
  arith,
  read-eq 0 4 stream,
  read-eq 4 4 stream,
  v.total,
  wrapped,
  size_of_int-eq (len_word stream),
  overrun,
)
  where
    wrapped : ltb (sub_size buf_len 8) (len_word stream) ≡ false
    wrapped = unfold sub_size in le→ltb _ _ (omega arith)

    overrun :
        append_bytes stream (record p { type = type_word stream; len = len_word stream }) ≡ none
    overrun =
        unfold append_bytes in
        ground (arith, size_of_int-eq (len_word stream), read-eq_none 8 (len_word stream) stream)
