-- ===== src/Memory.antt =====
-- Memory as the C code sees it: an `int` in an array of bytes (little-endian, 32 bits, two's
-- complement), its conversion to `size_t`, and reads and writes of arrays. `none` is undefined
-- behaviour: an access outside the object, or an `int` sum that overflows.
use chroot_cbccd.Base.{
  ℕ, ◌+◌, ◌-◌, ◌*◌, ◌/◌, ◌%◌, ◌^◌, ◌<◌, ◌≤◌, ◌≡◌, Option, none, some, List, [], ◌∷◌, ◌++◌,
  append-nil, length, length-append, take, take-append, take_all, drop, drop-append, drop_all, ltb,
  lt→ltb, le→ltb, if◌then◌else◌, arith,
}

abbrev pub int_of_bytes : List ℕ → ℕ
int_of_bytes [] = 0
int_of_bytes (b ∷ bs) = b + 256 * int_of_bytes bs

abbrev pub bytes_of_int : ℕ → List ℕ
bytes_of_int n = n % 256 ∷ n / 256 % 256 ∷ n / 65536 % 256 ∷ n / 16777216 % 256 ∷ []

pub int_of_bytes-bytes_of_int : (n : ℕ) → n < 2 ^ 32 → int_of_bytes (bytes_of_int n) ≡ n
int_of_bytes-bytes_of_int n h = omega arith

-- Reading `n` bytes at offset `off` of an object.
pub read : ℕ → ℕ → List ℕ → Option (List ℕ)
read off n object = if ltb (length object) (off + n) then none else some (take n (drop off object))

-- A heap block: its size, and the bytes written so far, from its start.
pub record Block : Type 0 where
  pub size : ℕ
  pub bytes : List ℕ

-- Writing at an offset of a block.
pub write : Block → ℕ → List ℕ → Option Block
write b off bs =
    if ltb b.size (off + length bs)
    then none
    else some (record b { bytes = take off b.bytes ++ (bs ++ drop (off + length bs) b.bytes) })

-- A sum of two `int`s that are not negative.
unfoldable pub add_int : ℕ → ℕ → Option ℕ
add_int a b = if ltb (a + b) (2 ^ 31) then some (a + b) else none

-- `(size_t) n` of an `int` with bit pattern `n`: the sign is extended to 64 bits.
unfoldable pub size_of_int : ℕ → ℕ
size_of_int n = if ltb n (2 ^ 31) then n else n + (2 ^ 64 - 2 ^ 32)

-- `a - b` in `size_t`, which wraps.
unfoldable pub sub_size : ℕ → ℕ → ℕ
sub_size a b = (a + 2 ^ 64 - b) % 2 ^ 64

pub sub_size-eq-sub : (a b : ℕ) → b ≤ a → a < 2 ^ 64 → sub_size a b ≡ a - b
unfolding sub_size
sub_size-eq-sub a b h k = omega arith

-- Reading the part in the middle of an object.
pub read-append :
    (pre mid post : List ℕ) (off n : ℕ)
    → off ≡ length pre
    → n ≡ length mid
    → read off n (pre ++ (mid ++ post)) ≡ some mid
unfolding read
read-append pre mid post off n e f =
    rw (drop-append pre (mid ++ post) off e, take-append mid post n f)
      (ground (arith, length-append pre (mid ++ post), length-append mid post))

-- Writing just past what has been written appends to it.
pub write-append :
    (b : Block) (bs : List ℕ) (off : ℕ)
    → off ≡ length b.bytes
    → off + length bs ≤ b.size
    → write b off bs ≡ some (record b { bytes = b.bytes ++ bs })
unfolding write
write-append b bs off e h = rw (
  le→ltb b.size (off + length bs) h,
  take_all off b.bytes (omega arith),
  drop_all (off + length bs) b.bytes (omega arith),
  append-nil,
)

pub read-eq :
    (off n : ℕ) (object : List ℕ)
    → off + n ≤ length object
    → read off n object ≡ some (take n (drop off object))
unfolding read
read-eq off n object h = rw (le→ltb (length object) (off + n) h)

pub read-eq_none :
    (off n : ℕ) (object : List ℕ) → length object < off + n → read off n object ≡ none
unfolding read
read-eq_none off n object h = rw (lt→ltb (length object) (off + n) h)
