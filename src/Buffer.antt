-- ===== src/Buffer.antt =====
-- cbcc-util/cbcc_buffer.c: the buffers, one for each socket, in which the frames that arrive are
-- put together again. An operation that the C code leaves undefined returns `none`.
pub mod MsgType
pub mod Order
pub mod Parse
pub mod Pool
use MsgType
use chroot_cbccd.Base.{
  ℕ, ◌+◌, ◌-◌, Bool, true, false, ◌&&◌, ◌||◌, not, Option, none, some, List, [], ◌∷◌, ◌++◌, ltb,
  ◌==◌, if◌then◌else◌, ◌>>=◌, Status, success, failure,
}
use chroot_cbccd.Memory.{Block, read, write, add_int, size_of_int, sub_size, int_of_bytes}

-- struct cbcc_buffer. `buffer` is `none` for NULL; the links are the order of the list below.
pub record Buffer : Type 0 where
  pub sock : ℕ
  pub total_len : ℕ
  pub type : ℕ
  pub len : ℕ
  pub buffer : Option Block

-- struct cbcc_buffer_list
pub record BufferList : Type 0 where
  pub count : ℕ
  pub buffers : List Buffer

-- The allocation in `parse_buffer`, which is taken to succeed. A length that is negative as an
-- `int` overflows here or in the copy that follows.
pub allocate : Option Block → ℕ → ℕ → Option Block
allocate none len total_len = do n ← add_int len 1; some (record { size = n; bytes = [] })
allocate (some b) len total_len = do
  m ← add_int len total_len
  n ← add_int m 1
  some (record b { size = n })

unfoldable pub is_first : ℕ → Bool
is_first type = type == MsgType.start || type == MsgType.single

unfoldable pub is_later : ℕ → Bool
is_later type = type == MsgType.continue || type == MsgType.end

-- The checks of the type against what has been gathered so far.
unfoldable pub fits_in : ℕ → ℕ → Bool
fits_in type total_len =
    if is_first type then total_len == 0 else if is_later type then not (total_len == 0) else false

-- The last part of `parse_buffer`: the bytes behind the two header words are appended.
pub append_bytes : List ℕ → Buffer → Option Buffer
append_bytes stream p = do
  room ← allocate p.buffer p.len p.total_len
  bytes ← read 8 (size_of_int p.len) stream
  filled ← write room p.total_len bytes
  total ← add_int p.total_len p.len
  some (record p { buffer = some filled; total_len = total })

-- `parse_buffer`. `stream` is the whole array that `buf_len` bytes were received into.
pub parse_buffer : List ℕ → ℕ → Buffer → Option (Status × Buffer)
parse_buffer stream buf_len p = do
  type_bytes ← read 0 4 stream
  let p1 = record p { type = int_of_bytes type_bytes }
  if not (fits_in p1.type p1.total_len) then some (failure, p1) else do
    len_bytes ← read 4 4 stream
    let p2 = record p1 { len = int_of_bytes len_bytes }
    if ltb (sub_size buf_len 8) (size_of_int p2.len)
        then some (failure, p2)
        else do p3 ← append_bytes stream p2; some (success, p3)

-- The walk of `get_buffer_by_sock`.
unfoldable pub find_sock : List Buffer → ℕ → Option Buffer
find_sock [] sock = none
find_sock (p ∷ ps) sock = if p.sock == sock then some p else find_sock ps sock

unfoldable pub get_buffer_by_sock : BufferList → ℕ → Option Buffer
get_buffer_by_sock l sock = if l.count == 0 then none else find_sock l.buffers sock

pub add_buffer_to_list : BufferList → Buffer → BufferList
add_buffer_to_list l buf = record l {
  buffers = if l.count == 0 then buf ∷ [] else l.buffers ++ (buf ∷ []);
  count = l.count + 1;
}

-- Writing through the pointer that `get_buffer_by_sock` returned.
pub put_buffer : List Buffer → Buffer → List Buffer
put_buffer [] q = []
put_buffer (p ∷ ps) q = if p.sock == q.sock then q ∷ ps else p ∷ put_buffer ps q

-- A new entry: `memset` to 0, then the socket.
unfoldable pub new_buffer : ℕ → Buffer
new_buffer sock = record { sock = sock; total_len = 0; type = 0; len = 0; buffer = none }

-- The entry of a socket, made if it is missing.
unfoldable pub entry_of : BufferList → ℕ → BufferList × Buffer
entry_of l sock = elim (get_buffer_by_sock l sock) [
  | none ↦ (add_buffer_to_list l (new_buffer sock), new_buffer sock)
  | some p ↦ (l, p)
]

-- `p->buffer[p->total_len] = 0`
unfoldable pub terminate : Buffer → Option Buffer
terminate p = do
  b ← p.buffer
  b' ← write b p.total_len (0 ∷ [])
  some (record p { buffer = some b' })

-- The end of `cbcc_buffer_add`, once the frame has been parsed. The entry is handed out when the
-- message is complete.
unfoldable pub finish : BufferList → Status × Buffer → Option (Status × BufferList × Option Buffer)
finish l (failure, p) = some (failure, record l { buffers = put_buffer l.buffers p }, none)
finish l (success, p) =
    if p.type == MsgType.end || p.type == MsgType.single
    then (do
      p' ← terminate p
      some (success, record l { buffers = put_buffer l.buffers p' }, some p'))
    else some (success, record l { buffers = put_buffer l.buffers p }, none)

unfoldable pub cbcc_buffer_add :
    BufferList → ℕ → List ℕ → ℕ → Option (Status × BufferList × Option Buffer)
cbcc_buffer_add l sock stream buf_len = do
  let e = entry_of l sock
  parsed ← parse_buffer stream buf_len e.1
  finish e.0 parsed

-- Unlinking the entry that `get_buffer_by_sock` returned.
pub unlink : List Buffer → ℕ → List Buffer
unlink [] sock = []
unlink (p ∷ ps) sock = if p.sock == sock then ps else p ∷ unlink ps sock

-- `count--` runs only when an entry was found, so at `count ≢ 0`.
pub cbcc_buffer_free : BufferList → ℕ → BufferList
cbcc_buffer_free l sock = elim (get_buffer_by_sock l sock) [
  | none ↦ l
  | some p ↦ record l { buffers = unlink l.buffers sock; count = l.count - 1 }
]

-- `free_buffer` frees the entry itself twice where its `total_len` is positive.
unfoldable free_buffer : List Buffer → Option (Unit {0})
free_buffer [] = some tt
free_buffer (p ∷ ps) = do _ ← free_buffer ps; if ltb 0 p.total_len then none else some tt

unfoldable cbcc_buffer_list_free : BufferList → Option BufferList
cbcc_buffer_list_free l =
    if l.count == 0
    then some l
    else do _ ← free_buffer l.buffers; some (record { count = 0; buffers = [] })
