-- ===== src/Inbound.antt =====
-- The frame branch of the I/O loop in cbccd/cbccd_cmd.c: the bytes of one `recv` or `SSL_read`
-- from a client go into the client's buffer; a complete message goes to the command processor,
-- and the buffer is freed when the message is complete or the frame is refused.
pub mod Entry
pub mod Refine
use chroot_cbccd.Base.{
  ℕ, Option, none, some, List, [], ◌∷◌, ◌++◌, ◌>>=◌, Status, success, failure, Text, c_string,
}
use chroot_cbccd.Memory.{Block}
use chroot_cbccd.Buffer.{Buffer, BufferList, cbcc_buffer_add, cbcc_buffer_free}

-- The text that the command processor reads through `buf->buffer`.
abbrev pub message : Option Block → Text
message none = []
message (some b) = c_string b.bytes

-- What follows `cbcc_buffer_add`: the list afterwards, and the message for `cbccd_process_cmd`.
pub after_add : ℕ → Status × BufferList × Option Buffer → BufferList × Option Text
after_add sock (failure, l, p) = (cbcc_buffer_free l sock, none)
after_add sock (success, l, none) = (l, none)
after_add sock (success, l, some p) = (cbcc_buffer_free l sock, some (message p.buffer))

pub receive : BufferList → ℕ → List ℕ → ℕ → Option (BufferList × Option Text)
receive l sock cmd_buf ret = do
  added ← cbcc_buffer_add l sock cmd_buf ret
  some (after_add sock added)

-- What a step adds to the messages that were received so far.
abbrev keep_message : Option Text → List Text → List Text
keep_message none ms = ms
keep_message (some m) ms = m ∷ ms

-- Frames from one client, one to a `recv`, with the messages in the order of their completion.
unfoldable pub receive_all : BufferList → ℕ → List (List ℕ) → Option (BufferList × List Text)
receive_all l sock [] = some (l, [])
receive_all l sock (f ∷ fs) = do
  r ← receive l sock f 1024
  rest ← receive_all r.0 sock fs
  some (rest.0, keep_message r.1 rest.1)
