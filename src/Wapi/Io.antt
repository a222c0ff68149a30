-- ===== src/Wapi/Io.antt =====
-- cbccd_wapi_io: the clients of the web interface are accepted, served once, and closed. The
-- answers of accept and recv are given in their order; a loop that has used them up is waiting.
use chroot_cbccd.Base.{
  ℕ, zero, suc, Option, none, some, List, [], ◌∷◌, ◌++◌, ◌>>=◌, ltb, length, if◌then◌else◌, true,
  false, Text, c_string,
}
use chroot_cbccd.Clients.{fd_setsize, FdSet, set_bit, raise, is_max, get_max_fd}
use chroot_cbccd.Wapi.{WapiEnv, Daemon}
use chroot_cbccd.Wapi.Dispatch.{cbccd_process_wapi_request}

-- The variables of the thread, with the sockets that were closed, the latest first.
pub record WapiIo : Type 0 where
  pub wapi_sock : ℕ
  pub max_fd : Option ℕ
  pub fds : FdSet
  pub closed : List ℕ

pub data AcceptAnswer : Type 0 where
  accepted : ℕ → AcceptAnswer
  accept_would_block accept_failed : AcceptAnswer

pub data RecvAnswer : Type 0 where
  received : List ℕ → RecvAnswer
  disconnected recv_would_block recv_failed : RecvAnswer

-- Where a loop is: it waits, or it has ended, with the responses that were sent to their sockets.
pub data IoTurn (S : Type 0) : Type 0 where
  waiting : IoTurn S
  ended : WapiIo → Daemon S → List (ℕ × Text) → IoTurn S

-- CBCC_MAX_CMD_LEN, the size of the array that recv fills; it was cleared, so a shorter text ends
-- with a NUL, and one that fills it has no end.
abbrev pub max_cmd_len : ℕ
max_cmd_len = 41024

unfoldable pub buffer_text : List ℕ → Option Text
buffer_text bytes =
    if ltb (length (c_string bytes)) max_cmd_len then some (c_string bytes) else none

-- `remove_clnt_sock_from_list`
abbrev pub without_sock : WapiIo → ℕ → WapiIo
without_sock io sock =
    let fds = set_bit false sock io.fds in
    record io {
      fds = fds;
      closed = sock ∷ io.closed;
      max_fd = if is_max io.max_fd sock then get_max_fd io.max_fd fds else io.max_fd;
    }

unfoldable pub remove_clnt_sock_from_list : WapiIo → ℕ → Option WapiIo
remove_clnt_sock_from_list io sock =
    if ltb sock fd_setsize then some (without_sock io sock) else none

abbrev add_fd : WapiIo → ℕ → Option WapiIo
add_fd io sock =
    if ltb sock fd_setsize
    then some (record io { fds = set_bit true sock io.fds; max_fd = raise sock io.max_fd })
    else none

module _ {S : Type 0} (env : WapiEnv S) (d : Daemon S) where
  -- The accept loop. Descriptor 0 is left alone; it tries again only when it would block.
  unfoldable pub accept_client : WapiIo → List AcceptAnswer → Option (IoTurn S)
  accept_client io [] = some waiting
  accept_client io (accepted zero ∷ answers) = some (ended io d [])
  accept_client io (accepted (suc n) ∷ answers) = do
    next ← add_fd io (suc n)
    some (ended next d [])
  accept_client io (accept_would_block ∷ answers) = accept_client io answers
  accept_client io (accept_failed ∷ answers) = some (ended io d [])

  -- The loop for a client, which ends with its socket closed.
  unfoldable pub serve_client : WapiIo → ℕ → List RecvAnswer → Option (IoTurn S)
  serve_client io sock [] = some waiting
  serve_client io sock (received bytes ∷ answers) = do
    t ← buffer_text bytes
    done ← cbccd_process_wapi_request env d t
    next ← remove_clnt_sock_from_list io sock
    some (ended next done.1 ((sock, done.0) ∷ []))
  serve_client io sock (disconnected ∷ answers) = do
    next ← remove_clnt_sock_from_list io sock
    some (ended next d [])
  serve_client io sock (recv_would_block ∷ answers) = serve_client io sock answers
  serve_client io sock (recv_failed ∷ answers) = do
    next ← remove_clnt_sock_from_list io sock
    some (ended next d [])

-- A socket that select reports, with the answers that its loop gets.
pub data Ready : Type 0 where
  listening : List AcceptAnswer → Ready
  client : ℕ → List RecvAnswer → Ready

unfoldable pub handle_ready :
    {S : Type 0} → WapiEnv S → Daemon S → WapiIo → Ready → Option (IoTurn S)
handle_ready env d io (listening answers) = accept_client env d io answers
handle_ready env d io (client sock answers) = serve_client env d io sock answers

-- One round of the thread, over the sockets that select reports, in ascending order; a loop that
-- waits keeps the thread.
unfoldable pub io_round :
    {S : Type 0} → WapiEnv S → Daemon S → WapiIo → List Ready → Option (IoTurn S)
io_round env d io [] = some (ended io d [])
io_round env d io (r ∷ rs) = do
  turn ← handle_ready env d io r
  elim turn [
    | waiting ↦ some waiting
    | ended next after sent ↦ do
      rest ← io_round env after next rs
      some (elim rest [
        | waiting ↦ waiting
        | ended last final more ↦ ended last final (sent ++ more)
      ])
  ]
