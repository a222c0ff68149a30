-- ===== src/Clients.antt =====
-- The client sockets of the command manager: the descriptor set and its highest member in
-- cbccd/cbccd_cmd.c (the accept branch of cbccd_cmd_io, cbccd_cmd_free_socket) and get_max_fd of
-- cbcc-util/cbcc_sock.c. `none` is undefined behaviour: a descriptor outside an fd_set.
pub mod Highest
use chroot_cbccd.Base.{
  ℕ, zero, suc, ◌+◌, Bool, true, false, not, Option, none, some, List, [], ◌∷◌, ◌++◌, ltb, ◌==◌,
  if◌then◌else◌, Text, snprintf,
}
use chroot_cbccd.Buffer.{BufferList, cbcc_buffer_free}

-- FD_SETSIZE, of the C library's fd_set
abbrev pub fd_setsize : ℕ
fd_setsize = 1024

abbrev pub FdSet : Type 0
FdSet = ℕ → Bool

abbrev pub set_bit : Bool → ℕ → FdSet → FdSet
set_bit b s fds i = if i == s then b else fds i

-- struct cbccd_cmd_mgr. `max_fd` is `none` at -1; `ssl` says which slots hold a session; `closed`
-- are the sockets that were closed, the latest first.
pub record CmdMgr : Type 0 where
  pub no_ssl : Bool
  pub cmd_srv_sock : ℕ
  pub max_fd : Option ℕ
  pub fds : FdSet
  pub buffer_list : BufferList
  pub ipaddr : ℕ → Text
  pub sport : ℕ → ℕ
  pub ssl : FdSet
  pub closed : List ℕ

-- The greater of a descriptor and the maximum so far.
abbrev pub raise : ℕ → Option ℕ → Option ℕ
raise i none = some i
raise i (some m) = if ltb m i then some i else some m

pub max_loop : FdSet → ℕ → ℕ → Option ℕ → Option ℕ
max_loop fds zero i max_fd = max_fd
max_loop fds (suc rounds) i max_fd =
    max_loop fds rounds (i + 1) (if fds i then raise i max_fd else max_fd)

pub get_max_fd : Option ℕ → FdSet → Option ℕ
get_max_fd none fds = none
get_max_fd (some old) fds = max_loop fds (old + 1) 0 none

pub free_ssl_info : CmdMgr → ℕ → CmdMgr
free_ssl_info m sock = if m.no_ssl then m else record m { ssl = set_bit false sock m.ssl }

abbrev pub is_max : Option ℕ → ℕ → Bool
is_max none sock = false
is_max (some m) sock = sock == m

-- The rest of `cbccd_cmd_free_socket`, from the buffer on.
abbrev pub drop_socket : CmdMgr → ℕ → CmdMgr
drop_socket m sock =
    let fds = set_bit false sock m.fds in
    record m {
      buffer_list = cbcc_buffer_free m.buffer_list sock;
      fds = fds;
      closed = sock ∷ m.closed;
      max_fd = if is_max m.max_fd sock then get_max_fd m.max_fd fds else m.max_fd;
    }

pub cbccd_cmd_free_socket : CmdMgr → Option ℕ → Option CmdMgr
cbccd_cmd_free_socket m none = none
cbccd_cmd_free_socket m (some sock) =
    if ltb sock fd_setsize then some (drop_socket (free_ssl_info m sock) sock) else none

-- What `accept` answers: a client with its address and port, and whether its SSL session could be
-- set up; -1 with EWOULDBLOCK; or -1 with another error.
pub data Accept : Type 0 where
  client : ℕ → Text → ℕ → Bool → Accept
  accept_would_block : Accept
  accept_failed : Accept

-- A client whose session was verified is added.
abbrev pub add_client : CmdMgr → ℕ → Text → ℕ → CmdMgr
add_client m sock ip port = record m {
  fds = set_bit true sock m.fds;
  max_fd = raise sock m.max_fd;
  ipaddr = λ i. if i == sock then snprintf 32 ip else m.ipaddr i;
  sport = λ i. if i == sock then port else m.sport i;
}

-- `verify_ssl_status`: with SSL the slot holds the session if the handshake worked.
pub verify_ssl_status : CmdMgr → ℕ → Bool → Bool × CmdMgr
verify_ssl_status m sock handshake =
    if m.no_ssl then (true, m) else (handshake, record m { ssl = set_bit handshake sock m.ssl })

-- One client that was accepted. Descriptor 0 is left alone.
pub admit : CmdMgr → ℕ → Text → ℕ → Bool → Option CmdMgr
admit m zero ip port handshake = some m
admit m (suc n) ip port handshake =
    let v = verify_ssl_status m (suc n) handshake in
    if v.0
    then if ltb (suc n) fd_setsize then some (add_client v.1 (suc n) ip port) else none
    else some (record (v.1) { closed = suc n ∷ v.1.closed })

-- The loop of the accept branch, over the answers; it tries again only when it would block.
unfoldable accept_clients : CmdMgr → List Accept → Option CmdMgr
accept_clients m [] = none
accept_clients m (accept_failed ∷ answers) = some m
accept_clients m (accept_would_block ∷ answers) = accept_clients m answers
accept_clients m (client sock ip port handshake ∷ answers) = admit m sock ip port handshake
