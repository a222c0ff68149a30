-- ===== src/Wapi/Served.antt =====
-- A client of the web interface is served at most once, and closed.
use chroot_cbccd.Base.{
  ℕ, ◌<◌, ◌≡◌, ◌≢◌, ◌>>=◌, Option-cases, inl, inr, refl, true, false, Option, none, some, List, [],
  ◌∷◌, arith, lt→ltb,
}
use chroot_cbccd.Clients.{fd_setsize}
use chroot_cbccd.Clients.Highest.{Highest, Highest-clear}
use chroot_cbccd.Wapi.{WapiEnv, Daemon}
use chroot_cbccd.Wapi.Dispatch.{cbccd_process_wapi_request}
use chroot_cbccd.Wapi.Io.{
  WapiIo, RecvAnswer, received, disconnected, recv_would_block, recv_failed, IoTurn, waiting, ended,
  buffer_text, without_sock, remove_clnt_sock_from_list, serve_client,
}

-- The thread between two sockets: the highest descriptor is known, and the listening socket is
-- watched.
pub record IsServing (io : WapiIo) : Type 0 where
  pub highest : Highest io.fds io.max_fd
  pub listened : io.fds io.wapi_sock ≡ true

-- A socket is no longer watched and was closed once more, all other sockets are as they were.
pub record Closed (io : WapiIo) (sock : ℕ) (n : WapiIo) : Type 0 where
  pub serving : IsServing n
  pub not_watched : n.fds sock ≡ false
  pub closed_once : n.closed ≡ sock ∷ io.closed
  pub watched : (t : ℕ) → sock ≢ t → n.fds t ≡ io.fds t

-- What the first other answer is.
abbrev pub first_answer : List RecvAnswer → Option RecvAnswer
first_answer [] = none
first_answer (recv_would_block ∷ answers) = first_answer answers
first_answer (a ∷ answers) = some a

-- What the first other answer makes of the loop for a client.
module _ {S : Type 0} (env : WapiEnv S) (d : Daemon S) (io : WapiIo) (sock : ℕ) where
  abbrev pub turn_of : Option RecvAnswer → Option (IoTurn S)
  turn_of none = some waiting
  turn_of (some (received bytes)) = do
    t ← buffer_text bytes
    done ← cbccd_process_wapi_request env d t
    some (ended (without_sock io sock) done.1 ((sock, done.0) ∷ []))
  turn_of (some a) = some (ended (without_sock io sock) d [])

module _ {S : Type 0} (env : WapiEnv S) (d : Daemon S) (io : WapiIo) (sock : ℕ) (v : IsServing io)
    (small : sock < fd_setsize) (other : sock ≢ io.wapi_sock) where
  removed : remove_clnt_sock_from_list io sock ≡ some (without_sock io sock)
  unfolding remove_clnt_sock_from_list
  removed = rw (lt→ltb sock fd_setsize small) refl

  without_sock-Closed : Closed io sock (without_sock io sock)
  without_sock-Closed = record {
    serving = record {
      highest = Highest-clear io.fds io.max_fd sock v.highest;
      listened = ground (arith, v.listened);
    };
    not_watched = ground arith;
    closed_once = refl;
    watched = λ t k. ground arith;
  }

  served :
      (answers : List RecvAnswer)
      → serve_client env d io sock answers ≡ turn_of env d io sock (first_answer answers)
  unfolding serve_client
  served [] = refl
  served (received bytes ∷ answers) = elim (Option-cases (buffer_text bytes)) [
    | inl n ↦ rw n refl
    | inr (t, n) ↦ elim (Option-cases (cbccd_process_wapi_request env d t)) [
      | inl m ↦ rw (n, m) refl
      | inr (done, m) ↦ rw (n, m, removed) refl
    ]
  ]
  served (disconnected ∷ answers) = rw removed refl
  served (recv_would_block ∷ answers) = served answers
  served (recv_failed ∷ answers) = rw removed refl

  -- The loop for a client whose socket is below FD_SETSIZE and not the listening one: it waits as
  -- long as recv would block, and the first other answer decides how it ends. For a request, what
  -- is undefined for the request is so here; else just the response is sent to the socket, and the
  -- daemon is what processing the request leaves. If the client is gone or recv failed, nothing is
  -- sent and the daemon is as it was. In each case the socket is closed, once, and no longer
  -- watched, the highest descriptor is right, and all other sockets are as they were.
  pub serve_client-Closed :
      (answers : List RecvAnswer)
      → (serve_client env d io sock answers ≡ turn_of env d io sock (first_answer answers))
        × Closed io sock (without_sock io sock)
  serve_client-Closed answers = (served answers, without_sock-Closed)
