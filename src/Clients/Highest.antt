-- ===== src/Clients/Highest.antt =====
-- `max_fd` is the highest member of the descriptor set, and stays so.
use chroot_cbccd.Base.{
  ℕ, zero, suc, ◌+◌, ◌<◌, ◌≡◌, ◌≢◌, refl, sym, subst, ◌||◌, Bool, true, false, Option, none, some,
  ◌∷◌, ◌⊎◌, inl, inr, arith, ltb, ltb→lt, lt→ltb, ◌==◌, if◌then◌else◌, Bool-cases, Text,
}
use chroot_cbccd.Buffer.{get_buffer_by_sock}
use chroot_cbccd.Buffer.Pool.{IsValid, cbcc_buffer_free-IsValid}
use chroot_cbccd.Clients.{
  fd_setsize, FdSet, set_bit, CmdMgr, raise, max_loop, get_max_fd, free_ssl_info, is_max,
  drop_socket, cbccd_cmd_free_socket, add_client, verify_ssl_status, admit,
}

-- The highest member of a set below `n`; `none` if it has none there.
abbrev pub IsHighest : FdSet → ℕ → Option ℕ → Type 0
IsHighest fds n none = (i : ℕ) → i < n → fds i ≡ false
IsHighest fds n (some m) = (m < n) × (fds m ≡ true) × ((i : ℕ) → m < i → i < n → fds i ≡ false)

last_case : (fds : FdSet) (n i : ℕ) → i < n + 1 → ((i < n) ⊎ (i ≡ n))
last_case fds n i h = ground arith

IsHighest-next :
    (fds : FdSet) (n : ℕ) (o : Option ℕ)
    → IsHighest fds n o
    → IsHighest fds (n + 1) (if fds n then raise n o else o)
IsHighest-next fds n none h = elim (Bool-cases (fds n)) [
  | inl e ↦ rw e (omega arith, e, λ i lo hi. absurd (omega arith))
  | inr e ↦ rw e (λ i hi. elim (last_case fds n i hi) [ inl lt ↦ h i lt | inr eq ↦ rw eq e ])
]
IsHighest-next fds n (some m) h = elim (Bool-cases (fds n)) [
  | inl e ↦ rw (e, lt→ltb m n h.0) (omega arith, e, λ i lo hi. absurd (omega arith))
  | inr e ↦ rw e (
    omega (arith, h.0),
    h.1,
    λ i lo hi. elim (last_case fds n i hi) [ inl lt ↦ h.2 i lo lt | inr eq ↦ rw eq e ],
  )
]

add_zero : (i : ℕ) → i + 0 ≡ i
add_zero i = omega arith

zero_add : (i : ℕ) → 0 + i ≡ i
zero_add i = omega arith

add_step : (i r : ℕ) → i + suc r ≡ (i + 1) + r
add_step i r = omega arith

max_loop-IsHighest :
    (fds : FdSet) (rounds i : ℕ) (o : Option ℕ)
    → IsHighest fds i o
    → IsHighest fds (i + rounds) (max_loop fds rounds i o)
unfolding max_loop
max_loop-IsHighest fds zero i o h = subst (λ n. IsHighest fds n o) (sym (add_zero i)) h
max_loop-IsHighest fds (suc rounds) i o h =
    let p = if fds i then raise i o else o in
    subst (λ n. IsHighest fds n (max_loop fds rounds (i + 1) p)) (sym (add_step i rounds))
      (max_loop-IsHighest fds rounds (i + 1) p (IsHighest-next fds i o h))

-- `get_max_fd` finds the highest member of the set among 0 to `old`.
pub get_max_fd-IsHighest :
    (old : ℕ) (fds : FdSet) → IsHighest fds (old + 1) (get_max_fd (some old) fds)
unfolding get_max_fd
get_max_fd-IsHighest old fds =
    subst (λ n. IsHighest fds n (max_loop fds (old + 1) 0 none)) (zero_add (old + 1))
      (max_loop-IsHighest fds (old + 1) 0 none (λ i h. absurd (omega arith)))

-- The highest member of a whole set.
abbrev pub Highest : FdSet → Option ℕ → Type 0
Highest fds none = (i : ℕ) → fds i ≡ false
Highest fds (some m) = (fds m ≡ true) × ((i : ℕ) → m < i → fds i ≡ false)

Highest-whole :
    (fds : FdSet) (old : ℕ) (o : Option ℕ)
    → IsHighest fds (old + 1) o
    → ((i : ℕ) → old < i → fds i ≡ false)
    → Highest fds o
Highest-whole fds old none h above = λ i. elim (Bool-cases (ltb i (old + 1))) [
  | inl e ↦ h i (ltb→lt i (old + 1) e)
  | inr e ↦ above i (ground (arith, e))
]
Highest-whole fds old (some m) h above = (
  h.1,
  λ i lo. elim (Bool-cases (ltb i (old + 1))) [
    | inl e ↦ h.2 i lo (ltb→lt i (old + 1) e)
    | inr e ↦ above i (ground (arith, e))
  ],
)

-- The I/O thread between two calls: the highest descriptor is known, the listening socket is
-- watched, and the buffers are valid.
pub record IsRunning (m : CmdMgr) : Type 0 where
  pub highest : Highest m.fds m.max_fd
  pub listening : m.fds m.cmd_srv_sock ≡ true
  pub buffers : IsValid m.buffer_list

-- The maximum once a descriptor was cleared, by the code's test.
pub Highest-clear :
    (fds : FdSet) (o : Option ℕ) (s : ℕ)
    → Highest fds o
    → let cleared = set_bit false s fds in
      Highest cleared (if is_max o s then get_max_fd o cleared else o)
Highest-clear fds none s h = λ i. ground (arith, h i)
Highest-clear fds (some m) s h = elim (Bool-cases (s == m)) [
  | inl e ↦ rw e (
      Highest-whole (set_bit false s fds) m (get_max_fd (some m) (set_bit false s fds))
        (get_max_fd-IsHighest m (set_bit false s fds)) (λ i lo. ground (arith, h.1 i lo)))
  | inr e ↦ rw e (ground (arith, h.0), λ i lo. ground (arith, h.1 i lo))
]

pub Highest-set :
    (fds : FdSet) (o : Option ℕ) (s : ℕ) → Highest fds o → Highest (set_bit true s fds) (raise s o)
Highest-set fds none s h = (ground arith, λ i lo. ground (arith, h i))
Highest-set fds (some m) s h = elim (Bool-cases (ltb m s)) [
  | inl e ↦ rw e (ground arith, λ i lo. ground (arith, h.1 i))
  | inr e ↦ rw e (ground (arith, h.0), λ i lo. ground (arith, h.1 i lo))
]

-- The manager after a client's socket was freed.
pub record Freed (m : CmdMgr) (sock : ℕ) (n : CmdMgr) : Type 0 where
  pub running : IsRunning n
  pub not_watched : n.fds sock ≡ false
  pub no_buffer : get_buffer_by_sock n.buffer_list sock ≡ none
  pub watched : (t : ℕ) → sock ≢ t → n.fds t ≡ m.fds t
  pub kept :
      (t : ℕ) → sock ≢ t → get_buffer_by_sock n.buffer_list t ≡ get_buffer_by_sock m.buffer_list t

drop_socket-Freed :
    (m : CmdMgr) (sock : ℕ)
    → IsRunning m
    → sock ≢ m.cmd_srv_sock
    → Freed m sock (drop_socket m sock)
drop_socket-Freed m sock v h =
    let (valid, gone, others) = cbcc_buffer_free-IsValid m.buffer_list sock v.buffers in
    record {
      running = record {
        highest = Highest-clear m.fds m.max_fd sock v.highest;
        listening = ground (arith, v.listening);
        buffers = valid;
      };
      not_watched = ground arith;
      no_buffer = gone;
      watched = λ t k. ground arith;
      kept = others;
    }

-- Freeing a client's socket, any but the listening one: the highest descriptor, the listening
-- socket and the buffers stay right, the socket is no longer watched and has no buffer, and every
-- other socket is watched as before and keeps its buffer.
pub cbccd_cmd_free_socket-Freed :
    (m : CmdMgr) (sock : ℕ)
    → IsRunning m
    → sock < fd_setsize
    → sock ≢ m.cmd_srv_sock
    → (n : CmdMgr) × (cbccd_cmd_free_socket m (some sock) ≡ some n) × Freed m sock n
unfolding cbccd_cmd_free_socket free_ssl_info
cbccd_cmd_free_socket-Freed m sock v small h = elim (Bool-cases m.no_ssl) [
  | inl e ↦
      (drop_socket m sock, rw (lt→ltb sock fd_setsize small, e) refl, drop_socket-Freed m sock v h)
  | inr e ↦
      let m' : CmdMgr = record m { ssl = set_bit false sock m.ssl } in
      let w : IsRunning m' = record {
        highest = v.highest;
        listening = v.listening;
        buffers = v.buffers;
      } in
      let f = drop_socket-Freed m' sock w h in
      (
        drop_socket m' sock,
        rw (lt→ltb sock fd_setsize small, e) refl,
        record {
          running = f.running;
          not_watched = f.not_watched;
          no_buffer = f.no_buffer;
          watched = f.watched;
          kept = f.kept;
        },
      )
]

add_client-IsRunning :
    (m : CmdMgr) (s : ℕ) (ip : Text) (port : ℕ) → IsRunning m → IsRunning (add_client m s ip port)
add_client-IsRunning m s ip port v = record {
  highest = Highest-set m.fds m.max_fd s v.highest;
  listening = ground (arith, v.listening);
  buffers = v.buffers;
}

with_ssl : (m : CmdMgr) (ssl : FdSet) → IsRunning m → IsRunning (record m { ssl = ssl })
with_ssl m ssl v = record { highest = v.highest; listening = v.listening; buffers = v.buffers }

-- Accepting a client with a descriptor that an fd_set holds: the highest descriptor, the listening
-- socket and the buffers stay right; the client is watched if its session was verified, and closed
-- and left as it was if not; every other socket is watched as before.
admit-IsRunning :
    (m : CmdMgr) (n : ℕ) (ip : Text) (port : ℕ) (handshake : Bool)
    → IsRunning m
    → suc n < fd_setsize
    → (r : CmdMgr) × (admit m (suc n) ip port handshake ≡ some r)
      × IsRunning r
      × (r.fds (suc n) ≡ (if m.no_ssl || handshake then true else m.fds (suc n)))
      × ((t : ℕ) → suc n ≢ t → r.fds t ≡ m.fds t)
unfolding admit verify_ssl_status
admit-IsRunning m n ip port true v small = elim (Bool-cases m.no_ssl) [
  | inl e ↦ (
    add_client m (suc n) ip port,
    rw (e, lt→ltb (suc n) fd_setsize small) refl,
    add_client-IsRunning m (suc n) ip port v,
    ground (arith, e),
    λ t k. ground arith,
  )
  | inr e ↦ (
    add_client (record m { ssl = set_bit true (suc n) m.ssl }) (suc n) ip port,
    rw (e, lt→ltb (suc n) fd_setsize small) refl,
    add_client-IsRunning (record m { ssl = set_bit true (suc n) m.ssl }) (suc n) ip port
        (with_ssl m (set_bit true (suc n) m.ssl) v),
    ground (arith, e),
    λ t k. ground arith,
  )
]
admit-IsRunning m n ip port false v small = elim (Bool-cases m.no_ssl) [
  | inl e ↦ (
    add_client m (suc n) ip port,
    rw (e, lt→ltb (suc n) fd_setsize small) refl,
    add_client-IsRunning m (suc n) ip port v,
    ground (arith, e),
    λ t k. ground arith,
  )
  | inr e ↦ (
    record m { ssl = set_bit false (suc n) m.ssl; closed = suc n ∷ m.closed },
    rw e refl,
    record { highest = v.highest; listening = v.listening; buffers = v.buffers },
    ground (arith, e),
    λ t k. refl,
  )
]
