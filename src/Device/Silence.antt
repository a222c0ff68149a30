-- ===== src/Device/Silence.antt =====
-- The keepalive check: exactly the silent devices are set offline.
use chroot_cbccd.Base.{
  ℕ, suc, ◌+◌, ◌-◌, ◌≡◌, refl, sym, ◌∙◌, ap, Bool, true, false, ltb, none, some, List, [], ◌∷◌,
  ◌++◌, map, inl, inr, arith, length, length-append, get_elem?, ◌==◌, if◌then◌else◌, Option-cases,
  Bool-cases, Text, codes,
}
use chroot_cbccd.Device.{
  offline, DeviceInfo, DeviceMgr, Call, set_guid_tbl_data, free_socket, has_sock, same_sock,
  find_device, modify_device, cbccd_device_get_info_by_sock,
}
use chroot_cbccd.Device.Json.{Env, str_val, int_val, cached}
use chroot_cbccd.Device.Login.{under}
use chroot_cbccd.Device.Keepalive.{
  set_off, offline_calls, cbccd_device_set_offline, is_expired, check_device, check_from,
  check_keepalive_status,
}

-- A device that is logged in and from which nothing was heard for more than 20 seconds.
abbrev is_silent : ℕ → DeviceInfo → Bool
is_silent now d = if d.is_logined then ltb 20 (now - d.updated_tm) else false

expired-eq-silent : (now : ℕ) (d : DeviceInfo) → is_expired now d ≡ is_silent now d
expired-eq-silent now d = ground arith

-- What the check should do to one device.
abbrev pub expire : ℕ → DeviceInfo → DeviceInfo
expire now d =
    if is_silent now d
    then record d { sock = none; conn_status = offline; is_logined = false }
    else d

abbrev expiry_calls : Env → ℕ → List DeviceInfo → List Call
expiry_calls env now [] = []
expiry_calls env now (d ∷ ds) =
    (if is_silent now d then free_socket d.sock ∷ offline_calls env d true else [])
    ++ expiry_calls env now ds

-- No device but those at -1 shares its socket with a later one; a device that is logged in has one.
abbrev pub Apart : List DeviceInfo → Type 0
Apart [] = Unit {0}
Apart (d ∷ ds) = ((s : ℕ) → d.sock ≡ some s → find_device (has_sock (some s)) ds ≡ none) × Apart ds

abbrev pub Connected : List DeviceInfo → Type 0
Connected [] = Unit {0}
Connected (d ∷ ds) = (d.is_logined ≡ true → (s : ℕ) × (d.sock ≡ some s)) × Connected ds

-- No device of `ds` shares its socket with one of `pre`.
abbrev Free : List DeviceInfo → List DeviceInfo → Type 0
Free pre [] = Unit {0}
Free pre (d ∷ ds) =
    ((s : ℕ) → d.sock ≡ some s → find_device (has_sock (some s)) pre ≡ none) × Free pre ds

Free-nil : (ds : List DeviceInfo) → Free [] ds
unfolding find_device
Free-nil [] = tt
Free-nil (d ∷ ds) = (λ s e. refl, Free-nil ds)

find-append_sock :
    (ds : List DeviceInfo) (q : DeviceInfo) (s : ℕ)
    → find_device (has_sock (some s)) ds ≡ none
    → same_sock q.sock (some s) ≡ false
    → find_device (has_sock (some s)) (ds ++ (q ∷ [])) ≡ none
unfolding find_device
find-append_sock [] q s e h = ground arith
find-append_sock (d ∷ ds) q s e h = ground (arith, find-append_sock ds q s)

-- The part of the list that has been walked grows by one device.
Free-next :
    (pre : List DeviceInfo) (q : DeviceInfo) (ds : List DeviceInfo)
    → Free pre ds
    → ((s : ℕ) → q.sock ≡ some s → find_device (has_sock (some s)) ds ≡ none)
    → Free (pre ++ (q ∷ [])) ds
unfolding find_device
Free-next pre q [] f h = tt
Free-next pre q (d ∷ ds) f h = (
  λ s e. find-append_sock pre q s (f.0 s e) (other s e),
  Free-next pre q ds f.1 (λ s e. ground (arith, h s e)),
)
  where
    other : (s : ℕ) → d.sock ≡ some s → same_sock q.sock (some s) ≡ false
    other s e = elim (Option-cases q.sock) [
      | inl n ↦ rw n refl
      | inr (t, k) ↦ elim (Bool-cases (t == s)) [
        | inl y ↦ absurd (ground (arith, h s, e, k))
        | inr y ↦ rw k y
      ]
    ]

modify-at :
    (pre : List DeviceInfo) (d : DeviceInfo) (post : List DeviceInfo) (f : DeviceInfo → DeviceInfo)
    (s : ℕ)
    → find_device (has_sock (some s)) pre ≡ none
    → d.sock ≡ some s
    → modify_device (has_sock (some s)) f (pre ++ (d ∷ post)) ≡ pre ++ (f d ∷ post)
unfolding modify_device find_device
modify-at [] d post f s h e = ground arith
modify-at (p ∷ pre) d post f s h e = ground (arith, modify-at pre d post f s)

find-at :
    (pre : List DeviceInfo) (d : DeviceInfo) (post : List DeviceInfo) (s : ℕ)
    → find_device (has_sock (some s)) pre ≡ none
    → d.sock ≡ some s
    → find_device (has_sock (some s)) (pre ++ (d ∷ post)) ≡ some d
unfolding find_device
find-at [] d post s h e = ground arith
find-at (p ∷ pre) d post s h e = ground (arith, find-at pre d post s)

get_elem-at :
    (pre : List DeviceInfo) (d : DeviceInfo) (post : List DeviceInfo)
    → get_elem? (pre ++ (d ∷ post)) (length pre) ≡ some d
get_elem-at [] d post = refl
get_elem-at (p ∷ pre) d post = get_elem-at pre d post

abbrev with_devices : DeviceMgr → List DeviceInfo → DeviceMgr
with_devices m ds = record m { dev_infos = ds }

set_offline-at :
    (env : Env) (m : DeviceMgr) (pre : List DeviceInfo) (d : DeviceInfo) (post : List DeviceInfo)
    (s : ℕ)
    → find_device (has_sock (some s)) pre ≡ none
    → d.sock ≡ some s
    → cbccd_device_set_offline env (with_devices m (pre ++ (d ∷ post))) d.sock true
      ≡ (with_devices m (pre ++ (set_off d ∷ post)), offline_calls env d true)
unfolding cbccd_device_set_offline cbccd_device_get_info_by_sock
set_offline-at env m pre d post s h e =
    ap (λ q. cbccd_device_set_offline env (with_devices m (pre ++ (d ∷ post))) q true) e
    ∙ rw (find-at pre d post s h e, cbccd_device_set_offline, modify-at pre d post set_off s h e)
        refl

-- The loop's work at one device.
check_device-at :
    (env : Env) (now : ℕ) (m : DeviceMgr) (pre : List DeviceInfo) (d : DeviceInfo)
    (post : List DeviceInfo)
    → ((s : ℕ) → d.sock ≡ some s → find_device (has_sock (some s)) pre ≡ none)
    → (d.is_logined ≡ true → (s : ℕ) × (d.sock ≡ some s))
    → check_device env now (with_devices m (pre ++ (d ∷ post))) d ≡ (
      with_devices m (pre ++ (expire now d ∷ post)),
      if is_silent now d then free_socket d.sock ∷ offline_calls env d true else [],
    )
check_device-at env now m pre d post f on = elim (Bool-cases (is_expired now d)) [
  | inl e ↦
      let logged : d.is_logined ≡ true = ground (arith, e) in
      let (s, k) = on logged in
      rw (e, (sym (expired-eq-silent now d) ∙ e), set_offline-at env m pre d post s (f s k) k) refl
  | inr e ↦ rw (e, (sym (expired-eq-silent now d) ∙ e)) refl
]

expire-sock : (now : ℕ) (d : DeviceInfo) (s : ℕ) → (expire now d).sock ≡ some s → d.sock ≡ some s
expire-sock now d s e = elim (Bool-cases (is_silent now d)) [
  | inl x ↦ absurd (cc (rw x at e))
  | inr x ↦ rw x at e
]

check_from-step :
    (env : Env) (now rounds i : ℕ) (m : DeviceMgr) (d : DeviceInfo)
    → get_elem? m.dev_infos i ≡ some d
    → check_from env now (suc rounds) i m ≡ (
        let r = check_device env now m d in
        let rest = check_from env now rounds (i + 1) r.0 in (rest.0, r.1 ++ rest.1))
unfolding check_from
check_from-step env now rounds i m d e = rw (e, check_from) refl

seam :
    (pre : List DeviceInfo) (q : DeviceInfo) (ds : List DeviceInfo)
    → (pre ++ (q ∷ [])) ++ ds ≡ pre ++ (q ∷ ds)
seam [] q ds = refl
seam (p ∷ pre) q ds = ap (◌∷◌ p) (seam pre q ds)

check_from-expire :
    (env : Env) (now : ℕ) (m : DeviceMgr) (pre post : List DeviceInfo)
    → Free pre post
    → Apart post
    → Connected post
    → check_from env now (length post) (length pre) (with_devices m (pre ++ post))
      ≡ (with_devices m (pre ++ map (expire now) post), expiry_calls env now post)
check_from-expire env now m pre [] f a on = unfold check_from in refl
check_from-expire env now m pre (d ∷ ds) f a on =
    let q = expire now d in
    let free : Free (pre ++ (q ∷ [])) ds =
      Free-next pre q ds f.1 (λ s e. a.0 s (expire-sock now d s e)) in
    let next = check_from-expire env now m (pre ++ (q ∷ [])) ds free a.1 on.1 in
    let long : length (pre ++ (q ∷ [])) ≡ length pre + 1 = length-append pre (q ∷ []) in
    rw
      (
        check_from-step env now (length ds) (length pre) (with_devices m (pre ++ (d ∷ ds))) d
            (get_elem-at pre d ds),
        check_device-at env now m pre d ds f.0 on.0,
        (rw (seam pre q ds, seam pre q (map (expire now) ds), long) at next),
      )
      refl

check_keepalive_status-calls :
    (env : Env) (m : DeviceMgr) (now : ℕ)
    → Apart m.dev_infos
    → Connected m.dev_infos
    → check_keepalive_status env m now
      ≡ (record m { dev_infos = map (expire now) m.dev_infos }, expiry_calls env now m.dev_infos)
unfolding check_keepalive_status
check_keepalive_status-calls env m now a on =
    check_from-expire env now m [] m.dev_infos (Free-nil m.dev_infos) a on

-- Each device's row is cached, and the JSON layer can put into it that the device is offline since
-- it was last heard of; `row` is the result for its guid.
abbrev pub AllUpdated : Env → (Text → Text) → List DeviceInfo → Type 0
AllUpdated env row [] = Unit {0}
AllUpdated env row (d ∷ ds) =
    ((previous : Text) × (cached env (codes "device_info") d.guid ≡ some previous)
      × (env.json.update previous (
            (under (codes "status") (codes "connection"), str_val (codes "OFFLINE"))
            ∷ (under (codes "status") (codes "timestamp"), int_val d.updated_tm)
            ∷ [])
          ≡ some (row d.guid)))
    × AllUpdated env row ds

-- The calls for the silent devices: the socket is freed, and the row stored.
abbrev pub expiry_updates : (Text → Text) → ℕ → List DeviceInfo → List Call
expiry_updates row now [] = []
expiry_updates row now (d ∷ ds) =
    (if is_silent now d
      then free_socket d.sock ∷ set_guid_tbl_data (codes "device_info") d.guid (row d.guid) ∷ []
      else [])
    ++ expiry_updates row now ds

expiry_calls-updates :
    (env : Env) (row : Text → Text) (now : ℕ) (ds : List DeviceInfo)
    → AllUpdated env row ds
    → expiry_calls env now ds ≡ expiry_updates row now ds
unfolding offline_calls
expiry_calls-updates env row now [] u = refl
expiry_calls-updates env row now (d ∷ ds) ((previous, e, f), u) =
    let own : offline_calls env d true
        ≡ set_guid_tbl_data (codes "device_info") d.guid (row d.guid) ∷ [] =
      rw (e, offline_calls, f) refl in
    rw (own, expiry_calls-updates env row now ds u) refl

-- Where no two devices share a socket, every device that is logged in has one, and the row of every
-- device is cached and can be updated: the check sets exactly the devices that are logged in and
-- have been silent for more than 20 seconds offline, leaves every other device as it is, and makes
-- exactly the calls for those it sets offline: the socket is freed, and the row that says that the
-- device is offline since it was last heard of is stored.
pub check_keepalive_status-expire :
    (env : Env) (m : DeviceMgr) (now : ℕ) (row : Text → Text)
    → Apart m.dev_infos
    → Connected m.dev_infos
    → AllUpdated env row m.dev_infos
    → check_keepalive_status env m now
      ≡ (record m { dev_infos = map (expire now) m.dev_infos }, expiry_updates row now m.dev_infos)
check_keepalive_status-expire env m now row a on u =
    check_keepalive_status-calls env m now a on
    ∙ ap (λ cs. (record m { dev_infos = map (expire now) m.dev_infos }, cs))
        (expiry_calls-updates env row now m.dev_infos u)
