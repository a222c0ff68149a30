-- ===== src/Device/Keepalive.antt =====
-- Who is still there: cbccd_device_update_status, cbccd_device_set_offline and
-- check_keepalive_status.
use chroot_cbccd.Base.{
  ℕ, zero, suc, ◌+◌, Bool, true, false, ◌&&◌, Option, none, some, List, [], ◌∷◌, ◌++◌, length,
  get_elem?, ltb, if◌then◌else◌, codes,
}
use chroot_cbccd.Device.{
  offline, DeviceInfo, DeviceMgr, Call, set_guid_tbl_data, free_socket, modify_device, has_sock,
  cbccd_device_get_info_by_sock,
}
use chroot_cbccd.Device.Json.{Env, str_val, int_val, cached}
use chroot_cbccd.Device.Login.{under}

abbrev pub modify_sock : DeviceMgr → Option ℕ → (DeviceInfo → DeviceInfo) → DeviceMgr
modify_sock m sock f = record m { dev_infos = modify_device (has_sock sock) f m.dev_infos }

unfoldable pub cbccd_device_update_status : Env → DeviceMgr → Option ℕ → DeviceMgr
cbccd_device_update_status env m sock = elim (cbccd_device_get_info_by_sock m sock) [
  | none ↦ m
  | some d ↦ modify_sock m sock (λ p. record p { updated_tm = env.now })
]

-- The device once its connection is gone.
abbrev pub set_off : DeviceInfo → DeviceInfo
set_off d = record d { sock = none; conn_status = offline; is_logined = false }

unfoldable pub offline_calls : Env → DeviceInfo → Bool → List Call
offline_calls env d expired = elim (cached env (codes "device_info") d.guid) [
  | none ↦ []
  | some previous ↦
      elim (env.json.update previous (
        (under (codes "status") (codes "connection"), str_val (codes "OFFLINE"))
        ∷ (
          under (codes "status") (codes "timestamp"),
          int_val (if expired then d.updated_tm else env.now),
        )
        ∷ [])) [
          | none ↦ []
          | some updated ↦ set_guid_tbl_data (codes "device_info") d.guid updated ∷ []
        ]
]

unfoldable pub cbccd_device_set_offline : Env → DeviceMgr → Option ℕ → Bool → DeviceMgr × List Call
cbccd_device_set_offline env m sock expired = elim (cbccd_device_get_info_by_sock m sock) [
  | none ↦ (m, [])
  | some d ↦ (modify_sock m sock set_off, offline_calls env d expired)
]

-- CBCC_KEEPALIVE_INTERVAL + 5 seconds without a sign of life.
abbrev max_silence : ℕ
max_silence = 15 + 5

abbrev pub is_expired : ℕ → DeviceInfo → Bool
is_expired now d = d.is_logined && ltb (d.updated_tm + max_silence) now

-- What the loop does at one device. The socket is freed before the device is set offline by it.
abbrev pub check_device : Env → ℕ → DeviceMgr → DeviceInfo → DeviceMgr × List Call
check_device env now m d =
    if is_expired now d
    then (let r = cbccd_device_set_offline env m d.sock true in (r.0, free_socket d.sock ∷ r.1))
    else (m, [])

-- The loop at device `i`, with the number of devices left. It walks the list that it changes.
unfoldable pub check_from : Env → ℕ → ℕ → ℕ → DeviceMgr → DeviceMgr × List Call
check_from env now zero i m = (m, [])
check_from env now (suc rounds) i m = elim (get_elem? m.dev_infos i) [
  | none ↦ (m, [])
  | some d ↦
      let r = check_device env now m d in
      let rest = check_from env now rounds (i + 1) r.0 in (rest.0, r.1 ++ rest.1)
]

unfoldable pub check_keepalive_status : Env → DeviceMgr → ℕ → DeviceMgr × List Call
check_keepalive_status env m curr_tm = check_from env curr_tm (length m.dev_infos) 0 m
