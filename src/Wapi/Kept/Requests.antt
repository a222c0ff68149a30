-- ===== src/Wapi/Kept/Requests.antt =====
-- Every request, whatever its action.
use chroot_cbccd.Base.{
  List, ◌>>=◌, inl, inr, Option-cases, ◌≡◌, refl, true, false, Option, none, some, Text, Ensures,
  split-Ensures, Ensures-some,
}
use chroot_cbccd.Json.Parse.{Item, cbcc_json_parse_from_buffer}
use chroot_cbccd.Device.{is_ok}
use chroot_cbccd.Device.Pool.{IsValid}
use chroot_cbccd.Wapi.{WapiEnv, Daemon, WapiRequest, Reply}
use chroot_cbccd.Wapi.ActType.{
  ActType, add_act, delete_act, edit_act, get_act, list_act, reboot_act, shutdown_act, prefetch_act,
  firmware_act, pattern_act, create_backup_act, delete_backup_act, restore_backup_act, add_obj_act,
  delete_obj_act, edit_obj_act, get_cache_act, get_cache_rev_act, create_ou_act, edit_ou_act,
  delete_ou_act, set_default_ou_act, delete_dev_act, deny_dev_act, allow_dev_act, get_web_cred_act,
  unknown_type, get_wapi_act_type,
}
use chroot_cbccd.Wapi.Dispatch.{
  send_wapi_response, process_act, process_request, process_parsed, process_buffer, req_requests,
  wapi_request, cbccd_process_wapi_request,
}
use chroot_cbccd.Wapi.Kept.{Sound}
use chroot_cbccd.Wapi.Kept.Replies.{Good}
use chroot_cbccd.Wapi.Kept.ReadOnly.{Unchanged, reads_only, process_act-Unchanged}
use chroot_cbccd.Wapi.Kept.Tables.{add_req-Sound, delete_req-Sound, edit_req-Sound}
use chroot_cbccd.Wapi.Kept.Agents.{
  sysact_req-Sound, create_backup_req-Sound, restore_backup_req-Sound, delete_backup_req-Sound,
  disable_dev_req-Sound, allow_dev_req-Sound,
}
use chroot_cbccd.Wapi.Kept.Ous.{
  create_ou_req-Sound, edit_ou_req-Sound, delete_ou_req-Sound, set_default_ou_req-Sound,
}

module _ {S : Type 0} (env : WapiEnv S) (d : Daemon S) (v : IsValid d.world.devs) where
  -- A reply that leaves the daemon as it is.
  read-Sound :
      (a : ActType) (req : WapiRequest)
      → reads_only a ≡ true
      → Good env d v (process_act env d a req)
  read-Sound a req e = Ensures-map (process_act env d a req) (process_act-Unchanged env d a req e)
    where
      Ensures-map : (m : Option (Reply S)) → Ensures (Unchanged d) m → Ensures (Sound d) m
      Ensures-map none h = tt
      Ensures-map (some r) h = rw h (v, λ x. refl)

  process_act-Sound : (a : ActType) (req : WapiRequest) → Good env d v (process_act env d a req)
  unfolding process_act
  process_act-Sound add_act req = add_req-Sound env d v false req
  process_act-Sound delete_act req = delete_req-Sound env d v false req
  process_act-Sound edit_act req = edit_req-Sound env d v false req
  process_act-Sound get_act req = read-Sound get_act req refl
  process_act-Sound list_act req = read-Sound list_act req refl
  process_act-Sound reboot_act req = sysact_req-Sound env d v req
  process_act-Sound shutdown_act req = sysact_req-Sound env d v req
  process_act-Sound prefetch_act req = sysact_req-Sound env d v req
  process_act-Sound firmware_act req = sysact_req-Sound env d v req
  process_act-Sound pattern_act req = sysact_req-Sound env d v req
  process_act-Sound create_backup_act req = create_backup_req-Sound env d v req
  process_act-Sound delete_backup_act req = delete_backup_req-Sound env d v req
  process_act-Sound restore_backup_act req = restore_backup_req-Sound env d v req
  process_act-Sound add_obj_act req = add_req-Sound env d v true req
  process_act-Sound delete_obj_act req = delete_req-Sound env d v true req
  process_act-Sound edit_obj_act req = edit_req-Sound env d v true req
  process_act-Sound get_cache_act req = read-Sound get_cache_act req refl
  process_act-Sound get_cache_rev_act req = read-Sound get_cache_rev_act req refl
  process_act-Sound create_ou_act req = create_ou_req-Sound env d v req
  process_act-Sound edit_ou_act req = edit_ou_req-Sound env d v req
  process_act-Sound delete_ou_act req = delete_ou_req-Sound env d v req
  process_act-Sound set_default_ou_act req = set_default_ou_req-Sound env d v req
  process_act-Sound delete_dev_act req = disable_dev_req-Sound env d v false req
  process_act-Sound deny_dev_act req = disable_dev_req-Sound env d v true req
  process_act-Sound allow_dev_act req = allow_dev_req-Sound env d v req
  process_act-Sound get_web_cred_act req = read-Sound get_web_cred_act req refl
  process_act-Sound unknown_type req = read-Sound unknown_type req refl

  process_buffer-Sound : (buf : Text) → Good env d v (process_buffer env d buf)
  unfolding process_buffer process_request
  process_buffer-Sound buf =
      split-Ensures (Sound d) (cbcc_json_parse_from_buffer env.admin.lib buf req_requests)
        (process_parsed env d) (v, λ e. refl) (λ is. process_act-Sound _ _)

only_read :
    {S : Type 0} (env : WapiEnv S) (d : Daemon S) (buf : Text) (r : Reply S)
    (is : List (Option Item))
    → cbcc_json_parse_from_buffer env.admin.lib buf req_requests ≡ some (some is)
    → process_buffer env d buf ≡ some r
    → reads_only (get_wapi_act_type (wapi_request is).action) ≡ true
    → r.daemon ≡ d
unfolding process_buffer process_request
only_read env d buf r is p n only =
    let handled : process_act env d (get_wapi_act_type (wapi_request is).action) (wapi_request is)
        ≡ some r =
      rw p at n in
    Ensures-some (Unchanged d) _ r (process_act-Unchanged env d _ (wapi_request is) only) handled

-- A request of any action, or of none, on a daemon whose list of devices is valid, wherever it is
-- defined: the response has the code and the data of what handled it, the list of devices is valid
-- afterwards, if the code is not OK all OUs and objects are as they were, and if the action is one
-- that only reads, or unknown, so is the whole daemon.
pub process_wapi_request-Sound :
    {S : Type 0} (env : WapiEnv S) (d after : Daemon S) (wapi_buf resp : Text)
    → IsValid d.world.devs
    → cbccd_process_wapi_request env d wapi_buf ≡ some (resp, after)
    → (r : Reply S) × (process_buffer env d wapi_buf ≡ some r)
      × (send_wapi_response env.admin.lib r.code r.resp_data ≡ some resp)
      × (after ≡ r.daemon)
      × IsValid after.world.devs
      × (is_ok r.code ≡ false → after.conf ≡ d.conf)
      × ((is : List (Option Item))
          → cbcc_json_parse_from_buffer env.admin.lib wapi_buf req_requests ≡ some (some is)
          → reads_only (get_wapi_act_type (wapi_request is).action) ≡ true
          → after ≡ d)
unfolding cbccd_process_wapi_request
process_wapi_request-Sound env d after wapi_buf resp v e =
    elim (Option-cases (process_buffer env d wapi_buf)) [
      | inl n ↦ absurd (cc (rw n at e))
      | inr (r, n) ↦
          let sent : (send_wapi_response env.admin.lib r.code r.resp_data >>= λ t.
          some (t, r.daemon))
              ≡ some (resp, after) =
            rw n at e in
          elim (Option-cases (send_wapi_response env.admin.lib r.code r.resp_data)) [
            | inl m ↦ absurd (cc (rw m at sent))
            | inr (t, m) ↦
                let pair : some (t, r.daemon) ≡ some (resp, after) = rw m at sent in
                let text : t ≡ resp = cc (pair) in
                let same : after ≡ r.daemon = cc (pair) in
                let sound = Ensures-some (Sound d) _ r (process_buffer-Sound env d v wapi_buf) n in
                (
                  r,
                  n,
                  rw (← text) m,
                  same,
                  rw same sound.0,
                  rw same sound.1,
                  λ is p only. rw same (only_read env d wapi_buf r is p n only),
                )
          ]
    ]
