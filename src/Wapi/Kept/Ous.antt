-- ===== src/Wapi/Kept/Ous.antt =====
-- Requests on organisational units.
use chroot_cbccd.Base.{some, codes, bind-Ensures, Ensures-some}
use chroot_cbccd.Device.{ok}
use chroot_cbccd.Device.Pool.{IsValid}
use chroot_cbccd.Config.Answers.{
  AnswerKeeps, create_ou-Keeps, edit_ou-Keeps, delete_ou-Keeps, set_default_ou-Keeps,
}
use chroot_cbccd.Wapi.{WapiEnv, Daemon, WapiRequest, config_env, answered}
use chroot_cbccd.Wapi.Ous.{
  process_wapi_create_ou_req, process_wapi_edit_ou_req, process_wapi_delete_ou_req,
  process_wapi_set_default_ou_req,
}
use chroot_cbccd.Wapi.Kept.{Sound, called-IsValid, with_data-Sound}
use chroot_cbccd.Wapi.Kept.Replies.{Good, answer-Sound, answer_text-Sound}

module _ {S : Type 0} (env : WapiEnv S) (d : Daemon S) (v : IsValid d.world.devs) where
  pub create_ou_req-Sound :
      (req : WapiRequest) → Good env d v (process_wapi_create_ou_req env d req)
  unfolding process_wapi_create_ou_req
  create_ou_req-Sound req = with_data-Sound env d v req.content _ _ λ is.
      answer_text-Sound env d v (codes "guid") _ _
        (create_ou-Keeps (config_env env d) d.conf d.world.devs v _ _ _ _)

  pub edit_ou_req-Sound : (req : WapiRequest) → Good env d v (process_wapi_edit_ou_req env d req)
  unfolding process_wapi_edit_ou_req
  edit_ou_req-Sound req =
      with_data-Sound env d v req.content _ _ λ is.
        answer-Sound env d v _ (edit_ou-Keeps (config_env env d) d.conf d.world.devs v _ _ _ _)

  pub set_default_ou_req-Sound :
      (req : WapiRequest) → Good env d v (process_wapi_set_default_ou_req env d req)
  unfolding process_wapi_set_default_ou_req
  set_default_ou_req-Sound req =
      with_data-Sound env d v req.content _ _ λ is.
        answer-Sound env d v _ (set_default_ou-Keeps (config_env env d) d.conf d.world.devs v _)

  pub delete_ou_req-Sound :
      (req : WapiRequest) → Good env d v (process_wapi_delete_ou_req env d req)
  unfolding process_wapi_delete_ou_req
  delete_ou_req-Sound req = with_data-Sound env d v req.content _ _ λ is.
      bind-Ensures (Sound d) _ (λ a. some (record (answered env d a) { code = ok }))
        λ a e. (
          called-IsValid env d v a.mgr a.devs a.calls
              (Ensures-some (AnswerKeeps d.conf) _ a
                (delete_ou-Keeps (config_env env d) d.conf d.world.devs v _) e).0,
          λ x. absurd (cc (x)),
        )
