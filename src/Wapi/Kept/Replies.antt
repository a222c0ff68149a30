-- ===== src/Wapi/Kept/Replies.antt =====
-- Answers of the configuration and of administration, as replies.
use chroot_cbccd.Base.{◌>>=◌, Option, some, Text, Ensures, bind-Ensures, Ensures-some}
use chroot_cbccd.Device.{RespCode}
use chroot_cbccd.Device.Pool.{IsValid}
use chroot_cbccd.Config.Manage.{Answer}
use chroot_cbccd.Config.Answers.{AnswerKeeps}
use chroot_cbccd.Admin.{World}
use chroot_cbccd.Admin.Devices.{AnswerValid}
use chroot_cbccd.Wapi.{WapiEnv, Daemon, Reply, with_text, answered, of_admin}
use chroot_cbccd.Wapi.Kept.{Sound, answered-Sound, of_admin-Sound, with_text-Sound}

module _ {S : Type 0} (env : WapiEnv S) (d : Daemon S) (v : IsValid d.world.devs) where
  abbrev pub Good : Option (Reply S) → Type 0
  Good r = Ensures (Sound d) r

  -- An answer of the configuration, as it is.
  abbrev pub pass : Answer → Option (Reply S)
  pass a = some (answered env d a)

  pub answer-Sound : (a : Option Answer) → Ensures (AnswerKeeps d.conf) a → Good (a >>= pass)
  answer-Sound a h =
      bind-Ensures (Sound d) a pass
        (λ b e. answered-Sound env d v b (Ensures-some (AnswerKeeps d.conf) a b h e))

  abbrev pub pass_admin : RespCode × World S → Option (Reply S)
  pass_admin r = some (of_admin env d r)

  pub admin-Sound :
      (r : Option (RespCode × World S)) → Ensures AnswerValid r → Good (r >>= pass_admin)
  admin-Sound r h =
      bind-Ensures (Sound d) r pass_admin
        (λ s e. of_admin-Sound env d v s (Ensures-some AnswerValid r s h e))

  -- The same, with a text in the response.
  abbrev pub texted : Text → Text → Reply S → Option (Reply S)
  texted key t r = with_text env.admin.lib key t r

  pub answer_text-Sound :
      (key t : Text) (a : Option Answer)
      → Ensures (AnswerKeeps d.conf) a
      → Good (a >>= λ b. texted key t (answered env d b))
  answer_text-Sound key t a h =
      bind-Ensures (Sound d) a (λ b. texted key t (answered env d b))
        (λ b e.
          with_text-Sound env d v key t (answered env d b)
            (answered-Sound env d v b (Ensures-some (AnswerKeeps d.conf) a b h e)))

  pub admin_text-Sound :
      (key t : Text) (r : Option (RespCode × World S))
      → Ensures AnswerValid r
      → Good (r >>= λ s. texted key t (of_admin env d s))
  admin_text-Sound key t r h =
      bind-Ensures (Sound d) r (λ s. texted key t (of_admin env d s))
        (λ s e.
          with_text-Sound env d v key t (of_admin env d s)
            (of_admin-Sound env d v s (Ensures-some AnswerValid r s h e)))
