-- ===== src/Commands/Codes.antt =====
-- Command names and command codes determine each other.
use chroot_cbccd.Base.{
  ◌≡◌, ◌≢◌, refl, sym, List, [], ◌∷◌, inl, inr, Bool-cases, Text, codes, str_eq, str_eq→eq,
}
use chroot_cbccd.Commands.{
  CmdCode, login, monitor, deploy_obj, create_backup, restore_backup, action, report, agent_disable,
  check_config, keepalive, cmd_unknown, cbcc_cmd_names, code_from, cbccd_get_cmd_code,
}

-- The name that the protocol gives to a code; none for an unknown command.
abbrev cmd_name : CmdCode → Text
cmd_name login = codes "device.login"
cmd_name monitor = codes "device.monitor"
cmd_name deploy_obj = codes "device.deploy.object"
cmd_name create_backup = codes "device.create.backup"
cmd_name restore_backup = codes "device.restore.backup"
cmd_name action = codes "device.action"
cmd_name report = codes "device.report"
cmd_name agent_disable = codes "device.agent.disable"
cmd_name check_config = codes "device.config.check"
cmd_name keepalive = codes "device.keepalive"
cmd_name cmd_unknown = []

code-name : (c : CmdCode) → cbccd_get_cmd_code (cmd_name c) ≡ c
unfolding cbccd_get_cmd_code code_from cbcc_cmd_names str_eq
code-name login = refl
code-name monitor = refl
code-name deploy_obj = refl
code-name create_backup = refl
code-name restore_backup = refl
code-name action = refl
code-name report = refl
code-name agent_disable = refl
code-name check_config = refl
code-name keepalive = refl
code-name cmd_unknown = refl

-- Every entry of a list of names carries the code of its name.
abbrev Named : List (Text × CmdCode) → Type 0
Named [] = Unit {0}
Named ((n, c) ∷ names) = (n ≡ cmd_name c) × Named names

code_from-Named :
    (names : List (Text × CmdCode)) (name : Text) (c : CmdCode)
    → Named names
    → code_from names name ≡ c
    → c ≢ cmd_unknown
    → name ≡ cmd_name c
unfolding code_from
code_from-Named [] name c v e h = absurd (h (sym e))
code_from-Named ((n, d) ∷ names) name c v e h = elim (Bool-cases (str_eq name n)) [
  | inl y ↦ let same : d ≡ c = rw y at e in rw (str_eq→eq name n y, v.0, same) refl
  | inr y ↦ code_from-Named names name c v.1 (rw y at e) h
]

-- Each code's name has that code, and a name that has a known code is the name of that code.
pub cmd_code-name :
    (name : Text) (c : CmdCode)
    → (cbccd_get_cmd_code (cmd_name c) ≡ c)
      × (cbccd_get_cmd_code name ≡ c → c ≢ cmd_unknown → name ≡ cmd_name c)
unfolding cbccd_get_cmd_code
cmd_code-name name c = (
  code-name c,
  λ e h.
      code_from-Named cbcc_cmd_names name c
        (unfold cbcc_cmd_names in
          (refl, (refl, (refl, (refl, (refl, (refl, (refl, (refl, (refl, (refl, tt)))))))))))
        e h,
)
