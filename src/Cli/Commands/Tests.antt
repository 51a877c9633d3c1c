-- ===== src/Cli/Commands/Tests.antt =====
-- Commands at concrete lines, and the theorems on them there.
use auth_sdk_go.Base.{
  ℕ, ◌≡◌, ◌↔◌, ◌≤◌, ◌+◌, refl, true, false, ◌⊎◌, inl, inr, List, [], ◌∷◌, Option, none, length,
}
use auth_sdk_go.Base.Text.{Bytes, bytes, same, is_empty}
use auth_sdk_go.Errors.{Err, api}
use auth_sdk_go.Relations.{CheckRequest, CheckResponse, Tuple, WriteResponse}
use auth_sdk_go.Cli.Commands.{Env, exit_code, cmd_can, cmd_why, cmd_grant, cmd_revoke}
use auth_sdk_go.Cli.Commands.Exits.{Answered, cmd_can-exit}
use auth_sdk_go.Cli.Commands.Grants.{Granted, cmd_grant-Granted}

abbrev env : Env
env = record {
  store = bytes "s";
  credential = bytes "t";
  dry_run = false;
  expires = [];
  output_fails = false;
}

-- The service allows to view, and nothing else.
abbrev views : CheckRequest → CheckResponse ⊎ Err
views r = inl (record { allowed = same r.permission (bytes "view"); reason = []; path = [] })

abbrev line : Bytes → List Bytes
line permission = bytes "user:a" ∷ permission ∷ bytes "doc:1" ∷ []

can_view : exit_code (cmd_can views env (line (bytes "view"))) ≡ 0
unfolding exit_code cmd_can same
can_view = refl

cannot_edit : exit_code (cmd_can views env (line (bytes "edit"))) ≡ 2
unfolding exit_code cmd_can same
cannot_edit = refl

why_edit : exit_code (cmd_why views env (line (bytes "edit"))) ≡ 0
unfolding exit_code cmd_why same
why_edit = refl

abbrev unauthorized : Err
unauthorized = api (record {
  status_code = 401;
  method = bytes "POST";
  endpoint = [];
  code = [];
  sub_error = [];
  message = [];
  request_id = [];
  body = [];
})

-- A credential that the service rejects.
rejected : exit_code (cmd_can (λ r. inr unauthorized) env (line (bytes "view"))) ≡ 1
unfolding exit_code cmd_can
rejected = refl

abbrev accepts : Tuple → Option ℕ → ℕ → ℕ × (WriteResponse ⊎ Err)
accepts t expires n = (n + 1, inl (record { success = true; message = [] }))

abbrev deletes : Tuple → ℕ → ℕ × (WriteResponse ⊎ Err)
deletes t n = (n + 1, inl (record { success = true; message = [] }))

revoke_sends : (cmd_revoke (λ s. none) accepts deletes env (line (bytes "view")) 0).0 ≡ 1
unfolding cmd_revoke
revoke_sends = refl

cmd_can-exit_example :
    ((exit_code (cmd_can views env (line (bytes "view"))) ≡ 0)
      ↔ Answered views env (line (bytes "view")) true)
    × ((exit_code (cmd_can views env (line (bytes "view"))) ≡ 2)
        ↔ Answered views env (line (bytes "view")) false)
    × ((exit_code (cmd_can views env (line (bytes "view"))) ≡ 3) ↔ (
        (is_empty env.store ≡ false)
        × (3 ≤ length (line (bytes "view")))
        × (is_empty env.credential ≡ true)))
cmd_can-exit_example = cmd_can-exit views env (line (bytes "view"))

cmd_grant-Granted_example :
    ((env.dry_run ≡ true) × (◌≡◌ {A = ℕ} 1 0))
    ⊎ Granted (λ s. none) accepts deletes env (line (bytes "view")) 0 1
unfolding cmd_grant
cmd_grant-Granted_example =
    cmd_grant-Granted (λ s. none) accepts deletes env (line (bytes "view")) 0 1 refl
