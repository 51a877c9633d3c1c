-- ===== src/Cli/Commands.antt =====
-- cmd/ab0t-auth/commands.go and main.go: the commands can, why, grant and revoke, what they
-- ask for before they do anything, and the exit code of a run. What the service answers is a
-- parameter; printing is a Boolean, whether `emit` fails. time.Now, time.ParseDuration and time.Parse
-- are together a parameter, what parseExpiry makes of its argument.
pub mod Exits
pub mod Grants
pub mod Tests
use auth_sdk_go.Base.{
  ℕ, Bool, true, false, ◌⊎◌, inl, inr, List, [], ◌∷◌, Option, none, some, if◌then◌else◌,
}
use auth_sdk_go.Base.Text.{Bytes, is_empty}
use auth_sdk_go.Errors.{Err}
use auth_sdk_go.Relations.{CheckRequest, CheckResponse, Failure, Tuple, WriteResponse}
use auth_sdk_go.Relations.Checks.{zanzibar_check}
use auth_sdk_go.Relations.Writes.{relate_id, relate_until, unrelate_id}

-- What a command returns besides nil: bad usage, no credential, a denial, an error of the client, or
-- an error of the output. An error that wraps errNoCredential counts as no credential.
pub data CommandError : Type 0 where
  bad_usage no_credential denied output_failed : CommandError
  failed : Failure → CommandError

-- The switch at the end of `run`.
unfoldable pub exit_code : Option CommandError → ℕ
exit_code none = 0
exit_code (some denied) = 2
exit_code (some no_credential) = 3
exit_code (some bad_usage) = 1
exit_code (some output_failed) = 1
exit_code (some (failed e)) = 1

-- What a command of a store is given: the flags of storeOpts, the credential, and the output.
pub record Env : Type 0 where
  pub store : Bytes
  pub credential : Bytes
  pub dry_run : Bool
  pub expires : Bytes
  pub output_fails : Bool

-- `emit`, and then what the command returns.
abbrev pub emit : Env → Option CommandError → Option CommandError
emit e after = if e.output_fails then some output_failed else after

-- needStore, needArgs for three arguments, and the credential, in this order; then the command.
unfoldable pub ready :
    {A : Type 0} → (CommandError → A) → Env → List Bytes → (Bytes → Bytes → Bytes → A) → A
ready refuse e (s ∷ p ∷ o ∷ rest) run =
    if is_empty e.store
    then refuse bad_usage
    else if is_empty e.credential
    then refuse no_credential
    else run s p o
ready refuse e [] run = refuse bad_usage
ready refuse e (s ∷ []) run = refuse bad_usage
ready refuse e (s ∷ p ∷ []) run = refuse bad_usage

module _ (check : CheckRequest → CheckResponse ⊎ Err) where
  unfoldable pub cmd_can : Env → List Bytes → Option CommandError
  unfolding ready zanzibar_check
  cmd_can e args = ready some e args (λ s p o.
      elim (zanzibar_check check (record { subject = s; permission = p; object = o })) [
        | inr failure ↦ some (failed failure)
        | inl res ↦ emit e (if res.allowed then none else some denied)
      ])

  unfoldable pub cmd_why : Env → List Bytes → Option CommandError
  unfolding ready zanzibar_check
  cmd_why e args = ready some e args (λ s p o.
      elim (zanzibar_check check (record { subject = s; permission = p; object = o })) [
        | inr failure ↦ some (failed failure)
        | inl res ↦ emit e none
      ])

-- What a write by the client leaves, as a command.
abbrev pub after_write : {S : Type 0} → Env → S × Option Failure → S × Option CommandError
after_write e (s, none) = (s, emit e none)
after_write e (s, some failure) = (s, some (failed failure))

module _ {S : Type 0} (parse_expiry : Bytes → Option ℕ)
    (write : Tuple → (expires_at : Option ℕ) → S → S × (WriteResponse ⊎ Err))
    (delete : Tuple → S → S × (WriteResponse ⊎ Err)) where
  -- RelateID and RelateUntil over the state of the service.
  unfoldable pub relate_in : (subject relation object : Bytes) → S → S × Option Failure
  unfolding relate_id
  relate_in s p o st =
      let (st', reply) = write (record { object = o; relation = p; subject = s }) none st in
      (st', relate_id (λ t expires. reply) s p o)

  unfoldable pub relate_until_in :
      (subject relation object : Bytes) (expires : ℕ) → S → S × Option Failure
  unfolding relate_until
  relate_until_in s p o expires st =
      let (st', reply) =
        write (record { object = o; relation = p; subject = s }) (some expires) st in
      (st', relate_until (λ t expires'. reply) s p o expires)

  unfoldable pub relate_command : (grant : Bool) → Env → List Bytes → S → S × Option CommandError
  unfolding ready relate_in relate_until_in unrelate_id
  relate_command grant e args st =
      ready (λ err. (st, some err)) e args
        (λ s p o.
          if e.dry_run
          then (st, emit e none)
          else if grant
          then if is_empty e.expires
            then after_write e (relate_in s p o st)
            else elim (parse_expiry e.expires) [
              | none ↦ (st, some bad_usage)
              | some t ↦ after_write e (relate_until_in s p o t st)
            ]
          else after_write e (unrelate_id delete s p o st))

  unfoldable pub cmd_grant : Env → List Bytes → S → S × Option CommandError
  unfolding relate_command
  cmd_grant = relate_command true

  unfoldable pub cmd_revoke : Env → List Bytes → S → S × Option CommandError
  unfolding relate_command
  cmd_revoke = relate_command false
