-- ===== src/Cli/Commands/Exits.antt =====
-- The exit codes of `can`, and what a dry run sends.
use auth_sdk_go.Base.{
  ℕ, ◌≡◌, ◌↔◌, ◌≤◌, refl, ap, Bool, true, false, ◌⊎◌, inl, inr, List, [], ◌∷◌, Option, none, some,
  arith, Bool-cases, Option-cases, length, if◌then◌else◌,
}
use auth_sdk_go.Base.Text.{Bytes, is_empty}
use auth_sdk_go.Errors.{Err}
use auth_sdk_go.Relations.{
  CheckRequest, CheckResponse, Failure, check_typed_ids, Tuple, WriteResponse,
}
use auth_sdk_go.Relations.Checks.{zanzibar_check, served}
use auth_sdk_go.Cli.Commands.{
  CommandError, bad_usage, no_credential, denied, output_failed, failed, exit_code, Env, ready,
  cmd_can, relate_command,
}

-- The command has a store, three arguments and a credential, of which the ids are typed, the service
-- answers with that decision, and the output does not fail.
pub record Answered (check : CheckRequest → CheckResponse ⊎ Err) (e : Env) (args : List Bytes)
    (allowed : Bool) : Type 0 where
  pub request : CheckRequest
  pub rest : List Bytes
  pub res : CheckResponse
  pub line : args ≡ request.subject ∷ request.permission ∷ request.object ∷ rest
  pub has_store : is_empty e.store ≡ false
  pub has_credential : is_empty e.credential ≡ false
  pub typed : check_typed_ids request ≡ none
  pub reply : check request ≡ inl res
  pub decision : res.allowed ≡ allowed
  pub printed : e.output_fails ≡ false

module _ (check : CheckRequest → CheckResponse ⊎ Err) (e : Env) where
  abbrev asked : Bytes → Bytes → Bytes → CheckRequest
  asked s p o = record { subject = s; permission = p; object = o }

  -- What `can` meets with three arguments.
  data View (s p o : Bytes) : Type 0 where
    no_store : is_empty e.store ≡ true → View s p o
    nobody : is_empty e.store ≡ false → is_empty e.credential ≡ true → View s p o
    untyped :
        is_empty e.store ≡ false
        → is_empty e.credential ≡ false
        → (f : Failure) → check_typed_ids (asked s p o) ≡ some f
        → View s p o
    error :
        is_empty e.store ≡ false
        → is_empty e.credential ≡ false
        → check_typed_ids (asked s p o) ≡ none
        → (err : Err) → check (asked s p o) ≡ inr err
        → View s p o
    said :
        is_empty e.store ≡ false
        → is_empty e.credential ≡ false
        → check_typed_ids (asked s p o) ≡ none
        → (res : CheckResponse) → check (asked s p o) ≡ inl res
        → View s p o

  reply-cases :
      (r : CheckResponse ⊎ Err)
      → ((res : CheckResponse) × (r ≡ inl res)) ⊎ ((err : Err) × (r ≡ inr err))
  reply-cases (inl res) = inl (res, refl)
  reply-cases (inr err) = inr (err, refl)

  view : (s p o : Bytes) → View s p o
  view s p o = elim (Bool-cases (is_empty e.store)) [
    | inl a ↦ no_store a
    | inr a ↦ elim (Bool-cases (is_empty e.credential)) [
      | inl b ↦ nobody a b
      | inr b ↦ elim (Option-cases (check_typed_ids (asked s p o))) [
        | inr (f, c) ↦ untyped a b f c
        | inl c ↦ elim (reply-cases (check (asked s p o))) [
          | inl (res, d) ↦ said a b c res d
          | inr (err, d) ↦ error a b c err d
        ]
      ]
    ]
  ]

  Answered-exit :
      (allowed : Bool) {args : List Bytes}
      → Answered check e args allowed
      → cmd_can check e args ≡ (if allowed then none else some denied)
  unfolding cmd_can ready zanzibar_check served
  Answered-exit true a =
      rw a.line
        (ground (arith, a.has_store, a.has_credential, a.typed, a.reply, a.decision, a.printed))
  Answered-exit false a =
      rw a.line
        (ground (arith, a.has_store, a.has_credential, a.typed, a.reply, a.decision, a.printed))

  exit-Answered :
      (args : List Bytes) (allowed : Bool)
      → cmd_can check e args ≡ (if allowed then none else some denied)
      → Answered check e args allowed
  unfolding cmd_can ready zanzibar_check served
  exit-Answered [] allowed h = absurd (ground arith)
  exit-Answered (s ∷ []) allowed h = absurd (ground arith)
  exit-Answered (s ∷ p ∷ []) allowed h = absurd (ground arith)
  exit-Answered (s ∷ p ∷ o ∷ rest) allowed h = elim (view s p o) [
    | no_store a ↦ absurd (ground (arith, a))
    | nobody a b ↦ absurd (ground (arith, a, b))
    | untyped a b f c ↦ absurd (ground (arith, a, b, c))
    | error a b c err d ↦ absurd (ground (arith, a, b, c, d))
    | said a b c res d ↦ record {
      request = asked s p o;
      rest = rest;
      res = res;
      line = refl;
      has_store = a;
      has_credential = b;
      typed = c;
      reply = d;
      decision = ground (arith, a, b, c, d);
      printed = ground (arith, a, b, c, d);
    }
  ]

  no_credential_exit :
      (args : List Bytes)
      → (is_empty e.store ≡ false) × (3 ≤ length args) × (is_empty e.credential ≡ true)
      → cmd_can check e args ≡ some no_credential
  unfolding cmd_can ready
  no_credential_exit [] h = absurd (omega arith)
  no_credential_exit (s ∷ []) h = absurd (omega arith)
  no_credential_exit (s ∷ p ∷ []) h = absurd (omega arith)
  no_credential_exit (s ∷ p ∷ o ∷ rest) h = ground (arith, h.0, h.2)

  exit_no_credential :
      (args : List Bytes)
      → cmd_can check e args ≡ some no_credential
      → (is_empty e.store ≡ false) × (3 ≤ length args) × (is_empty e.credential ≡ true)
  unfolding cmd_can ready zanzibar_check served
  exit_no_credential [] h = absurd (ground arith)
  exit_no_credential (s ∷ []) h = absurd (ground arith)
  exit_no_credential (s ∷ p ∷ []) h = absurd (ground arith)
  exit_no_credential (s ∷ p ∷ o ∷ rest) h = elim (view s p o) [
    | no_store a ↦ absurd (ground (arith, a))
    | nobody a b ↦ (a, omega arith, b)
    | untyped a b f c ↦ absurd (ground (arith, a, b, c))
    | error a b c err d ↦ absurd (ground (arith, a, b, c, d))
    | said a b c res d ↦ absurd (ground (arith, a, b, c, d))
  ]

exit_zero : (x : Option CommandError) → exit_code x ≡ 0 → x ≡ none
unfolding exit_code
exit_zero none h = refl
exit_zero (some bad_usage) h = absurd (omega arith)
exit_zero (some no_credential) h = absurd (omega arith)
exit_zero (some denied) h = absurd (omega arith)
exit_zero (some output_failed) h = absurd (omega arith)
exit_zero (some (failed f)) h = absurd (omega arith)

exit_two : (x : Option CommandError) → exit_code x ≡ 2 → x ≡ some denied
unfolding exit_code
exit_two none h = absurd (omega arith)
exit_two (some bad_usage) h = absurd (omega arith)
exit_two (some no_credential) h = absurd (omega arith)
exit_two (some denied) h = refl
exit_two (some output_failed) h = absurd (omega arith)
exit_two (some (failed f)) h = absurd (omega arith)

exit_three : (x : Option CommandError) → exit_code x ≡ 3 → x ≡ some no_credential
unfolding exit_code
exit_three none h = absurd (omega arith)
exit_three (some bad_usage) h = absurd (omega arith)
exit_three (some no_credential) h = refl
exit_three (some denied) h = absurd (omega arith)
exit_three (some output_failed) h = absurd (omega arith)
exit_three (some (failed f)) h = absurd (omega arith)

-- `can` exits with 0 exactly if it has a store, three arguments and a credential, both ids are
-- typed, the service answers that the check is allowed, and the output does not fail; with 2 exactly
-- if all this is so but for the answer, which is that the check is not allowed; and with 3 exactly
-- if it has a store and three arguments and no credential, so never for a credential that the
-- service rejects.
pub cmd_can-exit :
    (check : CheckRequest → CheckResponse ⊎ Err) (e : Env) (args : List Bytes)
    → ((exit_code (cmd_can check e args) ≡ 0) ↔ Answered check e args true)
      × ((exit_code (cmd_can check e args) ≡ 2) ↔ Answered check e args false)
      × ((exit_code (cmd_can check e args) ≡ 3)
          ↔ ((is_empty e.store ≡ false) × (3 ≤ length args) × (is_empty e.credential ≡ true)))
unfolding exit_code
cmd_can-exit check e args = (
  (
    λ h. exit-Answered check e args true (exit_zero _ h),
    λ a. ap exit_code (Answered-exit check e true a),
  ),
  (
    λ h. exit-Answered check e args false (exit_two _ h),
    λ a. ap exit_code (Answered-exit check e false a),
  ),
  (
    λ h. exit_no_credential check e args (exit_three _ h),
    λ h. ap exit_code (no_credential_exit check e args h),
  ),
)

-- A dry run of grant and of revoke leaves the service as it is, whatever the arguments.
relate_command-dry_run :
    {S : Type 0} (parse_expiry : Bytes → Option ℕ)
    (write : Tuple → (expires_at : Option ℕ) → S → S × (WriteResponse ⊎ Err))
    (delete : Tuple → S → S × (WriteResponse ⊎ Err)) (grant : Bool) (e : Env) (args : List Bytes)
    (st : S)
    → e.dry_run ≡ true
    → (relate_command parse_expiry write delete grant e args st).0 ≡ st
unfolding relate_command ready
relate_command-dry_run parse_expiry write delete grant e [] st h = refl
relate_command-dry_run parse_expiry write delete grant e (s ∷ []) st h = refl
relate_command-dry_run parse_expiry write delete grant e (s ∷ p ∷ []) st h = refl
relate_command-dry_run parse_expiry write delete grant e (s ∷ p ∷ o ∷ rest) st h = ground (arith, h)
