-- ===== src/Cli/Commands/Grants.antt =====
-- What a grant that exits with 0 has done.
use auth_sdk_go.Base.{
  ℕ, ◌≡◌, refl, true, false, ◌⊎◌, inl, inr, List, [], ◌∷◌, Option, none, some, arith, Bool-cases,
  Option-cases, ap,
}
use auth_sdk_go.Base.Text.{Bytes, is_empty}
use auth_sdk_go.Errors.{Err}
use auth_sdk_go.Relations.{Failure, Tuple, WriteResponse}
use auth_sdk_go.Relations.Writes.{write_error, relate_id, relate_until}
use auth_sdk_go.Cli.Commands.{
  Env, ready, after_write, relate_in, relate_until_in, relate_command, cmd_grant,
}

module _ {S : Type 0} (parse_expiry : Bytes → Option ℕ)
    (write : Tuple → (expires_at : Option ℕ) → S → S × (WriteResponse ⊎ Err))
    (delete : Tuple → S → S × (WriteResponse ⊎ Err)) (e : Env) where
  -- The service has accepted the tuple of the first three arguments, with the expiry of the flag, and
  -- is left as it left itself.
  pub record Granted (args : List Bytes) (before after : S) : Type 0 where
    pub tuple : Tuple
    pub rest : List Bytes
    pub line : args ≡ tuple.subject ∷ tuple.relation ∷ tuple.object ∷ rest
    pub expiry : Option ℕ
    pub expires :
        ((is_empty e.expires ≡ true) × (expiry ≡ none))
        ⊎ ((is_empty e.expires ≡ false)
            × (parse_expiry e.expires ≡ expiry)
            × ((t : ℕ) × (expiry ≡ some t)))
    pub reply : WriteResponse
    pub sent : write tuple expiry before ≡ (after, inl reply)
    pub accepted : reply.success ≡ true

  abbrev tuple_of : Bytes → Bytes → Bytes → Tuple
  tuple_of s p o = record { object = o; relation = p; subject = s }

  -- A write that is no error was accepted.
  write_error-none :
      (r : WriteResponse ⊎ Err)
      → write_error r ≡ none
      → (reply : WriteResponse) × (r ≡ inl reply) × (reply.success ≡ true)
  unfolding write_error
  write_error-none (inl reply) h = (reply, refl, ground arith)
  write_error-none (inr err) h = cc

  after_write-none :
      (before : S) (r : S × Option Failure) (after : S)
      → after_write e r ≡ (after, none)
      → r ≡ (after, none)
  after_write-none before (s, none) after h = ground arith
  after_write-none before (s, some f) after h = ground arith

  relate_in-accepted :
      (s p o : Bytes) (before after : S)
      → relate_in parse_expiry write delete s p o before ≡ (after, none)
      → (reply : WriteResponse) × (write (tuple_of s p o) none before ≡ (after, inl reply))
        × (reply.success ≡ true)
  unfolding relate_in relate_id
  relate_in-accepted s p o before after h =
      let r = write (tuple_of s p o) none before in
      let (reply, eq, ok) = write_error-none r.1 (ap (λ x. x.1) h) in
      (reply, ground (arith, eq, ap (λ x. x.0) h), ok)

  relate_until_in-accepted :
      (s p o : Bytes) (t : ℕ) (before after : S)
      → relate_until_in parse_expiry write delete s p o t before ≡ (after, none)
      → (reply : WriteResponse) × (write (tuple_of s p o) (some t) before ≡ (after, inl reply))
        × (reply.success ≡ true)
  unfolding relate_until_in relate_until
  relate_until_in-accepted s p o t before after h =
      let r = write (tuple_of s p o) (some t) before in
      let (reply, eq, ok) = write_error-none r.1 (ap (λ x. x.1) h) in
      (reply, ground (arith, eq, ap (λ x. x.0) h), ok)

  -- The choice of grant with three arguments.
  three-Granted :
      (s p o : Bytes) (rest : List Bytes) (before after : S)
      → cmd_grant parse_expiry write delete e (s ∷ p ∷ o ∷ rest) before ≡ (after, none)
      → ((e.dry_run ≡ true) × (after ≡ before)) ⊎ Granted (s ∷ p ∷ o ∷ rest) before after
  unfolding cmd_grant relate_command ready
  three-Granted s p o rest before after h = elim (Bool-cases (is_empty e.store)) [
    | inl a ↦ absurd (ground (arith, a))
    | inr a ↦ elim (Bool-cases (is_empty e.credential)) [
      | inl b ↦ absurd (ground (arith, a, b))
      | inr b ↦ elim (Bool-cases e.dry_run) [
        | inl c ↦ inl (c, ground (arith, a, b, c))
        | inr c ↦ elim (Bool-cases (is_empty e.expires)) [
          | inl d ↦
              let (reply, sent, ok) =
                relate_in-accepted s p o before after
                  (after_write-none before _ after (ground (arith, a, b, c, d))) in
              inr (record {
                tuple = tuple_of s p o;
                rest = rest;
                line = refl;
                expiry = none;
                expires = inl (d, refl);
                reply = reply;
                sent = sent;
                accepted = ok;
              })
          | inr d ↦ elim (Option-cases (parse_expiry e.expires)) [
            | inl f ↦ absurd (ground (arith, a, b, c, d, f))
            | inr (t, f) ↦
                let (reply, sent, ok) =
                  relate_until_in-accepted s p o t before after
                    (after_write-none before _ after (ground (arith, a, b, c, d, f))) in
                inr (record {
                  tuple = tuple_of s p o;
                  rest = rest;
                  line = refl;
                  expiry = some t;
                  expires = inr (d, f, (t, refl));
                  reply = reply;
                  sent = sent;
                  accepted = ok;
                })
          ]
        ]
      ]
    ]
  ]

  -- A grant that exits with 0 is a dry run that leaves the service as it is, or the service was asked
  -- to write the tuple of the first three arguments, with the expiry of the flag where that is set,
  -- and with none else, and has answered that the write succeeded.
  pub cmd_grant-Granted :
      (args : List Bytes) (before after : S)
      → cmd_grant parse_expiry write delete e args before ≡ (after, none)
      → ((e.dry_run ≡ true) × (after ≡ before)) ⊎ Granted args before after
  unfolding cmd_grant relate_command ready
  cmd_grant-Granted [] before after h = absurd (ground (arith, h))
  cmd_grant-Granted (s ∷ []) before after h = absurd (ground (arith, h))
  cmd_grant-Granted (s ∷ p ∷ []) before after h = absurd (ground (arith, h))
  cmd_grant-Granted (s ∷ p ∷ o ∷ rest) before after h = three-Granted s p o rest before after h
