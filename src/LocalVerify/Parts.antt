-- ===== src/LocalVerify/Parts.antt =====
-- The segments of a token: a text that `strings.Split` has cut at a byte is its parts with the byte
-- between them.
use auth_sdk_go.Base.{
  sym, subst, some, ℕ, ◌≡◌, refl, ap, ◌∙◌, false, List, [], ◌∷◌, ◌++◌, ◌==◌, if◌then◌else◌, All,
  Bool-cases, inl, inr, arith,
}
use auth_sdk_go.Base.Text.{Bytes, has_byte}
use auth_sdk_go.Credential.{split}
use auth_sdk_go.Errors.{malformed}
use auth_sdk_go.LocalVerify.{pass, or_refuse}
use auth_sdk_go.LocalVerify.Segment.{token_segment}
use auth_sdk_go.LocalVerify.Verify.{Shape, check_parts}
use auth_sdk_go.LocalVerify.Sound.{or_refuse-pass, bind-pass, pass-injective}

abbrev pub joined : ℕ → List Bytes → Bytes
joined sep [] = []
joined sep (p ∷ []) = p
joined sep (p ∷ q ∷ ps) = p ++ sep ∷ joined sep (q ∷ ps)

-- Some parts, none of which has the separator, make up the text.
abbrev Cuts : ℕ → Bytes → List Bytes → Type 0
Cuts sep s [] = ⊥
Cuts sep s (p ∷ ps) = (joined sep (p ∷ ps) ≡ s) × All (λ q. has_byte sep q ≡ false) (p ∷ ps)

joined-cons :
    (sep c : ℕ) (p : Bytes) (ps : List Bytes) → joined sep ((c ∷ p) ∷ ps) ≡ c ∷ joined sep (p ∷ ps)
joined-cons sep c p [] = refl
joined-cons sep c p (q ∷ ps) = refl

split_step :
    (sep c : ℕ) (s : Bytes) (l : List Bytes)
    → Cuts sep s l
    → Cuts sep
        (c ∷ s)
        (elim l [ [] ↦ [] | p ∷ ps ↦ if c == sep then [] ∷ p ∷ ps else (c ∷ p) ∷ ps ])
unfolding has_byte
split_step sep c s [] h = h
split_step sep c s (p ∷ ps) (j, (a, b)) = elim (Bool-cases (c == sep)) [
  | inl e ↦ rw e (ground (arith, j, e), (refl, (a, b)))
  | inr e ↦ rw e (joined-cons sep c p ps ∙ ap (λ t. c ∷ t) j, (ground (arith, e, a), b))
]

split-Cuts : (sep : ℕ) (s : Bytes) → Cuts sep s (split sep s)
unfolding split has_byte
split-Cuts sep [] = (refl, (refl, tt))
split-Cuts sep (c ∷ s) = split_step sep c s (split sep s) (split-Cuts sep s)

-- What passes as the segments of a token.
abbrev PartsOf : List Bytes → Shape → Type 0
PartsOf parts s =
    (a : Bytes) × (b : Bytes) × (c : Bytes) × (parts ≡ a ∷ b ∷ c ∷ [])
    × ((token_segment a ≡ some s.header)
        × (token_segment b ≡ some s.payload)
        × (token_segment c ≡ some s.signature))
    × (s.signed ≡ a ++ b'.' ∷ b)

check_parts_lem : (parts : List Bytes) (s : Shape) → check_parts parts ≡ pass s → PartsOf parts s
unfolding check_parts
check_parts_lem [] s e = absurd cc
check_parts_lem (a ∷ []) s e = absurd cc
check_parts_lem (a ∷ b ∷ []) s e = absurd cc
check_parts_lem (a ∷ b ∷ c ∷ []) s e =
    let (header, h, e1) = bind-pass (or_refuse malformed (token_segment a)) _ s e in
    let (payload, p, e2) = bind-pass (or_refuse malformed (token_segment b)) _ s e1 in
    let (sig, q, e3) = bind-pass (or_refuse malformed (token_segment c)) _ s e2 in
    subst (PartsOf (a ∷ b ∷ c ∷ [])) (pass-injective _ s e3) (
      a,
      b,
      c,
      refl,
      (or_refuse-pass _ _ _ h, or_refuse-pass _ _ _ p, or_refuse-pass _ _ _ q),
      refl,
    )
check_parts_lem (a ∷ b ∷ c ∷ d ∷ ds) s e = absurd cc

pub token_parts :
    (token : Bytes) (s : Shape)
    → check_parts (split b'.' token) ≡ pass s
    → (a : Bytes) × (b : Bytes) × (c : Bytes) × ((token_segment a ≡ some s.header)
        × (token_segment b ≡ some s.payload)
        × (token_segment c ≡ some s.signature))
      × (s.signed ≡ a ++ b'.' ∷ b)
      × (token ≡ a ++ b'.' ∷ (b ++ b'.' ∷ c))
      × All (λ t. has_byte b'.' t ≡ false) (a ∷ b ∷ c ∷ [])
token_parts token s e =
    let (a, b, c, parts, segments, signed) = check_parts_lem (split b'.' token) s e in
    let (whole, plain) = subst (Cuts b'.' token) parts (split-Cuts b'.' token) in
    (a, b, c, segments, signed, sym whole, plain)
