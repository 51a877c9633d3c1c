-- ===== src/LocalVerify/Canonical.antt =====
-- tokenSegment accepts only the canonical spelling of some bytes.
use auth_sdk_go.Base.{
  ℕ, ◌*◌, ◌+◌, ◌-◌, ◌/◌, ◌%◌, ◌<◌, ◌≡◌, refl, sym, ap, subst, ◌∙◌, Bool, true, false, not, ◌&&◌,
  ◌||◌, List, [], ◌∷◌, map, Option, none, some, arith, ltb, ◌==◌, if◌then◌else◌, All, ==_iff,
}
use auth_sdk_go.Base.Text.{Bytes, has_byte}
use auth_sdk_go.LocalVerify.Segment.{
  sextet, sextets, octets, push, cons_all, decode_with, decode_string, token_segment,
}

-- The character of six bits in the URL alphabet.
unfoldable pub character : ℕ → ℕ
character v =
    if ltb v 26
    then v + b'A'
    else if ltb v 52
    then v - 26 + b'a'
    else if ltb v 62
    then v - 52 + b'0'
    else if v == 62
    then b'-'
    else b'_'

-- Bytes, six bits at a time, the last ones filled up with zeros.
unfoldable pub six_bits : Bytes → List ℕ
six_bits [] = []
six_bits (x ∷ []) = (x / 4) ∷ (x % 4 * 16) ∷ []
six_bits (x ∷ y ∷ []) = (x / 4) ∷ (x % 4 * 16 + y / 16) ∷ (y % 16 * 4) ∷ []
six_bits (x ∷ y ∷ z ∷ r) =
    (x / 4) ∷ (x % 4 * 16 + y / 16) ∷ (y % 16 * 4 + z / 64) ∷ (z % 64) ∷ six_bits r

-- Base64 with the URL alphabet and no padding.
unfoldable pub encode : Bytes → Bytes
encode b = map character (six_bits b)

sextet-some : (c v : ℕ) → sextet c ≡ some v → (v < 64) × (character v ≡ c)
unfolding sextet character
sextet-some c v e = ground arith

abbrev AllSmall : List ℕ → Type 0
AllSmall = All λ v. v < 64

some-injective : (p o : Bytes) → some p ≡ some o → p ≡ o
some-injective p o e = cc

first4 :
    {a b c d a' b' c' d' : ℕ} {vs ws : List ℕ}
    → a ≡ a'
    → b ≡ b'
    → c ≡ c'
    → d ≡ d'
    → vs ≡ ws
    → a ∷ b ∷ c ∷ d ∷ vs ≡ a' ∷ b' ∷ c' ∷ d' ∷ ws
first4 e f g h i = cc

pair : {a b a' b' : ℕ} → a ≡ a' → b ≡ b' → a ∷ b ∷ [] ≡ a' ∷ b' ∷ []
pair e f = cc

triple : {a b c a' b' c' : ℕ} → a ≡ a' → b ≡ b' → c ≡ c' → a ∷ b ∷ c ∷ [] ≡ a' ∷ b' ∷ c' ∷ []
triple e f g = cc

-- Strict mode refuses where the bits left over are not zero.
canonical_rest :
    (zeros : Bool) (r bs : Bytes)
    → (if true && not zeros then none else some r) ≡ some bs
    → (zeros ≡ true) × (some r ≡ some bs)
canonical_rest true r bs e = (refl, e)
canonical_rest false r bs e = absurd cc

cons_all-six_bits :
    (a b c d : ℕ) (vs : List ℕ) (o : Option Bytes) (bs : Bytes)
    → a < 64
    → b < 64
    → c < 64
    → d < 64
    → ((r : Bytes) → o ≡ some r → six_bits r ≡ vs)
    → cons_all (a * 4 + b / 16) (b % 16 * 16 + c / 4) (c % 4 * 64 + d) o ≡ some bs
    → six_bits bs ≡ a ∷ b ∷ c ∷ d ∷ vs
unfolding six_bits
cons_all-six_bits a b c d vs none bs p q r s f e = absurd cc
cons_all-six_bits a b c d vs (some rest) bs p q r s f e =
    ap six_bits (some-injective bs _ (sym e))
    ∙ first4 (omega arith) (omega arith) (omega arith) (omega arith) (f rest refl)

-- In strict mode the bytes give the six bits back.
octets-six_bits :
    (vs : List ℕ) (bs : Bytes) → AllSmall vs → octets true vs ≡ some bs → six_bits bs ≡ vs
unfolding octets six_bits
octets-six_bits [] bs h e = ap six_bits (some-injective bs [] (sym e))
octets-six_bits (a ∷ []) bs h e = absurd cc
octets-six_bits (a ∷ b ∷ []) bs (p, (q, _)) e =
    ap six_bits (some-injective bs _ (sym (canonical_rest (b % 16 == 0) _ bs e).1))
    ∙ pair (omega arith)
        (omega (arith, (==_iff (b % 16) 0).0 (canonical_rest (b % 16 == 0) _ bs e).0))
octets-six_bits (a ∷ b ∷ c ∷ []) bs (p, (q, (r, _))) e =
    ap six_bits (some-injective bs _ (sym (canonical_rest (c % 4 == 0) _ bs e).1))
    ∙ triple (omega arith) (omega arith)
        (omega (arith, (==_iff (c % 4) 0).0 (canonical_rest (c % 4 == 0) _ bs e).0))
octets-six_bits (a ∷ b ∷ c ∷ d ∷ vs) bs (p, (q, (r, (s, h)))) e =
    cons_all-six_bits a b c d vs (octets true vs) bs p q r s (λ t. octets-six_bits vs t h) e

cons_both : {a b : ℕ} {s t : Bytes} → a ≡ b → s ≡ t → a ∷ s ≡ b ∷ t
cons_both e f = cc

has_byte_cons :
    (b c : ℕ) (s : Bytes) → has_byte b (c ∷ s) ≡ false → ((c == b) ≡ false) × (has_byte b s ≡ false)
unfolding has_byte
has_byte_cons b c s h = ground arith

either : (a b : Bool) → a ≡ false → b ≡ false → (a || b) ≡ false
either a b e f = rw (e, f) refl

push-some :
    (t : Bool) (o : Option ℕ) (rest : Option (List ℕ)) (vs : List ℕ)
    → t ≡ false
    → (if t then rest else push o rest) ≡ some vs
    → (v : ℕ) × ((ws : List ℕ) × (o ≡ some v) × (rest ≡ some ws) × (v ∷ ws ≡ vs))
push-some true o rest vs h e = absurd cc
push-some false none rest vs h e = absurd cc
push-some false (some v) none vs h e = absurd cc
push-some false (some v) (some ws) vs h e = (v, (ws, refl, refl, some-injective _ vs e))

-- The characters are determined by their six bits where no line end is among them.
sextets-character :
    (s : Bytes) (vs : List ℕ)
    → has_byte 10 s ≡ false
    → has_byte 13 s ≡ false
    → sextets s ≡ some vs
    → AllSmall vs × (map character vs ≡ s)
unfolding sextets
sextets-character [] vs h k e =
    subst (λ ws. AllSmall ws × (map character ws ≡ [])) (some-injective [] vs e) (tt, refl)
sextets-character (c ∷ s) vs h k e =
    let (not10, h') = has_byte_cons 10 c s h in
    let (not13, k') = has_byte_cons 13 c s k in
    let (v, (ws, is_v, is_ws, whole)) =
      push-some (c == 10 || c == 13) (sextet c) (sextets s) vs
        (either (c == 10) (c == 13) not10 not13) e in
    let (small, back) = sextets-character s ws h' k' is_ws in
    let (v_small, v_back) = sextet-some c v is_v in
    subst (λ us. AllSmall us × (map character us ≡ c ∷ s)) whole
      ((v_small, small), cons_both v_back back)

decode_with-encode :
    (s : Bytes) (o : Option (List ℕ)) (b : Bytes)
    → ((vs : List ℕ) → o ≡ some vs → AllSmall vs × (map character vs ≡ s))
    → decode_with true o ≡ some b
    → encode b ≡ s
unfolding encode
decode_with-encode s none b f e = absurd cc
decode_with-encode s (some vs) b f e =
    let (small, back) = f vs refl in ap (map character) (octets-six_bits vs b small e) ∙ back

unpadded : (t : Bool) (o : Option Bytes) (b : Bytes) → (if t then none else o) ≡ some b → o ≡ some b
unpadded true o b e = absurd cc
unpadded false o b e = e

-- A segment without line ends, as every segment of a text that LooksLikeJWT accepts, is accepted by
-- tokenSegment only if it is the very text that unpadded base64 makes of the bytes it stands for.
-- No other spelling of the same bytes is accepted.
pub encode-token_segment :
    (s b : Bytes)
    → has_byte 10 s ≡ false
    → has_byte 13 s ≡ false
    → token_segment s ≡ some b
    → encode b ≡ s
unfolding token_segment decode_string
encode-token_segment s b h k e =
    decode_with-encode s (sextets s) b (λ vs. sextets-character s vs h k)
      (unpadded (has_byte b'=' s) (decode_with true (sextets s)) b e)
