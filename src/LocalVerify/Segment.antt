-- ===== src/LocalVerify/Segment.antt =====
-- localverify.go: tokenSegment, b64url and rsaPublicKey, over unpadded base64 with the URL alphabet
-- (encoding/base64).
use auth_sdk_go.Base.{
  ℕ, ◌*◌, ◌+◌, ◌-◌, ◌/◌, ◌%◌, ◌^◌, Bool, true, false, not, ◌&&◌, ◌||◌, List, [], ◌∷◌, Option, none,
  some, ltb, leb, ◌==◌, if◌then◌else◌, length,
}
use auth_sdk_go.Base.Text.{Bytes, bytes, same, is_empty, has_byte}
use auth_sdk_go.Jwks.{Jwk}

-- A character's six bits.
unfoldable pub sextet : ℕ → Option ℕ
sextet c =
    if leb b'A' c && leb c b'Z'
    then some (c - b'A')
    else if leb b'a' c && leb c b'z'
    then some (c - b'a' + 26)
    else if leb b'0' c && leb c b'9'
    then some (c - b'0' + 52)
    else if c == b'-'
    then some 62
    else if c == b'_'
    then some 63
    else none

abbrev pub push : Option ℕ → Option (List ℕ) → Option (List ℕ)
push none rest = none
push (some v) none = none
push (some v) (some vs) = some (v ∷ vs)

-- The characters' values; line ends are passed over, as the library does in every mode.
unfoldable pub sextets : Bytes → Option (List ℕ)
unfolding sextet
sextets [] = some []
sextets (c ∷ s) = let rest = sextets s in if c == 10 || c == 13 then rest else push (sextet c) rest

abbrev pub cons_all : ℕ → ℕ → ℕ → Option Bytes → Option Bytes
cons_all x y z none = none
cons_all x y z (some bs) = some (x ∷ y ∷ z ∷ bs)

-- Four characters are three bytes. In strict mode the bits left over must be zero.
unfoldable pub octets : (strict : Bool) → List ℕ → Option Bytes
octets strict [] = some []
octets strict (a ∷ []) = none
octets strict (a ∷ b ∷ []) =
    if strict && not (b % 16 == 0) then none else some ((a * 4 + b / 16) ∷ [])
octets strict (a ∷ b ∷ c ∷ []) =
    if strict && not (c % 4 == 0)
    then none
    else some ((a * 4 + b / 16) ∷ (b % 16 * 16 + c / 4) ∷ [])
octets strict (a ∷ b ∷ c ∷ d ∷ vs) =
    cons_all (a * 4 + b / 16) (b % 16 * 16 + c / 4) (c % 4 * 64 + d) (octets strict vs)

abbrev pub decode_with : Bool → Option (List ℕ) → Option Bytes
decode_with strict none = none
decode_with strict (some vs) = octets strict vs

unfoldable pub decode_string : (strict : Bool) → Bytes → Option Bytes
unfolding sextets octets
decode_string strict s = decode_with strict (sextets s)

unfoldable pub token_segment : Bytes → Option Bytes
unfolding has_byte decode_string
token_segment s = if has_byte b'=' s then none else decode_string true s

-- `strings.TrimRight(s, "=")`
unfoldable trim_padding : Bytes → Bytes
trim_padding [] = []
trim_padding (c ∷ s) = elim (trim_padding s) [
  | [] ↦ if c == b'=' then [] else c ∷ []
  | d ∷ r ↦ c ∷ d ∷ r
]

unfoldable pub b64url : Bytes → Option Bytes
unfolding trim_padding decode_string
b64url s = decode_string false (trim_padding s)

unfoldable big_endian : ℕ → Bytes → ℕ
big_endian n [] = n
big_endian n (b ∷ bs) = big_endian (n * 256 + b) bs

pub record PublicKey : Type 0 where
  pub modulus : ℕ
  pub exponent : ℕ

abbrev min_rsa_key_bits : ℕ
min_rsa_key_bits = 2048

abbrev pub fits : Bytes → Bytes → Bool
fits given wanted = is_empty given || same given wanted

-- The key of a modulus and an exponent.
unfoldable pub key_of : Option Bytes → Option Bytes → Option PublicKey
unfolding big_endian
key_of none e = none
key_of (some n) none = none
key_of (some n) (some e) =
    if is_empty n || (is_empty e || ltb 4 (length e))
    then none
    else if ltb (big_endian 0 n) (2 ^ (min_rsa_key_bits - 1))
    then none
    else if ltb (big_endian 0 e) 3 || big_endian 0 e % 2 == 0
    then none
    else some (record { modulus = big_endian 0 n; exponent = big_endian 0 e })

unfoldable pub rsa_public_key : Jwk → Option PublicKey
unfolding same b64url key_of
rsa_public_key k =
    if same k.kty (bytes "RSA") && (fits k.use_ (bytes "sig") && fits k.alg (bytes "RS256"))
    then key_of (b64url k.n) (b64url k.e)
    else none
