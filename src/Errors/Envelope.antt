-- ===== src/Errors/Envelope.antt =====
-- errors.go: parseAPIError, extractSubError, extractCodeMessage. The JSON parser is the
-- parameter `parse`.
use auth_sdk_go.Base.{
  ℕ, ◌≡◌, Bool, false, List, [], ◌∷◌, Option, none, some, arith, ◌==◌, if◌then◌else◌,
}
use auth_sdk_go.Base.Text.{Bytes, bytes, is_empty}
use auth_sdk_go.Base.Space.{trim_space}
use auth_sdk_go.Json.{
  Json, Items, nil, cons, raw_member, string_member, as_string, as_fields, as_items,
}
use auth_sdk_go.Errors.{ApiError}

abbrev Code : Type 0
Code = record { code : Bytes; message : Bytes }

abbrev nothing : Code
nothing = record { code = []; message = [] }

-- `body == "" || body[0] != '{'`
abbrev looks_object : Bytes → Bool
looks_object [] = false
looks_object (c ∷ s) = c == b'{'

-- The struct `env` of extractCodeMessage.
pub record Envelope : Type 0 where
  pub error : Option Json
  pub error_description : Bytes
  pub code : Bytes
  pub message : Bytes
  pub detail : Option Json

infixl 5 ◌>>=◌
abbrev ◌>>=◌ {ℓ κ} : {A : Type ℓ} {B : Type κ} → Option A → (A → Option B) → Option B
none >>= f = none
some a >>= f = f a

decode_envelope : Json → Option Envelope
unfolding as_fields raw_member string_member
decode_envelope j = do
  fs ← as_fields j
  description ← string_member (bytes "error_description") [] fs
  code ← string_member (bytes "code") [] fs
  message ← string_member (bytes "message") [] fs
  some (record {
    error = raw_member (bytes "error") fs;
    error_description = description;
    code = code;
    message = message;
    detail = raw_member (bytes "detail") fs;
  })

-- A struct with two string members.
decode_pair : Bytes → Bytes → Json → Option (Bytes × Bytes)
unfolding as_fields string_member
decode_pair k l j = do
  fs ← as_fields j
  a ← string_member k [] fs
  b ← string_member l [] fs
  some (a, b)

-- `[]struct{Msg, Type}`: every element has to decode; the first one is what is used.
decode_msgs : Items → Option (List (Bytes × Bytes))
unfolding decode_pair
decode_msgs nil = some []
decode_msgs (cons j xs) = do
  m ← decode_pair (bytes "msg") (bytes "type") j
  ms ← decode_msgs xs
  some (m ∷ ms)

abbrev or_else : Bytes → Bytes → Bytes
or_else a b = if is_empty a then b else a

-- `{"error": "code"}` or `{"error": {"code": ..., "message": ...}}`
from_error : Option Json → Code
unfolding as_string decode_pair
from_error none = nothing
from_error (some j) = elim (as_string j) [
  | some s ↦ record { code = s; message = [] }
  | none ↦ elim (decode_pair (bytes "code") (bytes "message") j) [
    | some (c, m) ↦ record { code = c; message = m }
    | none ↦ nothing
  ]
]

-- What `detail` says, as a code and a message.
detail_says : Json → Code
unfolding as_string as_items decode_msgs decode_pair
detail_says j = elim (as_string j) [
  | some s ↦ record { code = []; message = s }
  | none ↦ elim (as_items j >>= decode_msgs) [
    | some ((m, t) ∷ ms) ↦ record { code = t; message = m }
    | _ ↦ elim (decode_pair (bytes "code") (bytes "message") j) [
      | some (c, m) ↦ record { code = c; message = m }
      | none ↦ nothing
    ]
  ]
]

-- `detail` fills only what is still empty.
from_detail : Option Json → Code → Code
unfolding detail_says
from_detail none r = r
from_detail (some j) r = record {
  code = or_else r.code (detail_says j).code;
  message = or_else r.message (detail_says j).message;
}

abbrev top_level : Envelope → Code → Code
top_level env r = record {
  code = or_else env.code r.code;
  message = or_else env.message (or_else env.error_description r.message);
}

code_message_of : Envelope → Code
unfolding from_error from_detail
code_message_of env = from_detail env.detail (top_level env (from_error env.error))

module _ (parse : Bytes → Option Json) where
  unfoldable pub extract_code_message : Bytes → Code
  unfolding trim_space decode_envelope code_message_of
  extract_code_message body =
      if looks_object (trim_space body)
      then elim (parse (trim_space body) >>= decode_envelope) [
        | some env ↦ code_message_of env
        | none ↦ nothing
      ]
      else nothing

  unfoldable pub extract_sub_error : Bytes → Bytes
  unfolding trim_space raw_member as_string as_fields
  extract_sub_error body =
      if looks_object (trim_space body)
      then elim (do
        j ← parse (trim_space body)
        fs ← as_fields j
        v ← raw_member (bytes "suberror") fs
        as_string v) [ some s ↦ s | none ↦ [] ]
      else []

  unfoldable pub parse_api_error : ℕ → Bytes → Bytes → Bytes → Bytes → ApiError
  unfolding extract_code_message extract_sub_error
  parse_api_error status method endpoint request_id body = record {
    status_code = status;
    method = method;
    endpoint = endpoint;
    code = (extract_code_message body).code;
    sub_error = extract_sub_error body;
    message = (extract_code_message body).message;
    request_id = request_id;
    body = body;
  }

-- The first text that is not empty.
abbrev first_non_empty : List Bytes → Bytes
first_non_empty [] = []
first_non_empty (t ∷ ts) = or_else t (first_non_empty ts)

-- What the "detail" member offers, as a code and a message, when there is one.
abbrev detail_of : Option Json → Code
detail_of none = nothing
detail_of (some j) = detail_says j

-- The code of an error body is the first that is not empty of: the top-level "code", the "error"
-- member, the "detail" member. The message is the first that is not empty of: the top-level
-- "message", "error_description", the "error" member, the "detail" member.
code_message_of-first_non_empty :
    (env : Envelope)
    → ((code_message_of env).code
        ≡ first_non_empty
            (env.code ∷ (from_error env.error).code ∷ (detail_of env.detail).code ∷ []))
      × ((code_message_of env).message
          ≡ first_non_empty (
              env.message
              ∷ env.error_description
              ∷ (from_error env.error).message
              ∷ (detail_of env.detail).message
              ∷ []))
unfolding code_message_of from_detail
code_message_of-first_non_empty env = ground arith
