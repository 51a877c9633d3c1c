-- ===== src/Errors/Tests.antt =====
-- Error bodies, read.
use auth_sdk_go.Base.{some, []}
use auth_sdk_go.Base.Text.{bytes}
use auth_sdk_go.Json.{str}
use auth_sdk_go.Errors.Envelope.{Envelope}

-- `{"error": "denied", "detail": "no such role"}`
abbrev denied : Envelope
denied = record {
  error = some (str (bytes "denied"));
  error_description = [];
  code = [];
  message = [];
  detail = some (str (bytes "no such role"));
}
