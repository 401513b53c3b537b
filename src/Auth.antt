-- ===== src/Auth.antt =====
-- Authentication of requests: internal/middleware/apikey.go and internal/middleware/jwt.go.
pub mod ApiKeys
pub mod Jwt
mod Tests
use gogateway.Base.Text.{Text, text}

abbrev pub bearer : Text
bearer = text "Bearer "
