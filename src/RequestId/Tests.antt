-- ===== src/RequestId/Tests.antt =====
-- A generated ID, internal/middleware/requestid.go.
use gogateway.Base.{◌≡◌, refl, [], ◌∷◌}
use gogateway.Base.Text.{text}
use gogateway.RequestId.{generate_id, hex}

two_bytes : generate_id (7 ∷ 255 ∷ []) ≡ text "07ff"
unfolding generate_id hex
two_bytes = refl
