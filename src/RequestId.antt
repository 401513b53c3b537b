-- ===== src/RequestId.antt =====
-- internal/middleware/requestid.go. `random` is the 16 bytes that crypto/rand gives.
mod Tests
use gogateway.Base.{
  ℕ, ◌+◌, ◌/◌, ◌%◌, ◌≡◌, refl, sym, ◌∙◌, true, List, [], ◌∷◌, is_nil, if◌then◌else◌, ltb,
  Bool-cases, inl, inr,
}
use gogateway.Base.Text.{Text, text, text_eq}
use gogateway.Http.{Header, get, set, get-set, canonical, Request}

abbrev hex_digit : ℕ → ℕ
hex_digit n = if ltb n 10 then b'0' + n else 87 + n

-- hex.EncodeToString
unfoldable pub hex : Text → Text
hex [] = []
hex (c ∷ s) = hex_digit (c / 16) ∷ hex_digit (c % 16) ∷ hex s

unfoldable pub generate_id : Text → Text
generate_id random = hex random

-- The request and the header of the response, as `next` gets them.
unfoldable pub request_id : Text → Request → Header → Request × Header
request_id random r response =
    let given = get (text "X-Request-Id") r.header in
    if is_nil given
    then (
      record r { header = set (text "X-Request-Id") (generate_id random) r.header },
      set (text "X-Request-Id") (generate_id random) response,
    )
    else (r, set (text "X-Request-Id") given response)

get_id-set :
    (value : Text) (h : Header)
    → get (text "X-Request-Id") (set (text "X-Request-Id") value h) ≡ value
unfolding canonical text_eq
get_id-set value h = get-set (text "X-Request-Id") (text "X-Request-Id") value h

-- The request that is passed on and the response carry one ID: the one of the incoming request, or
-- a generated one if it has none.
pub request_id-eq :
    (random : Text) (r : Request) (response : Header)
    → let (passed, answered) = request_id random r response in
      let given = get (text "X-Request-Id") r.header in
      (get (text "X-Request-Id") passed.header
        ≡ (if is_nil given then generate_id random else given))
      × (get (text "X-Request-Id") answered ≡ get (text "X-Request-Id") passed.header)
unfolding request_id
request_id-eq random r response = elim (Bool-cases (is_nil (get (text "X-Request-Id") r.header))) [
  | inl absent ↦ rw absent (get_id-set _ _, get_id-set _ _ ∙ sym (get_id-set _ r.header))
  | inr present ↦ rw present (refl, get_id-set _ _)
]
