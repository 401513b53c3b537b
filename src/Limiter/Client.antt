-- ===== src/Limiter/Client.antt =====
-- Whose requests are counted together, `ResolveClientID` of internal/middleware/ratelimit.go.
use gogateway.Base.{Bool, false, none, some, is_nil, ◌≡◌, List, [], ◌∷◌, if◌then◌else◌, arith}
use gogateway.Base.Text.{Text, text}
use gogateway.Config.{Route}
use gogateway.Http.{Header, get}

-- `requestHeaders`, as `AdaptRequest` makes it of a request: a header getter and an address.
pub record RequestHeaders : Type 0 where
  pub header : Text → Text
  pub remote_addr : Text

unfoldable pub adapt_request : (Text → Text) → Text → RequestHeaders
adapt_request get_header addr = record { header = get_header; remote_addr = addr }

unfoldable pub resolve_client_id : RequestHeaders → Route → Text
resolve_client_id r route =
    let u = r.header (text "X-User-ID") in
    let k = r.header (text "X-API-Key-ID") in
    let fwd = r.header (text "X-Forwarded-For") in
    elim route.rate_limit [
      | none ↦ route.id
      | some lim ↦
          if lim.per_client
          then if is_nil u
            then if is_nil k then if is_nil fwd then r.remote_addr else fwd else k
            else u
          else route.id
    ]

-- The first text that is not empty, or the last resort.
abbrev pub first_of_texts : List Text → Text → Text
first_of_texts [] last = last
first_of_texts (s ∷ ss) last = if is_nil s then first_of_texts ss last else s

abbrev pub per_client : Route → Bool
per_client route = elim route.rate_limit [ none ↦ false | some lim ↦ lim.per_client ]

-- With a per-client limit the client is named by the first of the user ID, the API key ID, the
-- forwarded address and the remote address that is not empty; without one all requests of the
-- route are counted together, under the route's ID.
resolve_client_id-eq :
    (h : Header) (addr : Text) (route : Route)
    → resolve_client_id (adapt_request (λ name. get name h) addr) route ≡ (
        if per_client route
        then first_of_texts
            (get (text "X-User-ID") h
              ∷ get (text "X-API-Key-ID") h
              ∷ get (text "X-Forwarded-For") h
              ∷ [])
            addr
        else route.id)
unfolding resolve_client_id adapt_request
resolve_client_id-eq h addr route = ground arith
