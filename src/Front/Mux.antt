-- ===== src/Front/Mux.antt =====
-- The `ServeMux` of net/http with the patterns that internal/server/server.go and
-- internal/metrics/prometheus.go register: whole paths, and "/" for all others.
use gogateway.Base.{◌==◌, not, ◌&&◌, List, [], ◌∷◌, ◌++◌, is_nil, if◌then◌else◌}
use mathlib.Core.List.{reverse}
use gogateway.Base.Text.{Text, text, text_eq, has_prefix, has_suffix}
use gogateway.Http.{Url, Request}

-- The parts of a path between its slashes.
unfoldable pub segments : Text → List Text
segments [] = [] ∷ []
segments (c ∷ s) =
    let rest = segments s in
    if c == b'/'
    then [] ∷ rest
    else elim rest [ [] ↦ (c ∷ []) ∷ [] | part ∷ parts ↦ (c ∷ part) ∷ parts ]

abbrev pub without_last : List Text → List Text
without_last [] = []
without_last (part ∷ parts) = parts

-- The segments that path.Clean keeps, last first.
unfoldable pub clean_segments : List Text → List Text → List Text
clean_segments [] kept = kept
clean_segments (part ∷ parts) kept = clean_segments parts (
    if is_nil part
    then kept
    else if text_eq part (text ".")
    then kept
    else if text_eq part (text "..")
    then without_last kept
    else part ∷ kept)

unfoldable pub join_segments : List Text → Text
join_segments [] = []
join_segments (part ∷ parts) = b'/' ∷ part ++ join_segments parts

-- path.Clean of a path that begins with a slash.
unfoldable pub path_clean : Text → Text
path_clean p =
    let joined = join_segments (reverse (clean_segments (segments p) [])) in
    if is_nil joined then text "/" else joined

-- cleanPath of net/http
unfoldable pub clean_path : Text → Text
clean_path p =
    let rooted = if has_prefix p (text "/") then p else b'/' ∷ p in
    let cleaned = path_clean rooted in
    if is_nil p
    then text "/"
    else if has_suffix rooted (text "/") && not (text_eq cleaned (text "/"))
    then cleaned ++ text "/"
    else cleaned

-- What the mux answers itself: 400, 404, or 301 to another path.
pub data MuxAnswer : Type 0 where
  bad_request missing : MuxAnswer
  moved : Text → MuxAnswer

pub data MuxChoice : Type 0 where
  by_mux : MuxAnswer → MuxChoice
  registered : Text → MuxChoice

-- The registered pattern for a path.
unfoldable pub pattern_for : List Text → Text → MuxChoice
pattern_for [] path = by_mux missing
pattern_for (pattern ∷ patterns) path =
    let rest = pattern_for patterns path in
    if text_eq pattern path
    then registered pattern
    else if text_eq pattern (text "/") && has_prefix path (text "/")
    then registered pattern
    else rest

-- The handler for a request; the patterns stand with "/" last. `escaped_path` is
-- `r.URL.EscapedPath()`.
unfoldable pub mux_handler : (Url → Text) → List Text → Request → MuxChoice
mux_handler escaped_path patterns r =
    let escaped = escaped_path r.url in
    let choice = pattern_for patterns r.url.path in
    if text_eq escaped (text "*")
    then by_mux bad_request
    else if text_eq r.method (text "CONNECT")
    then choice
    else if text_eq (clean_path escaped) escaped
    then choice
    else by_mux (moved (clean_path escaped))
