-- ===== src/Http.antt =====
-- What the gateway uses of Go's `net/http`: header maps with their canonical names, and the parts
-- of a request that it reads or writes.
use gogateway.Base.{
  ◌+◌, ◌-◌, ◌≡◌, Bool, true, not, ◌&&◌, List, [], ◌∷◌, Option, none, some, leb, ◌==◌, if◌then◌else◌,
  Bool-cases, inl, inr,
}
use gogateway.Base.Text.{Text, text_eq}
use gogateway.Base.Maps.{Map, lookup, insert, lookup-insert}

-- textproto.CanonicalMIMEHeaderKey, on names made of token bytes: the first letter and those after
-- a hyphen are upper case, the others lower case.
canonical_from : Bool → Text → Text
canonical_from upper [] = []
canonical_from upper (c ∷ s) =
    (if upper && (leb b'a' c && leb c b'z')
      then c - 32
      else if not upper && (leb b'A' c && leb c b'Z')
      then c + 32
      else c)
    ∷ canonical_from (c == b'-') s

unfoldable pub canonical : Text → Text
unfolding canonical_from
canonical s = canonical_from true s

-- `map[string][]string`
abbrev pub Header : Type 0
Header = Map (List Text)

abbrev pub first_value : Option (List Text) → Text
first_value none = []
first_value (some []) = []
first_value (some (v ∷ vs)) = v

-- h.Get(name)
unfoldable pub get : Text → Header → Text
get name h = first_value (lookup (canonical name) h)

-- h.Set(name, value)
unfoldable pub set : Text → Text → Header → Header
set name value h = insert (canonical name) (value ∷ []) h

pub get-set :
    (name other value : Text) (h : Header)
    → get other (set name value h)
      ≡ (if text_eq (canonical name) (canonical other) then value else get other h)
unfolding get set
get-set name other value h =
    rw lookup-insert (elim (Bool-cases (text_eq (canonical name) (canonical other))) [
      | inl e ↦ rw e
      | inr e ↦ rw e
    ])

-- `*url.URL`, with the fields that the gateway reads or writes
pub record Url : Type 0 where
  pub scheme : Text
  pub host : Text
  pub path : Text
  pub raw_query : Text

-- `*http.Request`
pub record Request : Type 0 where
  pub method : Text
  pub host : Text
  pub url : Url
  pub header : Header
  pub remote_addr : Text
