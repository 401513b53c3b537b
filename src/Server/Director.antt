-- ===== src/Server/Director.antt =====
-- `dynamicDirector` and `singleJoiningSlash` of internal/server/server.go.
use gogateway.Base.{
  ℕ, ◌≡◌, ◌≢◌, refl, ap, sym, ◌∙◌, ◌||◌, [], ◌∷◌, ◌++◌, is_nil, Option, none, some, ◌==◌,
  if◌then◌else◌, Bool-cases, inl, inr, arith,
}
use mathlib.Core.List.{reverse, reverse_aux, reverse-append, reverse-reverse}
use gogateway.Base.Text.{Text, text}
use gogateway.Base.Maps.{lookup}
use gogateway.Http.{set, Url, Request}

abbrev pub slash : ℕ
slash = b'/'

-- strings.TrimLeft(s, "/"), strings.TrimRight(s, "/")
unfoldable pub trim_left_slashes : Text → Text
trim_left_slashes [] = []
trim_left_slashes (c ∷ s) = let rest = trim_left_slashes s in if c == slash then rest else c ∷ s

unfoldable pub trim_right_slashes : Text → Text
trim_right_slashes s = reverse (trim_left_slashes (reverse s))

unfoldable pub single_joining_slash : Text → Text → Text
single_joining_slash a b =
    let base = trim_right_slashes a in
    let rest = trim_left_slashes b in if is_nil base then slash ∷ rest else base ++ slash ∷ rest

unfoldable pub join_queries : Text → Text → Text
join_queries target_query query =
    if is_nil target_query || is_nil query
    then target_query ++ query
    else target_query ++ b'&' ∷ query

-- `target` is the value in the request's context.
unfoldable pub dynamic_director : Option Url → Request → Request
dynamic_director none r = r
dynamic_director (some target) r = record r {
  url = record {
    scheme = target.scheme;
    host = target.host;
    path = single_joining_slash target.path r.url.path;
    raw_query = join_queries target.raw_query r.url.raw_query;
  };
  header = elim (lookup (text "User-Agent") r.header) [
    | some agents ↦ r.header
    | none ↦ set (text "User-Agent") (text "GoGateway/1.0") r.header
  ];
}

abbrev pub AllSlashes : Text → Type 0
AllSlashes [] = Unit
AllSlashes (c ∷ s) = (c ≡ slash) × AllSlashes s

-- The text does not begin with a slash.
abbrev pub Unslashed : Text → Type 0
Unslashed [] = Unit
Unslashed (c ∷ s) = c ≢ slash

trim_left_slashes_split :
    (s : Text)
    → (slashes : Text) × (s ≡ slashes ++ trim_left_slashes s)
      × AllSlashes slashes
      × Unslashed (trim_left_slashes s)
unfolding trim_left_slashes
trim_left_slashes_split [] = ([], refl, tt, tt)
trim_left_slashes_split (c ∷ s) = elim (Bool-cases (c == slash)) [
  | inl here ↦
      let (slashes, split, all, clean) = trim_left_slashes_split s in
      rw here (c ∷ slashes, ap (λ (t : Text). c ∷ t) split, (ground arith, all), clean)
  | inr other ↦ rw other ([], refl, tt, ground arith)
]

AllSlashes-reverse_aux : (s t : Text) → AllSlashes s → AllSlashes t → AllSlashes (reverse_aux s t)
AllSlashes-reverse_aux [] t hs ht = ht
AllSlashes-reverse_aux (c ∷ s) t (here, hs) ht = AllSlashes-reverse_aux s (c ∷ t) hs (here, ht)

trim_right_slashes_split :
    (s : Text)
    → (slashes : Text) × (s ≡ trim_right_slashes s ++ slashes)
      × AllSlashes slashes
      × Unslashed (reverse (trim_right_slashes s))
unfolding trim_right_slashes
trim_right_slashes_split s =
    let (slashes, split, all, clean) = trim_left_slashes_split (reverse s) in
    (
      reverse slashes,
      sym (reverse-reverse s)
          ∙ ap reverse split
          ∙ reverse-append slashes (trim_left_slashes (reverse s)),
      AllSlashes-reverse_aux slashes [] all tt,
      rw reverse-reverse clean,
    )

-- The joined path is the base without its trailing slashes, one slash, and the path without its
-- leading slashes, whatever slashes and empty parts there are.
pub single_joining_slash-eq :
    (a b : Text)
    → (base : Text) × (rest : Text) × (tail : Text) × (head : Text) × (a ≡ base ++ tail)
      × (b ≡ head ++ rest)
      × AllSlashes tail
      × AllSlashes head
      × Unslashed (reverse base)
      × Unslashed rest
      × (single_joining_slash a b ≡ base ++ slash ∷ rest)
unfolding single_joining_slash
single_joining_slash-eq a b =
    let (tail, split_a, all_a, clean_a) = trim_right_slashes_split a in
    let (head, split_b, all_b, clean_b) = trim_left_slashes_split b in
    (
      trim_right_slashes a,
      trim_left_slashes b,
      tail,
      head,
      split_a,
      split_b,
      all_a,
      all_b,
      clean_a,
      clean_b,
      join (trim_right_slashes a),
    )
  where
    join :
        (base : Text)
        → (if is_nil base then slash ∷ trim_left_slashes b else base ++ slash ∷ trim_left_slashes b)
          ≡ base ++ slash ∷ trim_left_slashes b
    join [] = refl
    join (c ∷ base) = refl
