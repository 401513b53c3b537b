-- ===== src/Router/Paths.antt =====
-- Which paths a pattern of internal/router/router.go matches.
use mathlib.Core.List.{reverse, reverse-append, reverse-reverse}
use gogateway.Base.{◌≡◌, refl, sym, ap, ◌∙◌, ◌↔◌, ◌⊎◌, true, false, [], ◌++◌, Bool-cases, inl, inr}
use gogateway.Base.Text.{
  Text, text_eq, text_eq_iff, has_prefix, has_suffix, trim_prefix, trim_suffix, drop_prefix,
  has_prefix-append, has_prefix_split, drop_prefix-append,
}
use gogateway.Router.{wildcard, match_path}

has_suffix-append : (s p : Text) → has_suffix (s ++ p) p ≡ true
unfolding has_suffix
has_suffix-append s p = rw reverse-append (has_prefix-append (reverse p) (reverse s))

trim_suffix-append : (s p : Text) → trim_suffix (s ++ p) p ≡ s
unfolding trim_suffix trim_prefix
trim_suffix-append s p =
    rw (reverse-append, has_prefix-append, drop_prefix-append) (reverse-reverse s)

has_prefix_iff :
    (path prefix : Text)
    → (has_prefix path prefix ≡ true) ↔ ((rest : Text) × (path ≡ prefix ++ rest))
has_prefix_iff path prefix = (
  λ h. (drop_prefix path prefix, sym (has_prefix_split path prefix h)),
  λ (rest, e). ap (λ (p : Text). has_prefix p prefix) e ∙ has_prefix-append prefix rest,
)

has_suffix_split : (s p : Text) → has_suffix s p ≡ true → s ≡ trim_suffix s p ++ p
unfolding has_suffix trim_suffix trim_prefix
has_suffix_split s p h = rw h (
    sym (reverse-reverse s)
    ∙ ap reverse (sym (has_prefix_split (reverse s) (reverse p) h))
    ∙ reverse-append (reverse p) (drop_prefix (reverse s) (reverse p))
    ∙ ap (λ (q : Text). reverse (drop_prefix (reverse s) (reverse p)) ++ q) (reverse-reverse p))

-- A pattern that ends in "/*" matches the paths that begin with what stands before it, and no
-- other; a slash need not follow. With nothing before it, it matches every path.
match_path-wildcard_iff :
    (prefix path : Text)
    → (match_path (prefix ++ wildcard) path ≡ true) ↔ ((rest : Text) × (path ≡ prefix ++ rest))
unfolding match_path
match_path-wildcard_iff prefix path =
    rw (has_suffix-append, trim_suffix-append)
      (elim (Bool-cases (text_eq prefix [])) [
        | inl e ↦ rw e (
          λ _. (path, sym (ap (λ (p : Text). p ++ path) ((text_eq_iff prefix []).0 e))),
          λ _. refl,
        )
        | inr e ↦ rw e (has_prefix_iff path prefix)
      ])

-- Any other pattern matches itself and no other path.
match_path-exact_iff :
    (pattern path : Text)
    → has_suffix pattern wildcard ≡ false
    → (match_path pattern path ≡ true) ↔ (pattern ≡ path)
unfolding match_path
match_path-exact_iff pattern path exact = rw exact (text_eq_iff pattern path)

-- The pattern is a prefix followed by "/*", and the path begins with the prefix; or it does not end
-- in "/*" and is the path.
abbrev pub MatchesPath : Text → Text → Type 0
MatchesPath pattern path =
    ((prefix : Text) × (rest : Text) × (pattern ≡ prefix ++ wildcard) × (path ≡ prefix ++ rest))
    ⊎ (((prefix : Text) → ¬ (pattern ≡ prefix ++ wildcard)) × (pattern ≡ path))

pub match_path_iff :
    (pattern path : Text) → (match_path pattern path ≡ true) ↔ MatchesPath pattern path
match_path_iff pattern path = elim (Bool-cases (has_suffix pattern wildcard)) [
  | inl ends ↦
      let prefix = trim_suffix pattern wildcard in
      let whole = has_suffix_split pattern wildcard ends in
      (
        λ h.
            let (rest, e) =
              (match_path-wildcard_iff prefix path).0
                (ap (λ (p : Text). match_path p path) (sym whole) ∙ h) in
            inl (prefix, rest, whole, e),
        λ h. elim h [
          | inl (q, rest, e, begins) ↦
              ap (λ (p : Text). match_path p path) e
              ∙ (match_path-wildcard_iff q path).1 (rest, begins)
          | inr (exact, e) ↦ absurd (exact prefix whole)
        ],
      )
  | inr exact ↦
      let not_ending : (q : Text) → ¬ (pattern ≡ q ++ wildcard) = λ q e.
        let ends = has_suffix-append q wildcard in
        let same = ap (λ (p : Text). has_suffix p wildcard) e in cc in
      (
        λ h. inr (not_ending, (match_path-exact_iff pattern path exact).0 h),
        λ h. elim h [
          | inl (q, rest, e, begins) ↦ absurd (not_ending q e)
          | inr (other, e) ↦ (match_path-exact_iff pattern path exact).1 e
        ],
      )
]
