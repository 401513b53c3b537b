-- ===== src/Metrics/Printed.antt =====
-- The lines that `renderCounterMap` of internal/metrics/prometheus.go prints.
use gogateway.Base.{◌≡◌, sym, Option, some, List, [], ◌∷◌, ◌++◌, Option-cases, inl, inr, arith}
use mathlib.Core.Option.{some-injective}
use mathlib.Core.List.{Perm}
use gogateway.Base.Text.{Text}
use gogateway.Base.Maps.{Map, lookup}
use gogateway.Metrics.{Floats, or_zero}
use gogateway.Metrics.Render.{split, sorted_keys, format_labels, each, line, labelled, render_map}
use gogateway.Metrics.Sorted.{IsAscending, keys, sorted_keys-IsAscending}

module _ {F : Type 0} (floats : Floats F) (print : F → Text) (name : Text) (names : List Text)
    (values : Map F) where
  -- The text is one line for each key: the name, the labels with the parts of the key as their
  -- values, and the value at the key.
  abbrev pub Lines : List Text → Text → Type 0
  Lines [] out = out ≡ []
  Lines (key ∷ ks) out =
      (ls : Text) × (rest : Text) × (format_labels names (split key) ≡ some ls)
      × (out ≡ line name ls (print (or_zero floats (lookup key values))) ++ rest)
      × Lines ks rest

  abbrev one_line : Text → Option Text
  one_line key =
      labelled name (format_labels names (split key)) (print (or_zero floats (lookup key values)))

  each-Lines : (ks : List Text) (out : Text) → each one_line ks ≡ some out → Lines ks out
  unfolding each
  each-Lines [] out made = sym (some-injective [] out made)
  each-Lines (key ∷ ks) out made = elim (Option-cases (format_labels names (split key))) [
    | inl broken ↦ ground arith
    | inr (ls, labels) ↦ elim (Option-cases (each one_line ks)) [
      | inl broken ↦ ground arith
      | inr (rest, more) ↦ (ls, rest, labels, ground arith, each-Lines ks rest more)
    ]
  ]

  -- What is printed of a vector of counters has one line for each key of its map, as often as the map
  -- has the key, in the order of the keys, with the labels that the key holds and the value that the
  -- map has for it, and nothing else, if it is printed without a panic.
  pub render_map-Lines :
      (out : Text)
      → render_map floats print name names values ≡ some out
      → (ks : List Text) × IsAscending ks × Perm ks (keys values) × Lines ks out
  unfolding render_map
  render_map-Lines out made =
      let (ascending, same) = sorted_keys-IsAscending values in
      (sorted_keys values, ascending, same, each-Lines (sorted_keys values) out made)
