-- ===== src/Metrics/Total.antt =====
-- The output of internal/metrics/prometheus.go is always produced.
use gogateway.Base.{
  ℕ, suc, ◌≤◌, ◌≡◌, refl, Bool, true, false, Option, none, some, List, [], ◌∷◌, ◌++◌, All, length,
  Bool-cases, inl, inr, arith,
}
use gogateway.Base.Text.{Text, text_eq}
use gogateway.Base.Maps.{Map, insert}
use gogateway.Metrics.{join_labels}
use gogateway.Metrics.Render.{
  extend, split, text_leb, insert_sorted, sorted_keys, pairs, format_labels, merge_labels, each,
}

abbrev pub Produces : Option Text → Type 0
Produces o = (out : Text) × (o ≡ some out)

length-extend : (c : ℕ) (parts : List Text) → length parts ≤ length (extend c parts)
length-extend c [] = omega arith
length-extend c (part ∷ parts) = omega arith

length-split-join : (l s : Text) → suc (length (split s)) ≤ length (split (l ++ 0 ∷ s))
unfolding split
length-split-join [] s = omega arith
length-split-join (c ∷ l) s =
    ground (arith, length-split-join l s, length-extend c (split (l ++ 0 ∷ s)))

length-split : (s : Text) → 1 ≤ length (split s)
unfolding split
length-split [] = omega arith
length-split (c ∷ s) = ground (arith, length-split s, length-extend c (split s))

-- Splitting a key gives at least the labels that were joined.
pub length-split-join_labels :
    (l : Text) (ls : List Text) → length (l ∷ ls) ≤ length (split (join_labels (l ∷ ls)))
unfolding join_labels
length-split-join_labels l [] = length-split l
length-split-join_labels l (m ∷ ls) =
    omega (arith, length-split-join l (join_labels (m ∷ ls)), length-split-join_labels m ls)

-- The next step of an output.
pub Produces-then :
    (o : Option Text) (g : Text → Option Text)
    → Produces o
    → ((piece : Text) → Produces (g piece))
    → Produces (elim o as (λ (x : Option Text). Option Text) [ none ↦ none | some x ↦ g x ])
Produces-then none g (out, e) next = ground arith
Produces-then (some piece) g p next = next piece

pairs-Produces :
    (comma : Bool) (names vals : List Text)
    → length names ≤ length vals
    → Produces (pairs comma names vals)
unfolding pairs
pairs-Produces comma [] vals le = ([], refl)
pairs-Produces comma (n ∷ names) [] le = ground arith
pairs-Produces comma (n ∷ names) (v ∷ vals) le =
    Produces-then _ _ (pairs-Produces true names vals (omega arith)) (λ rest. (_, refl))

pub format_labels-Produces :
    (names vals : List Text) → length names ≤ length vals → Produces (format_labels names vals)
unfolding format_labels
format_labels-Produces [] vals le = ([], refl)
format_labels-Produces (n ∷ names) vals le =
    Produces-then _ _ (pairs-Produces false (n ∷ names) vals le) (λ inner. (_, refl))

pub merge_labels-Produces :
    (names vals : List Text) (k v : Text)
    → length names ≤ length vals
    → Produces (merge_labels names vals k v)
unfolding merge_labels
merge_labels-Produces names vals k v le =
    Produces-then _ _ (pairs-Produces false names vals le) (λ inner. (_, refl))

pub each-Produces {ℓ} :
    {A : Type ℓ} (f : A → Option Text) (xs : List A)
    → All (λ x. Produces (f x)) xs
    → Produces (each f xs)
unfolding each
each-Produces f [] all = ([], refl)
each-Produces f (x ∷ xs) (this, all) =
    Produces-then _ _ this (λ piece. Produces-then _ _ (each-Produces f xs all) (λ rest. (_, refl)))

All-insert_sorted :
    (P : Text → Type 0) (k : Text) (ks : List Text) → P k → All P ks → All P (insert_sorted k ks)
unfolding insert_sorted
All-insert_sorted P k [] h all = (h, tt)
All-insert_sorted P k (j ∷ ks) h (here, all) = elim (Bool-cases (text_leb k j)) [
  | inl first ↦ rw first (h, (here, all))
  | inr later ↦ rw later (here, All-insert_sorted P k ks h all)
]

module _ {V : Type 0} (P : Text → Type 0) where
  abbrev pub AllKeys : Map V → Type 0
  AllKeys [] = Unit
  AllKeys ((k, v) ∷ m) = P k × AllKeys m

  pub AllKeys-insert : (k : Text) (v : V) (m : Map V) → P k → AllKeys m → AllKeys (insert k v m)
  unfolding insert
  AllKeys-insert k v [] h all = (h, tt)
  AllKeys-insert k v ((j, w) ∷ m) h (here, all) = elim (Bool-cases (text_eq j k)) [
    | inl same ↦ rw same (here, all)
    | inr other ↦ rw other (here, AllKeys-insert k v m h all)
  ]

  pub All-sorted_keys : (m : Map V) → AllKeys m → All P (sorted_keys m)
  unfolding sorted_keys
  All-sorted_keys [] all = tt
  All-sorted_keys ((k, v) ∷ m) (here, all) =
      All-insert_sorted P k (sorted_keys m) here (All-sorted_keys m all)
