-- ===== src/Metrics/Sorted.antt =====
-- The sorted keys of internal/metrics/prometheus.go.
use gogateway.Base.{◌≡◌, true, false, List, [], ◌∷◌, All, Bool-cases, inl, inr, arith}
use mathlib.Core.List.{Perm}
use mathlib.Core.List.Perm
use gogateway.Base.Text.{Text}
use gogateway.Base.Maps.{Map}
use gogateway.Metrics.Render.{text_leb, insert_sorted, sorted_keys}

-- Each text stands before all that follow it.
abbrev pub IsAscending : List Text → Type 0
IsAscending [] = Unit
IsAscending (k ∷ ks) = All (λ j. text_leb k j ≡ true) ks × IsAscending ks

text_leb_total : (s t : Text) → text_leb s t ≡ false → text_leb t s ≡ true
unfolding text_leb
text_leb_total [] t h = ground arith
text_leb_total (x ∷ s) [] h = ground arith
text_leb_total (x ∷ s) (y ∷ t) h = ground (arith, text_leb_total s t)

text_leb_trans : (s t u : Text) → text_leb s t ≡ true → text_leb t u ≡ true → text_leb s u ≡ true
unfolding text_leb
text_leb_trans [] t u h k = ground arith
text_leb_trans (x ∷ s) [] u h k = ground arith
text_leb_trans (x ∷ s) (y ∷ t) [] h k = ground arith
text_leb_trans (x ∷ s) (y ∷ t) (z ∷ u) h k = ground (arith, text_leb_trans s t u)

All-leb_trans :
    (k j : Text) (ks : List Text)
    → text_leb k j ≡ true
    → All (λ i. text_leb j i ≡ true) ks
    → All (λ i. text_leb k i ≡ true) ks
All-leb_trans k j [] h all = tt
All-leb_trans k j (i ∷ ks) h (here, all) = (text_leb_trans k j i h here, All-leb_trans k j ks h all)

All-insert_sorted :
    (P : Text → Type 0) (k : Text) (ks : List Text) → P k → All P ks → All P (insert_sorted k ks)
unfolding insert_sorted
All-insert_sorted P k [] p all = (p, tt)
All-insert_sorted P k (j ∷ ks) p (here, all) = elim (Bool-cases (text_leb k j)) [
  | inl before ↦ rw before (p, (here, all))
  | inr after ↦ rw after (here, All-insert_sorted P k ks p all)
]

insert_sorted-IsAscending :
    (k : Text) (ks : List Text) → IsAscending ks → IsAscending (insert_sorted k ks)
unfolding insert_sorted
insert_sorted-IsAscending k [] asc = (tt, tt)
insert_sorted-IsAscending k (j ∷ ks) (here, asc) = elim (Bool-cases (text_leb k j)) [
  | inl before ↦ rw before ((before, All-leb_trans k j ks before here), (here, asc))
  | inr after ↦ rw after (
    All-insert_sorted (λ i. text_leb j i ≡ true) k ks (text_leb_total k j after) here,
    insert_sorted-IsAscending k ks asc,
  )
]

insert_sorted-Perm : (k : Text) (ks : List Text) → Perm (insert_sorted k ks) (k ∷ ks)
unfolding insert_sorted
insert_sorted-Perm k [] = Perm.refl (k ∷ [])
insert_sorted-Perm k (j ∷ ks) = elim (Bool-cases (text_leb k j)) [
  | inl before ↦ rw before (Perm.refl (k ∷ j ∷ ks))
  | inr after ↦ rw after (Perm.trans (Perm.cons j (insert_sorted-Perm k ks)) (Perm.swap k j ks))
]

module _ {ℓ} {V : Type ℓ} where
  abbrev pub keys : Map V → List Text
  keys [] = []
  keys ((k, v) ∷ m) = k ∷ keys m

  -- The sorted keys ascend, and are the keys of the map, each as often as it has entries there.
  pub sorted_keys-IsAscending :
      (m : Map V) → IsAscending (sorted_keys m) × Perm (sorted_keys m) (keys m)
  unfolding sorted_keys
  sorted_keys-IsAscending [] = (tt, Perm.refl [])
  sorted_keys-IsAscending ((k, v) ∷ m) =
      let (asc, perm) = sorted_keys-IsAscending m in
      (
        insert_sorted-IsAscending k (sorted_keys m) asc,
        Perm.trans (insert_sorted-Perm k (sorted_keys m)) (Perm.cons k perm),
      )
