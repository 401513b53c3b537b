-- ===== src/Metrics/Labels.antt =====
-- The keys of internal/metrics/prometheus.go: label values joined by a zero byte.
use gogateway.Base.{◌≡◌, refl, ap, ◌∙◌, false, List, [], ◌∷◌, ◌++◌, All, arith}
use gogateway.Base.Text.{Text, has}
use gogateway.Metrics.{join_labels}
use gogateway.Metrics.Render.{split}

-- The text has no zero byte.
abbrev pub Unbroken : Text → Type 0
Unbroken s = has 0 s ≡ false

split-Unbroken : (s : Text) → Unbroken s → split s ≡ s ∷ []
unfolding split
split-Unbroken [] h = refl
split-Unbroken (c ∷ s) h = ground (arith, split-Unbroken s)

split-append : (s t : Text) → Unbroken s → split (s ++ 0 ∷ t) ≡ s ∷ split t
unfolding split
split-append [] t h = refl
split-append (c ∷ s) t h = ground (arith, split-append s t)

-- Splitting a key gives back the labels that were joined, if there is one at least and none has a
-- zero byte.
pub split-join_labels :
    (l : Text) (ls : List Text) → All Unbroken (l ∷ ls) → split (join_labels (l ∷ ls)) ≡ l ∷ ls
unfolding join_labels
split-join_labels l [] (h, rest) = split-Unbroken l h
split-join_labels l (m ∷ ls) (h, rest) =
    split-append l (join_labels (m ∷ ls)) h
    ∙ ap (λ (ms : List Text). l ∷ ms) (split-join_labels m ls rest)
