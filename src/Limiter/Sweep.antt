-- ===== src/Limiter/Sweep.antt =====
-- The periodic clean-up of internal/middleware/ratelimit.go against a limiter that never cleans up.
use mathlib.Core.Path.{ap₂}
use gogateway.Base.{
  ◌≡◌, refl, inl, inr, true, Option, none, some, List, [], ◌∷◌, Bool-cases, ap, sym, arith,
}
use gogateway.Base.Int.{ℤ, ◌≤ℤ◌}
use gogateway.Base.Clock.{Time, Duration, after}
use gogateway.Base.Text.{Text, text_eq}
use gogateway.Base.Maps.{lookup}
use gogateway.Limiter.{MemoryEntry, Entries, Verdict, counted, verdict, allow_key, clean_expired}
use gogateway.Limiter.Entries.{lookup-allow_key, kept, lookup-clean_expired}

-- What takes the limiter's mutex: a request, or a tick of the clean-up.
pub data Op : Type 0 where
  request : Text → ℤ → Duration → Time → Time → Op
  tick : Time → Op

-- The answers to the requests, in order.
unfoldable pub answers : List Op → Entries → List Verdict
answers [] m = []
answers (request key limit window now later ∷ ops) m =
    let (m', v) = allow_key key limit window now later m in v ∷ answers ops m'
answers (tick now ∷ ops) m = answers ops (clean_expired now m)

abbrev pub without_ticks : List Op → List Op
without_ticks [] = []
without_ticks (request key limit window now later ∷ ops) =
    request key limit window now later ∷ without_ticks ops
without_ticks (tick now ∷ ops) = without_ticks ops

-- The clock does not go back from one operation to the next, and starts at `t` or later.
abbrev pub Advances : Time → List Op → Type 0
Advances t [] = Unit
Advances t (request key limit window now later ∷ ops) = (t ≤ℤ now) × Advances now ops
Advances t (tick now ∷ ops) = (t ≤ℤ now) × Advances now ops

-- The swept entry is the other's, or the other has expired and was dropped.
data Swept (t : Time) (swept full : Option MemoryEntry) : Type 0 where
  same : swept ≡ full → Swept t swept full
  dropped :
      (e : MemoryEntry)
      → swept ≡ none
      → full ≡ some e
      → after t e.reset_at ≡ true
      → Swept t swept full

abbrev Similar : Time → Entries → Entries → Type 0
Similar t m n = (j : Text) → Swept t (lookup j m) (lookup j n)

module _ (t now : Time) (le : t ≤ℤ now) where
  counted_same :
      (window : Duration) (a b : Option MemoryEntry)
      → Swept t a b
      → counted window now a ≡ counted window now b
  unfolding counted
  counted_same window a b (same e) = ap (counted window now) e
  counted_same window a b (dropped e gone there old) = ground arith

  Swept-later : (a b : Option MemoryEntry) → Swept t a b → Swept now a b
  Swept-later a b (same e) = same e
  Swept-later a b (dropped e gone there old) = dropped e gone there (ground arith)

  kept-Swept : (a b : Option MemoryEntry) → Swept t a b → Swept now (kept now a) b
  kept-Swept a b (dropped e gone there old) = dropped e (ap (kept now) gone) there (ground arith)
  kept-Swept none b (same e) = same e
  kept-Swept (some v) b (same e) = elim (Bool-cases (after now v.reset_at)) [
    | inl old ↦ dropped v (rw old) (sym e) old
    | inr live ↦ same (rw live e)
  ]

-- The two answers are equal, and the entries are similar again.
request-Similar :
    (t : Time) (key : Text) (limit : ℤ) (window : Duration) (now later : Time) (m n : Entries)
    → t ≤ℤ now
    → Similar t m n
    → ((allow_key key limit window now later m).1 ≡ (allow_key key limit window now later n).1)
      × Similar now
          (allow_key key limit window now later m).0
          (allow_key key limit window now later n).0
request-Similar t key limit window now later m n le s =
    let entries = counted_same t now le window (lookup key m) (lookup key n) (s key) in
    (
      unfold allow_key in ap (verdict limit later) entries,
      λ j. elim (Bool-cases (text_eq key j)) [
        | inl e ↦ simp (lookup-allow_key, e) (same (ap some entries))
        | inr e ↦ simp (lookup-allow_key, e) (Swept-later t now le _ _ (s j))
      ],
    )

tick-Similar :
    (t now : Time) (m n : Entries) → t ≤ℤ now → Similar t m n → Similar now (clean_expired now m) n
tick-Similar t now m n le s j = rw lookup-clean_expired (kept-Swept t now le _ _ (s j))

answers-Similar :
    (t : Time) (ops : List Op) (m n : Entries)
    → Similar t m n
    → Advances t ops
    → answers ops m ≡ answers (without_ticks ops) n
unfolding answers
answers-Similar t [] m n s adv = refl
answers-Similar t (request key limit window now later ∷ ops) m n s adv =
    let (equal, similar) = request-Similar t key limit window now later m n adv.0 s in
    ap₂ (λ (v : Verdict) (vs : List Verdict). v ∷ vs) equal
      (answers-Similar now ops _ _ similar adv.1)
answers-Similar t (tick now ∷ ops) m n s adv =
    answers-Similar now ops (clean_expired now m) n (tick-Similar t now m n adv.0 s) adv.1

-- Whatever the requests and whenever the clean-up runs between them, every request gets the answer
-- that it would get if expired entries were never removed. The clock does not go back.
pub answers-without_ticks :
    (t : Time) (ops : List Op) (m : Entries)
    → Advances t ops
    → answers ops m ≡ answers (without_ticks ops) m
answers-without_ticks t ops m adv = answers-Similar t ops m m (λ j. same refl) adv
