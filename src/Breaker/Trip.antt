-- ===== src/Breaker/Trip.antt =====
-- When a breaker trips: `RecordFailure` and `RecordSuccess` of internal/middleware/circuitbreaker.go
-- against a description of the calls alone.
use gogateway.Base.{
  ℕ, suc, ◌+◌, ◌≤◌, ◌<◌, ◌≡◌, refl, ◌↔◌, ◌⊎◌, inl, inr, Bool, true, false, ◌||◌, List, [], ◌∷◌,
  ◌++◌, ap, sym, ◌∙◌, if◌then◌else◌, leb, Bool-cases, arith,
}
use gogateway.Base.Int.{pos, incr-pos, ◌≤ℤ◌, max_int}
use gogateway.Base.Clock.{Time, zero_time}
use gogateway.Config.{CircuitBrkCfg}
use gogateway.Breaker.{
  CircuitState, CircuitBreaker, state_closed, state_open, state_half_open, new_circuit_breaker,
}
use gogateway.Breaker.History.{Call, asked, failed, succeeded, step}

abbrev pub is_open : CircuitState → Bool
is_open state_closed = false
is_open state_open = true
is_open state_half_open = false

-- Whether the breaker is open at the start, or after some of the calls.
unfoldable pub ever_open : List Call → CircuitBreaker → Bool
ever_open [] cb = is_open cb.state
ever_open (c ∷ cs) cb = is_open cb.state || ever_open cs (step c cb)

abbrev pub failures : List Call → ℕ
failures [] = 0
failures (asked now ∷ cs) = failures cs
failures (failed now later ∷ cs) = suc (failures cs)
failures (succeeded ∷ cs) = failures cs

abbrev pub successes : List Call → ℕ
successes [] = 0
successes (asked now ∷ cs) = successes cs
successes (failed now later ∷ cs) = successes cs
successes (succeeded ∷ cs) = suc (successes cs)

-- Some stretch of the calls has `k` failures and no success.
pub record HasBurst (k : ℕ) (cs : List Call) : Type 0 where
  pub before : List Call
  pub during : List Call
  pub rest : List Call
  pub split : cs ≡ before ++ (during ++ rest)
  pub none_succeeds : successes during ≡ 0
  pub enough_fail : k ≤ failures during

-- The calls begin with such a stretch, `c` failures being counted already.
record Begins (k c : ℕ) (cs : List Call) : Type 0 where
  during : List Call
  rest : List Call
  split : cs ≡ during ++ rest
  none_succeeds : successes during ≡ 0
  enough_fail : k ≤ c + failures during

bursts : ℕ → ℕ → List Call → Bool
bursts k c [] = false
bursts k c (asked now ∷ cs) = bursts k c cs
bursts k c (failed now later ∷ cs) = leb k (c + 1) || bursts k (c + 1) cs
bursts k c (succeeded ∷ cs) = bursts k 0 cs

module _ (k : ℕ) where
  HasBurst-cons : (c : Call) (cs : List Call) → HasBurst k cs → HasBurst k (c ∷ cs)
  HasBurst-cons c cs b = record {
    before = c ∷ b.before;
    during = b.during;
    rest = b.rest;
    split = ap (λ (l : List Call). c ∷ l) b.split;
    none_succeeds = b.none_succeeds;
    enough_fail = b.enough_fail;
  }

  HasBurst-of_Begins : (cs : List Call) → Begins k 0 cs → HasBurst k cs
  HasBurst-of_Begins cs b = record {
    before = [];
    during = b.during;
    rest = b.rest;
    split = b.split;
    none_succeeds = b.none_succeeds;
    enough_fail = omega arith;
  }

  bursts_sound : (c : ℕ) (cs : List Call) → bursts k c cs ≡ true → Begins k c cs ⊎ HasBurst k cs
  unfolding bursts
  bursts_sound c [] h = ground arith
  bursts_sound c (asked now ∷ cs) h = elim (bursts_sound c cs h) [
    | inl b ↦ inl (record {
      during = asked now ∷ b.during;
      rest = b.rest;
      split = ap (λ (l : List Call). asked now ∷ l) b.split;
      none_succeeds = b.none_succeeds;
      enough_fail = b.enough_fail;
    })
    | inr b ↦ inr (HasBurst-cons (asked now) cs b)
  ]
  bursts_sound c (failed now later ∷ cs) h = elim (Bool-cases (leb k (c + 1))) [
    | inl yes' ↦ inl (record {
      during = failed now later ∷ [];
      rest = cs;
      split = refl;
      none_succeeds = refl;
      enough_fail = ground arith;
    })
    | inr no' ↦ elim (bursts_sound (c + 1) cs (ground arith)) [
      | inl b ↦ inl (record {
        during = failed now later ∷ b.during;
        rest = b.rest;
        split = ap (λ (l : List Call). failed now later ∷ l) b.split;
        none_succeeds = b.none_succeeds;
        enough_fail = let e = b.enough_fail in omega arith;
      })
      | inr b ↦ inr (HasBurst-cons (failed now later) cs b)
    ]
  ]
  bursts_sound c (succeeded ∷ cs) h = elim (bursts_sound 0 cs h) [
    | inl b ↦ inr (HasBurst-cons succeeded cs (HasBurst-of_Begins cs b))
    | inr b ↦ inr (HasBurst-cons succeeded cs b)
  ]

  -- A stretch at the front is found, whatever follows it.
  bursts-begin :
      (c : ℕ) (during rest : List Call)
      → c < k
      → successes during ≡ 0
      → k ≤ c + failures during
      → bursts k c (during ++ rest) ≡ true
  unfolding bursts
  bursts-begin c [] rest lt s f = absurd (omega arith)
  bursts-begin c (asked now ∷ during) rest lt s f = bursts-begin c during rest lt s f
  bursts-begin c (failed now later ∷ during) rest lt s f =
      ground (arith, bursts-begin (c + 1) during rest)
  bursts-begin c (succeeded ∷ during) rest lt s f = absurd (omega arith)

  bursts_complete :
      (c : ℕ) (before during rest : List Call)
      → c < k
      → successes during ≡ 0
      → k ≤ failures during
      → bursts k c (before ++ (during ++ rest)) ≡ true
  unfolding bursts
  bursts_complete c [] during rest lt s f = bursts-begin c during rest lt s (omega arith)
  bursts_complete c (asked now ∷ before) during rest lt s f =
      bursts_complete c before during rest lt s f
  bursts_complete c (failed now later ∷ before) during rest lt s f =
      ground (arith, bursts_complete (c + 1) before during rest)
  bursts_complete c (succeeded ∷ before) during rest lt s f =
      bursts_complete 0 before during rest (omega arith) s f

abbrev counting : CircuitBrkCfg → ℕ → Time → Time → CircuitBreaker
counting cfg c last opened = record {
  state = state_closed;
  failure_count = pos c;
  last_failure = last;
  open_time = opened;
  config = cfg;
}

module _ (cfg : CircuitBrkCfg) (c : ℕ) (last opened : Time) where
  step-asked_closed :
      (now : Time) → step (asked now) (counting cfg c last opened) ≡ counting cfg c last opened
  unfolding step
  step-asked_closed now = refl

  step-succeeded_closed : step succeeded (counting cfg c last opened) ≡ counting cfg 0 last opened
  unfolding step
  step-succeeded_closed = refl

ever_open_of_open :
    (cs : List Call) (cb : CircuitBreaker) → cb.state ≡ state_open → ever_open cs cb ≡ true
unfolding ever_open
ever_open_of_open [] cb h = rw h
ever_open_of_open (c ∷ cs) cb h = rw h

module _ (k : ℕ) (cfg : CircuitBrkCfg) (same : cfg.threshold ≡ pos k)
    (fits : pos k ≤ℤ max_int) where
  -- One failure of a closed breaker.
  step-failed_closed :
      (c : ℕ) (last opened now later : Time)
      → c < k
      → step (failed now later) (counting cfg c last opened) ≡ (
          if leb k (c + 1)
          then record (counting cfg (c + 1) now later) { state = state_open }
          else counting cfg (c + 1) now opened)
  unfolding step
  step-failed_closed c last opened now later lt = ground (arith, incr-pos c)

  -- While closed, the breaker's counter is the number of failures since the last success.
  ever_open-eq-bursts :
      (cs : List Call) (c : ℕ) (last opened : Time)
      → c < k
      → ever_open cs (counting cfg c last opened) ≡ bursts k c cs
  unfolding ever_open bursts
  ever_open-eq-bursts [] c last opened lt = refl
  ever_open-eq-bursts (asked now ∷ cs) c last opened lt =
      rw (step-asked_closed cfg c last opened now) (ever_open-eq-bursts cs c last opened lt)
  ever_open-eq-bursts (failed now later ∷ cs) c last opened lt =
      rw (step-failed_closed c last opened now later lt) (elim (Bool-cases (leb k (c + 1))) [
        | inl e ↦ rw e (ever_open_of_open cs _ refl)
        | inr e ↦ rw e (ever_open-eq-bursts cs (c + 1) now opened (ground arith))
      ])
  ever_open-eq-bursts (succeeded ∷ cs) c last opened lt =
      rw (step-succeeded_closed cfg c last opened)
        (ever_open-eq-bursts cs 0 last opened (omega arith))

-- A new breaker with a positive threshold is open at some moment of a sequence of calls exactly
-- when some stretch of the calls has that many failures and no success.
pub opens_iff_burst :
    (k : ℕ) (cfg : CircuitBrkCfg)
    → cfg.threshold ≡ pos k
    → pos k ≤ℤ max_int
    → 0 < k
    → (cs : List Call) → (ever_open cs (new_circuit_breaker cfg) ≡ true) ↔ HasBurst k cs
unfolding new_circuit_breaker
opens_iff_burst k cfg same fits positive cs =
    let same_as = ever_open-eq-bursts k cfg same fits cs 0 zero_time zero_time positive in
    (
      λ h. elim (bursts_sound k 0 cs (sym same_as ∙ h)) [
        | inl b ↦ HasBurst-of_Begins k cs b
        | inr b ↦ b
      ],
      λ b.
          same_as
          ∙ ap (bursts k 0) b.split
          ∙ bursts_complete k 0 b.before b.during b.rest positive b.none_succeeds b.enough_fail,
    )
