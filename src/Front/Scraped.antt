-- ===== src/Front/Scraped.antt =====
-- The metrics server of internal/metrics/prometheus.go answers every request.
use gogateway.Base.{◌≡◌, refl, Bool, true, false, Option, some, List, [], ◌∷◌, if◌then◌else◌}
use gogateway.Base.Text.{Text, text, text_eq}
use gogateway.Http.{Request}
use gogateway.Metrics.{Floats, new_metrics}
use gogateway.Metrics.Scrape.{Event, apply_all}
use gogateway.Metrics.Output.{render-apply_all}
use gogateway.Server.Recorder.{ResponseWriter}
use gogateway.Front.Mux.{MuxAnswer, MuxChoice, by_mux, registered, mux_handler}
use gogateway.Front.Entry.{NetHttp, EntryReadings, scrape, serve_metrics}

abbrev Answers : Option ResponseWriter → Type 0
Answers o = (w : ResponseWriter) × (o ≡ some w)

Answers-if :
    (c : Bool) (t e : Option ResponseWriter) → Answers t → Answers e → Answers (if c then t else e)
Answers-if true t e p q = p
Answers-if false t e p q = q

Answers-choice :
    (choice : MuxChoice) (own : MuxAnswer → ResponseWriter) (go : Text → Option ResponseWriter)
    → ((pattern : Text) → Answers (go pattern))
    → Answers (elim choice as (λ (x : MuxChoice). Option ResponseWriter) [
      | by_mux answer ↦ some (own answer)
      | registered pattern ↦ go pattern
    ])
Answers-choice (by_mux answer) own go p = (own answer, refl)
Answers-choice (registered pattern) own go p = p pattern

module _ {F : Type 0} (floats : Floats F) (print : F → Text) (net : NetHttp) where
  -- The metrics server answers each request without a panic, whatever the metrics were told before
  -- and with whatever texts as labels: its mux answers, or the health handler does, or the scrape.
  pub serve_metrics-answers :
      (events : List Event) (entry : EntryReadings) (r : Request) (w : ResponseWriter)
      → (w' : ResponseWriter) × (serve_metrics floats print net entry
            (apply_all floats events (new_metrics floats))
            r
            w
          ≡ some w')
  unfolding serve_metrics scrape
  serve_metrics-answers events entry r w =
      let m = apply_all floats events (new_metrics floats) in
      let (body, rendered) = render-apply_all floats print events in
      Answers-choice (mux_handler net.escaped_path (text "/metrics" ∷ text "/health" ∷ []) r) _ _
        (λ pattern.
          Answers-if (text_eq pattern (text "/health")) _ _ (_, refl)
            (rw (scrape, rendered) (_, refl)))
