-- ===== src/Api/Measure/Laws.antt =====
-- What `MWMetrics` counts, over any number of requests.
use agreements_generator_api.Prelude.{
  ℕ, ◌≡◌, refl, ap, ◌∙◌, String, ◌==◌, eq_iff, ◌||◌, not, Bool, false, Bool-cases, inl, inr,
  if◌then◌else◌, List, [], ◌∷◌, Option, none, some, arith, Option-cases,
}
use agreements_generator_api.Prelude.Int.{dec-inc}
use agreements_generator_api.Metrics.{Metrics}
use agreements_generator_api.Service.{World}
use agreements_generator_api.Api.{Request, ResponseWriter, Handler}
use agreements_generator_api.Api.Measure.{status_of, entered, left, mw_metrics}
use text.Mathlib.TextLemmas.{cons-ne-nil}

-- The label of a route: a request without a pattern has met none.
abbrev pub route_label : String → String
route_label String.[] = "unknown"
route_label (String.◌∷◌ c s) = String.◌∷◌ c s

-- The status that a client reads: net/http sends 200 where the handler has sent none.
abbrev pub status_label : Option (ℕ × Option String) → ℕ
status_label none = 200
status_label (some (status, _)) = status

-- The scrapes and the probes are not measured.
abbrev pub is_measured : String → Bool
is_measured path = not ((path == "/metrics") || (path == "/health"))

-- Requests that are served one after the other, each with the writer of its answer.
abbrev pub served :
    {S : Type 0}
    → Handler (World S)
    → List (Request × ResponseWriter)
    → World S
    → List (Request × ResponseWriter) × World S
served handler [] s = ([], s)
served handler ((r, w) ∷ rest) s =
    let (w', s') = handler r w s in
    let (answers, last) = served handler rest s' in ((r, w') ∷ answers, last)

-- A handler that answers alike whatever the metrics are, and leaves those of HTTP as they are.
abbrev pub LeavesHttp : {S : Type 0} → Handler (World S) → Type 0
LeavesHttp {S = S} next =
    (r : Request) (w : ResponseWriter) (s : World S) (m : Metrics)
    → (m' : Metrics) × (next r w (record s { metrics = m })
        ≡ ((next r w s).0, record (next r w s).1 { metrics = m' }))
      × (m'.http_requests_in_flight ≡ m.http_requests_in_flight)
      × (m'.http_requests_total ≡ m.http_requests_total)

route_label-eq : (p : String) → (if p == "" then "unknown" else p) ≡ route_label p
route_label-eq String.[] = refl
route_label-eq (String.◌∷◌ c s) =
    let given : (String.◌∷◌ c s == "") ≡ false =
      ground (arith, eq_iff (String.◌∷◌ c s) "", cons-ne-nil c s) in
    rw given refl

status_label-eq : (w : ResponseWriter) → status_of w ≡ status_label w.sent
unfolding status_of
status_label-eq w = elim (Option-cases w.sent) [
  | inl e ↦ rw (status_of, e) refl
  | inr ((status, t), e) ↦ rw (status_of, e) refl
]

module _ (route_pattern : Request → String) (itoa : ℕ → String) where
  -- The labels of a request that was answered, and the counter after it.
  abbrev pub counted :
      Request → ResponseWriter → List (String × String × String) → List (String × String × String)
  counted r w total =
      if is_measured r.path
      then (r.method, route_label (route_pattern r), itoa (status_label w.sent)) ∷ total
      else total

  abbrev pub tally :
      List (Request × ResponseWriter)
      → List (String × String × String)
      → List (String × String × String)
  tally [] total = total
  tally ((r, w) ∷ rest) total = tally rest (counted r w total)

  module _ {S : Type 0} (next : Handler (World S)) (leaves : LeavesHttp next) where
    mw_metrics-LeavesHttp :
        (r : Request) (w : ResponseWriter) (s : World S) (m : Metrics)
        → (m' : Metrics) × (mw_metrics route_pattern itoa next r w (record s { metrics = m })
            ≡ ((next r w s).0, record (next r w s).1 { metrics = m' }))
          × (m'.http_requests_in_flight ≡ m.http_requests_in_flight)
          × (m'.http_requests_total ≡ counted r (next r w s).0 m.http_requests_total)
    unfolding mw_metrics
    mw_metrics-LeavesHttp r w s m =
        elim (Bool-cases ((r.path == "/metrics") || (r.path == "/health"))) [
          | inl b ↦ rw (b) (leaves r w s m)
          | inr b ↦
              let (m', e, g, c) = leaves r w s (entered m) in
              (
                left route_pattern itoa r (status_of (next r w s).0) m',
                rw (b, e) refl,
                rw (g, dec-inc) refl,
                rw (b, c, route_label-eq, status_label-eq) refl,
              )
        ]

    served-counts :
        (requests : List (Request × ResponseWriter)) (s : World S) (m : Metrics)
        → let (plain, bare) = served next requests s in
          (m' : Metrics) × (served
              (mw_metrics route_pattern itoa next)
              requests
              (record s { metrics = m })
            ≡ (plain, record bare { metrics = m' }))
          × (m'.http_requests_in_flight ≡ m.http_requests_in_flight)
          × (m'.http_requests_total ≡ tally plain m.http_requests_total)
    served-counts [] s m = (m, refl, refl, refl)
    served-counts ((r, w) ∷ rest) s m =
        let (m1, e, g, c) = mw_metrics-LeavesHttp r w s m in
        let (m2, e', g', c') = served-counts rest (next r w s).1 m1 in
        (m2, rw (e, e') refl, g' ∙ g, c' ∙ ap (tally (served next rest (next r w s).1).0) c)

    -- Around a handler that answers alike whatever the metrics are and leaves those of HTTP alone, the
    -- middleware changes no answer, no state but the metrics and no goroutine, over any requests;
    -- afterwards the gauge of requests in flight is what it was, and each request but those of
    -- /metrics and /health is counted once, in their order, under its method, its route, or "unknown"
    -- where it has met none, and the status that went out, 200 where the handler sent none.
    pub mw_metrics_counts :
        (requests : List (Request × ResponseWriter)) (s : World S)
        → let (answers, last) = served (mw_metrics route_pattern itoa next) requests s in
          let (plain, bare) = served next requests s in
          (answers ≡ plain)
          × (last.env ≡ bare.env)
          × (last.running ≡ bare.running)
          × (last.metrics.http_requests_in_flight ≡ s.metrics.http_requests_in_flight)
          × (last.metrics.http_requests_total ≡ tally plain s.metrics.http_requests_total)
    mw_metrics_counts requests s =
        let (m', e, g, c) = served-counts requests s s.metrics in
        (
          ap (λ p. p.0) e,
          ap (λ p. p.1.env) e,
          ap (λ p. p.1.running) e,
          ap (λ p. p.1.metrics.http_requests_in_flight) e ∙ g,
          ap (λ p. p.1.metrics.http_requests_total) e ∙ c,
        )
