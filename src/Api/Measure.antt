-- ===== src/Api/Measure.antt =====
-- internal/api/api_v1/metrics_middleware.go: `MWMetrics`. The route's pattern is what chi reports
-- for the request, `itoa` is `strconv.Itoa`; a handler that panics is not modelled.
pub mod Laws
use agreements_generator_api.Prelude.{
  ℕ, String, ◌==◌, ◌||◌, List, ◌∷◌, Option, none, some, if◌then◌else◌,
}
use agreements_generator_api.Prelude.Int.{inc, dec}
use agreements_generator_api.Metrics.{Metrics}
use agreements_generator_api.Service.{World}
use agreements_generator_api.Api.{Request, ResponseWriter, Handler}

-- `ww.Status()`, with 200 for 0.
unfoldable pub status_of : ResponseWriter → ℕ
status_of w = elim w.sent [ none ↦ 200 | some (status, _) ↦ status ]

abbrev pub entered : Metrics → Metrics
entered m = record m { http_requests_in_flight = inc m.http_requests_in_flight }

module _ (route_pattern : Request → String) (itoa : ℕ → String) where
  abbrev pub route_of : Request → String
  route_of r = if route_pattern r == "" then "unknown" else route_pattern r

  abbrev pub left : Request → ℕ → Metrics → Metrics
  left r status m = record m {
    http_requests_total = (r.method, route_of r, itoa status) ∷ m.http_requests_total;
    http_request_duration = (r.method, route_of r) ∷ m.http_request_duration;
    http_requests_in_flight = dec m.http_requests_in_flight;
  }

  module _ {S : Type 0} where
    unfoldable pub mw_metrics : Handler (World S) → Handler (World S)
    unfolding status_of
    mw_metrics next r w s =
        if (r.path == "/metrics") || (r.path == "/health")
        then next r w s
        else let (w', s') = next r w (record s { metrics = entered s.metrics }) in
          (w', record s' { metrics = left r (status_of w') s'.metrics })
