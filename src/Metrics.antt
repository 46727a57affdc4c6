-- ===== src/Metrics.antt =====
-- internal/metrics/metrics.go: the metrics that the program writes. A vector is the list of the
-- labels of its increments or observations, latest first; a gauge is an integer. Durations are
-- measured against the clock and are left out: a histogram keeps the labels it was observed with.
use agreements_generator_api.Prelude.{String, List, [], ◌∷◌}
use agreements_generator_api.Prelude.Int.{ℤ, pos, inc, dec}

-- Labels: mode and result; mode; mode and result; method, route and status; method and route. The
-- gauge of jobs in progress has the one label "grpc".
pub record Metrics : Type 0 where
  pub jobs_submitted_total : List (String × String)
  pub job_submission_duration : List String
  pub jobs_in_progress : ℤ
  pub job_processing_duration : List (String × String)
  pub http_requests_total : List (String × String × String)
  pub http_request_duration : List (String × String)
  pub http_requests_in_flight : ℤ

abbrev pub no_metrics : Metrics
no_metrics = record {
  jobs_submitted_total = [];
  job_submission_duration = [];
  jobs_in_progress = pos 0;
  job_processing_duration = [];
  http_requests_total = [];
  http_request_duration = [];
  http_requests_in_flight = pos 0;
}

-- The deferred function of `BulkGenerate`.
abbrev pub submitted : String → String → Metrics → Metrics
submitted mode result m = record m {
  jobs_submitted_total = (mode, result) ∷ m.jobs_submitted_total;
  job_submission_duration = mode ∷ m.job_submission_duration;
}

-- The start of `ProcessJob`, and its deferred function.
abbrev pub job_started : Metrics → Metrics
job_started m = record m { jobs_in_progress = inc m.jobs_in_progress }

abbrev pub job_ended : String → Metrics → Metrics
job_ended result m = record m {
  jobs_in_progress = dec m.jobs_in_progress;
  job_processing_duration = ("grpc", result) ∷ m.job_processing_duration;
}
