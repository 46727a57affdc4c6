-- ===== src/Main/Closed.antt =====
-- `main` closes the connection to the worker before the server starts.
use agreements_generator_api.Prelude.{
  ◌≡◌, refl, ap, ◌∙◌, String, ◌<>◌, true, false, ◌∷◌, some, arith, inl, inr,
}
use mathlib.Core.Path.{subst}
use agreements_generator_api.Effect.{
  Result, ok, fail, Proc, pure, raise, on_error, map_error, continue, ◌>>=◌, ◌>>◌, Call-cases,
}
use agreements_generator_api.Domain.Errors.{Err, wrapf, wrapv, app, gen_client}
use agreements_generator_api.Domain.Generator.{Bytes}
use agreements_generator_api.Config.{Config}
use agreements_generator_api.Cache.{close}
use agreements_generator_api.Publisher.{Publisher, new_publisher}
use agreements_generator_api.GenClient
use agreements_generator_api.GenClient.{GenerateResponse, empty_response}
use agreements_generator_api.GenClient.Handover.{outcome_error, outcome_response}
use agreements_generator_api.Service.{World, ProcessJobParams}
use agreements_generator_api.Service.Grpc.{process_job, finalize}
use agreements_generator_api.Service.Grpc.Process.{process_job_ends}
use agreements_generator_api.Main.{
  Drivers, Parts, Server, close_obj, grpc_client, cacher, publisher, server, setup,
}

-- What is assumed of the drivers: `IsShut` are the states in which the connection to the worker is
-- closed. A call over a closed connection fails, and neither the client of Redis nor that of AMQP
-- opens it again.
pub record IsConn {E : Type 0} (drivers : Drivers E) (IsShut : E → Type 0) : Type 0 where
  pub closes : (s : E) → IsShut (drivers.conn_close s).1
  pub refuses :
      (archive : Bytes) (s : E) → IsShut s → (e : Err) × ((drivers.generate archive s).0 ≡ fail e)
  pub redis_close : (s : E) → IsShut s → IsShut (drivers.redis.close s).1
  pub amqp_dial : (address : String) (s : E) → IsShut s → IsShut (drivers.amqp.dial address s).1
  pub amqp_channel : (s : E) → IsShut s → IsShut (drivers.amqp.channel s).1
  pub amqp_queue_declare :
      (name : String) (s : E)
      → IsShut s
      → IsShut (drivers.amqp.queue_declare name true false false false s).1
  pub amqp_close : (s : E) → IsShut s → IsShut (drivers.amqp.close s).1

-- A call that leaves a shut connection shut, whether or not it fails, and gives a value for which
-- `Q` holds where it does not.
module _ {E : Type 0} (P : E → Type 0) where
  abbrev After : {A : Type 0} → (A → Type 0) → Result A → E → Type 0
  After Q (ok a) s = P s × Q a
  After Q (fail e) s = P s

  abbrev Keeps : {A : Type 0} → (A → Type 0) → Proc E A → Type 0
  Keeps Q m = (s : E) → P s → After Q (m s).0 (m s).1

  abbrev Any : {A : Type 0} → A → Type 0
  Any a = Unit

  After-state : {A : Type 0} (Q : A → Type 0) (r : Result A) (s : E) → After Q r s → P s
  After-state Q (ok a) s h = h.0
  After-state Q (fail e) s h = h

  After-Any : {A : Type 0} (r : Result A) (s : E) → P s → After Any r s
  After-Any (ok a) s h = (h, tt)
  After-Any (fail e) s h = h

  continue-Keeps :
      {A B : Type 0} (Q : A → Type 0) (R : B → Type 0) (r : Result A) (f : A → Proc E B) (s : E)
      → ((a : A) → Q a → Keeps R (f a))
      → After Q r s
      → After R (continue r f raise s).0 (continue r f raise s).1
  continue-Keeps Q R (ok a) f s k h = k a h.1 s h.0
  continue-Keeps Q R (fail e) f s k h = h

  Keeps-bind :
      {A B : Type 0} (Q : A → Type 0) (R : B → Type 0) (m : Proc E A) (f : A → Proc E B)
      → Keeps Q m
      → ((a : A) → Q a → Keeps R (f a))
      → Keeps R (m >>= f)
  Keeps-bind Q R m f h k s p = continue-Keeps Q R (m s).0 f (m s).1 k (h s p)

  -- A call of a driver, with its error wrapped or dropped.
  Keeps-on_error :
      {A : Type 0} (g : Err → Err) (m : Proc E A)
      → ((s : E) → P s → P (m s).1)
      → Keeps Any (on_error g m)
  Keeps-on_error g m h s p = After-Any (map_error g (m s).0) (m s).1 (h s p)

module _ {E : Type 0} (drivers : Drivers E) (IsShut : E → Type 0) (conn : IsConn drivers IsShut)
    (cfg : Config) where
  -- Closing the publisher leaves the connection shut.
  abbrev ClosesOther : Publisher E → Type 0
  ClosesOther publer = (s : E) → IsShut s → IsShut (publer.close s).1

  publisher-Keeps : Keeps IsShut ClosesOther (publisher cfg drivers)
  unfolding new_publisher
  publisher-Keeps =
      Keeps-bind IsShut (Any IsShut) ClosesOther _ _
        (Keeps-on_error IsShut (wrapf "can't connect to rabbitMQ") (drivers.amqp.dial _)
          (conn.amqp_dial _))
        λ _ _.
          Keeps-bind IsShut (Any IsShut) ClosesOther _ _
            (Keeps-on_error IsShut (wrapf "can't create channel") drivers.amqp.channel
              conn.amqp_channel)
            λ _ _.
              Keeps-bind IsShut (Any IsShut) ClosesOther _ _
                (Keeps-on_error IsShut (wrapf "can't declare queue")
                  (drivers.amqp.queue_declare cfg.rabbit.queue true false false false)
                  (conn.amqp_queue_declare cfg.rabbit.queue))
                λ _ _ s p. (p, conn.amqp_close)

  -- `setup` after the connection is closed.
  abbrev rest : Parts E → Proc E (Server E)
  rest parts = do
    close_obj (cacher cfg drivers).close
    publer ← publisher cfg drivers
    close_obj publer.close
    pure (server cfg drivers parts publer)

  -- The goroutines of the server call the worker over the connection of `main`.
  abbrev RunsJobs : Parts E → Server E → Type 0
  RunsJobs parts srv =
      srv.goroutine ≡ process_job parts.storage (cacher cfg drivers) (grpc_client drivers)

  rest-Keeps : (parts : Parts E) → Keeps IsShut (RunsJobs parts) (rest parts)
  unfolding close
  rest-Keeps parts s p =
      Keeps-bind IsShut ClosesOther (RunsJobs parts) (publisher cfg drivers)
        (λ publer. close_obj publer.close >> pure (server cfg drivers parts publer)) publisher-Keeps
        (λ publer q t h. (q t h, refl)) (drivers.redis.close s).1 (conn.redis_close s p)

  setup-rest :
      (opened : Result (Parts E)) (s s' : E) (srv : Server E)
      → setup cfg drivers opened s ≡ (ok srv, s')
      → (parts : Parts E) × (t : E) × (opened ≡ ok parts)
        × (rest parts (drivers.conn_close t).1 ≡ (ok srv, s'))
  unfolding setup GenClient.close
  setup-rest (fail e) s s' srv h = absurd (ground (arith, ap (λ p. p.0) h))
  setup-rest (ok parts) s s' srv h =
      elim (Call-cases (drivers.dial (cfg.grpc_client.host <> (":" <> cfg.grpc_client.port))) s) [
        | inr (e, t, d) ↦ absurd (ground (arith, ap (λ p. p.0) (rw d at h)))
        | inl (u, t, d) ↦ (parts, t, refl, rw d at h)
      ]

  -- The goroutine of a job ends, as a failed job: it observes an error, and saves the error of a
  -- call that was refused.
  abbrev pub FailsJob : Parts E → Server E → ProcessJobParams → World E → Type 0
  FailsJob parts srv params w =
      let called = (drivers.generate params.archive_bytes w.env).1 in
      (e : Err) × (last : World E) × (srv.goroutine params w ≡ some last)
      × (last.metrics.job_processing_duration
          ≡ ("grpc", "error") ∷ w.metrics.job_processing_duration)
      × (last.env
          ≡ (finalize parts.storage (cacher cfg drivers) params.job.id
              (some (wrapv "can't get grpcs response" e (app gen_client))) empty_response called).1)

  finalize_refused :
      (parts : Parts E) (id : String) (r : Result GenerateResponse) (e : Err) (t : E)
      → r ≡ fail e
      → let done =
          finalize parts.storage (cacher cfg drivers) id (outcome_error r) (outcome_response r) t in
        (done.0 ≡ "error")
        × (done.1
            ≡ (finalize parts.storage
                (cacher cfg drivers)
                id
                (some (wrapv "can't get grpcs response" e (app gen_client)))
                empty_response
                t).1)
  unfolding finalize
  finalize_refused parts id r e t h = rw h (refl, refl)

  fails :
      (parts : Parts E) (srv : Server E) (params : ProcessJobParams) (w : World E)
      → RunsJobs parts srv
      → IsShut w.env
      → FailsJob parts srv params w
  fails parts srv params w runs shut =
      let (e, refused) = conn.refuses params.archive_bytes w.env shut in
      let (r, called) = drivers.generate params.archive_bytes w.env in
      let (last, ended, env, _, seconds, _) =
        process_job_ends parts.storage (cacher cfg drivers) drivers.generate drivers.conn_close
          params w in
      let (label, saved) = finalize_refused parts params.job.id r e called refused in
      (
        e,
        last,
        ap (λ f. f params w) runs ∙ ended,
        seconds ∙ ap (λ l. ("grpc", l) ∷ w.metrics.job_processing_duration) label,
        env ∙ saved,
      )

  -- `main` closes its connections before it serves: if it comes as far as to serve, the connection
  -- to the worker is closed, and each job that a goroutine of the server takes up while it is
  -- closed ends as failed, whatever was submitted.
  pub setup-fails_jobs :
      (opened : Result (Parts E)) (s s' : E) (srv : Server E) (params : ProcessJobParams)
      (w : World E)
      → setup cfg drivers opened s ≡ (ok srv, s')
      → IsShut w.env
      → (parts : Parts E) × (opened ≡ ok parts) × IsShut s' × FailsJob parts srv params w
  setup-fails_jobs opened s s' srv params w h now =
      let (parts, t, given, last) = setup-rest opened s s' srv h in
      let after = rest-Keeps parts (drivers.conn_close t).1 (conn.closes t) in
      let (shut, runs) = subst (λ p. After IsShut (RunsJobs parts) p.0 p.1) last after in
      (parts, given, shut, fails parts srv params w runs now)
