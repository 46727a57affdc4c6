-- ===== src/Api/Routes/Guard.antt =====
-- The routes of the program: those about jobs stand behind `MWAuth`.
use agreements_generator_api.Prelude.{
  ℕ, ◌≡◌, ◌⊎◌, refl, sym, ap, ◌∙◌, inl, inr, String, ◌==◌, eq_iff, ◌||◌, Bool, true, false, List,
  [], ◌∷◌, Option, none, some, if◌then◌else◌, arith, Option-cases,
}
use agreements_generator_api.Encoder.{Encoder}
use agreements_generator_api.TokenManager.{TokenManager}
use agreements_generator_api.Service.{World, Generator}
use agreements_generator_api.Service.Auth.{Auth}
use agreements_generator_api.Api.{Request, ResponseWriter, Handler}
use agreements_generator_api.Api.Jobs.{handle_health_check}
use agreements_generator_api.Api.Users.{handle_register, handle_log_in}
use agreements_generator_api.Api.Token.{mw_auth, cut_prefix}
use agreements_generator_api.Api.Measure.{mw_metrics, entered}
use agreements_generator_api.Api.Routes.{
  Route, matches, find_route, IsRouter, api_routes, auth_routes, main_routes, serve,
}

-- The paths that need no token.
abbrev pub is_public : String → Bool
is_public path =
    (path == "/metrics")
    || (path == "/health")
    || (path == "/auth/register")
    || (path == "/auth/login")

module _ {W : Type 0} (r : Request) (w : ResponseWriter) (s : W) where
  mw_auth-keeps :
      (tm : TokenManager W) (enc : Encoder) (next : Handler W)
      → cut_prefix r.authorization tm.get_prefix ≡ none
      → (mw_auth tm enc next r w s).1 ≡ s
  unfolding mw_auth
  mw_auth-keeps tm enc next h = ground arith

  -- A route that the request does not match, or whose handler keeps the state.
  abbrev IsHarmless : Route W → Type 0
  IsHarmless route = (matches r route ≡ false) ⊎ ((route.handler r w s).1 ≡ s)

  abbrev AreHarmless : List (Route W) → Type 0
  AreHarmless [] = Unit
  AreHarmless (route ∷ routes) = IsHarmless route × AreHarmless routes

  -- The state after the route, if there is one.
  abbrev state_after : Option (Route W) → W
  state_after none = s
  state_after (some route) = (route.handler r w s).1

  first-keeps :
      (matched : Bool) (x : Route W) (rest : Option (Route W))
      → (matched ≡ false) ⊎ ((x.handler r w s).1 ≡ s)
      → state_after rest ≡ s
      → state_after (if matched then some x else rest) ≡ s
  first-keeps true x rest (inl h) k = ground arith
  first-keeps true x rest (inr h) k = h
  first-keeps false x rest h k = k

  found-keeps :
      (routes : List (Route W)) → AreHarmless routes → state_after (find_route r routes) ≡ s
  found-keeps [] h = refl
  found-keeps (x ∷ routes) (h, hs) =
      first-keeps (matches r x) x (find_route r routes) h (found-keeps routes hs)

  router-keeps :
      (table : List (Route W)) (router : Handler W)
      → IsRouter table router
      → AreHarmless table
      → (router r w s).1 ≡ s
  router-keeps table router is_router h = elim (Option-cases (find_route r table)) [
    | inl e ↦ is_router.refuses r w s e
    | inr (route, e) ↦
        ap (λ p. p.1) (is_router.runs r w s route e)
        ∙ (ap state_after (sym e) ∙ found-keeps table h)
  ]

  other_path :
      (method : Option String) (path : String) (handler : Handler W)
      → is_public path ≡ true
      → is_public r.path ≡ false
      → matches r (record { method = method; path = path; handler = handler }) ≡ false
  other_path method path handler h k = ground (arith, eq_iff path r.path)

  module _ (enc : Encoder) (tm : TokenManager W) (gen : Generator W) (auth : Auth W)
      (metrics_page : Handler W) (router : Handler W) where
    job_routes-keep :
        IsRouter (main_routes enc metrics_page tm gen auth) router
        → is_public r.path ≡ false
        → cut_prefix r.authorization tm.get_prefix ≡ none
        → (router r w s).1 ≡ s
    unfolding main_routes api_routes auth_routes
    job_routes-keep is_router k h =
        let guarded : (next : Handler W) → (mw_auth tm enc next r w s).1 ≡ s =
          λ next. mw_auth-keeps tm enc next h in
        router-keeps (main_routes enc metrics_page tm gen auth) router is_router (
          inl (other_path none "/metrics" metrics_page refl k),
          (
            inl (other_path (some "GET") "/health" (handle_health_check enc) refl k),
            (
              inr (guarded _),
              (
                inr (guarded _),
                (
                  inr (guarded _),
                  (
                    inr (guarded _),
                    (
                      inl (
                          other_path (some "POST") "/auth/register" (handle_register enc auth) refl
                            k),
                      (
                        inl (other_path (some "GET") "/auth/login" (handle_log_in enc auth) refl k),
                        tt,
                      ),
                    ),
                  ),
                ),
              ),
            ),
          ),
        )

module _ {S : Type 0} (r : Request) (w : ResponseWriter) (s : World S) (enc : Encoder)
    (tm : TokenManager (World S)) (gen : Generator (World S)) (auth : Auth (World S))
    (metrics_page router : Handler (World S)) where
  -- Behind a router that runs the request's route or nothing, a request for any other path than
  -- /metrics, /health, /auth/register and /auth/login, whose header Authorization lacks the prefix
  -- of a token, leaves what the components hold as it is and starts no goroutine, whatever the
  -- method.
  pub serve-keeps :
      (route_pattern : Request → String) (itoa : ℕ → String)
      → IsRouter (main_routes enc metrics_page tm gen auth) router
      → is_public r.path ≡ false
      → cut_prefix r.authorization tm.get_prefix ≡ none
      → let s' = (serve route_pattern itoa router r w s).1 in
        (s'.env ≡ s.env) × (s'.running ≡ s.running)
  unfolding serve mw_metrics
  serve-keeps route_pattern itoa is_router k h =
      let kept =
        job_routes-keep r w (record s { metrics = entered s.metrics }) enc tm gen auth metrics_page
          router is_router k h in
      ground (
        arith,
        ap (λ t. t.env) kept,
        ap (λ t. t.running) kept,
        eq_iff r.path "/metrics",
        eq_iff r.path "/health",
      )
