-- ===== src/Api/Routes.antt =====
-- `RegisterRoutes` of internal/api/api_v1/api.go and auth.go, and the router that cmd/generator
-- makes of them. chi, which finds the route of a request, is a parameter: `IsRouter` is what it
-- does with a table of routes with distinct patterns.
pub mod Guard
use agreements_generator_api.Prelude.{
  ℕ, ◌≡◌, String, ◌==◌, ◌&&◌, ◌||◌, Bool, true, List, [], ◌∷◌, ◌++◌, Option, none, some,
  if◌then◌else◌,
}
use agreements_generator_api.Encoder.{Encoder}
use agreements_generator_api.TokenManager.{TokenManager}
use agreements_generator_api.Service.{World, Generator}
use agreements_generator_api.Service.Auth.{Auth}
use agreements_generator_api.Api.{Request, ResponseWriter, Handler}
use agreements_generator_api.Api.Jobs.{
  handle_health_check, handle_bulk_generate, handle_get_job_status, handle_get_archive,
  handle_get_archive_info,
}
use agreements_generator_api.Api.Users.{handle_register, handle_log_in}
use agreements_generator_api.Api.Token.{mw_auth}
use agreements_generator_api.Api.Measure.{mw_metrics}

-- A route; without a method it is for all of them.
pub record Route (W : Type 0) : Type 0 where
  pub method : Option String
  pub path : String
  pub handler : Handler W

abbrev allows : Option String → String → Bool
allows none m = true
allows (some method) m = method == m

module _ {W : Type 0} where
  abbrev pub matches : Request → Route W → Bool
  matches r route = (route.path == r.path) && allows route.method r.method

  abbrev pub find_route : Request → List (Route W) → Option (Route W)
  find_route r [] = none
  find_route r (route ∷ routes) = if matches r route then some route else find_route r routes

  -- The router runs the handler of the request's route, and nothing of the program where there is
  -- none: it answers 404 or 405.
  pub record IsRouter (table : List (Route W)) (router : Handler W) : Type 0 where
    pub runs :
        (r : Request) (w : ResponseWriter) (s : W) (route : Route W)
        → find_route r table ≡ some route
        → router r w s ≡ route.handler r w s
    pub refuses :
        (r : Request) (w : ResponseWriter) (s : W)
        → find_route r table ≡ none
        → (router r w s).1 ≡ s

  module _ (enc : Encoder) where
    -- `API.RegisterRoutes`
    unfoldable pub api_routes : TokenManager W → Generator W → List (Route W)
    api_routes token_maker service =
        record { method = some "GET"; path = "/health"; handler = handle_health_check enc }
        ∷ record {
          method = some "POST";
          path = "/bulk_generate";
          handler = mw_auth token_maker enc (handle_bulk_generate enc service);
        }
        ∷ record {
          method = some "GET";
          path = "/get_job_status";
          handler = mw_auth token_maker enc (handle_get_job_status enc service);
        }
        ∷ record {
          method = some "GET";
          path = "/get_archive_info";
          handler = mw_auth token_maker enc (handle_get_archive_info enc service);
        }
        ∷ record {
          method = some "GET";
          path = "/get_archive";
          handler = mw_auth token_maker enc (handle_get_archive enc service);
        }
        ∷ []

    -- `Auth.RegisterRoutes`
    unfoldable pub auth_routes : Auth W → List (Route W)
    auth_routes service =
        record {
          method = some "POST";
          path = "/auth/register";
          handler = handle_register enc service;
        }
        ∷ record { method = some "GET"; path = "/auth/login"; handler = handle_log_in enc service }
        ∷ []

    -- The routes of `main`; `metrics_page` is promhttp.Handler().
    unfoldable pub main_routes : Handler W → TokenManager W → Generator W → Auth W → List (Route W)
    main_routes metrics_page token_maker gen auth =
        record { method = none; path = "/metrics"; handler = metrics_page }
        ∷ (api_routes token_maker gen ++ auth_routes auth)

-- The handler that `main` serves: the router behind `MWMetrics`.
unfoldable pub serve :
    {S : Type 0} → (Request → String) → (ℕ → String) → Handler (World S) → Handler (World S)
serve route_pattern itoa router = mw_metrics route_pattern itoa router
