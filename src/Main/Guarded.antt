-- ===== src/Main/Guarded.antt =====
-- What holds of every program that starts: its configuration, its storage, and the guard of its
-- routes.
use agreements_generator_api.Prelude.{
  ℕ, ◌≡◌, refl, sym, ap, ◌∙◌, ◌⊎◌, inl, inr, String, ◌<>◌, ◌==◌, eq_iff, false, none, arith,
  Bool-cases,
}
use mathlib.Core.Path.{subst}
use agreements_generator_api.Effect.{Result, ok, fail, Call-cases}
use agreements_generator_api.Config as Config
use agreements_generator_api.Config.{Config, Outside}
use agreements_generator_api.Config.Loaded.{IsOrder, IsLoaded, load_iff}
use agreements_generator_api.Logger as Logger
use agreements_generator_api.Logger.{Logger}
use agreements_generator_api.Cache.{close}
use agreements_generator_api.GenClient as GenClient
use agreements_generator_api.Publisher.{Publisher}
use agreements_generator_api.TokenManager.{tokens_beside}
use agreements_generator_api.Storage.Choice.{Opened, new}
use agreements_generator_api.Service.{World, Generator}
use agreements_generator_api.Service.Auth.{Auth}
use agreements_generator_api.Api.{Request, ResponseWriter, Handler}
use agreements_generator_api.Api.Token.{cut_prefix}
use agreements_generator_api.Api.Routes.{IsRouter, main_routes, serve}
use agreements_generator_api.Api.Routes.Guard.{is_public, serve-keeps}
use agreements_generator_api.Main.{
  Drivers, Parts, Server, publisher, server, setup, tokens_in_world,
}
use agreements_generator_api.Main.Start.{
  Libs, Started, drivers_beside, token_mng, parts, with_server, with_storage, with_logger,
  with_config, start,
}

-- `setup` gives nothing but `server`.
setup-server :
    {E : Type 0} (cfg : Config) (drivers : Drivers E) (p : Parts E) (s s' : E) (srv : Server E)
    → setup cfg drivers (ok p) s ≡ (ok srv, s')
    → (publer : Publisher E) × (srv ≡ server cfg drivers p publer)
unfolding setup close GenClient.close
setup-server cfg drivers p s s' srv h =
    elim (Call-cases (drivers.dial (cfg.grpc_client.host <> (":" <> cfg.grpc_client.port))) s) [
      | inr (e, t, d) ↦ absurd (ground (arith, ap (λ r. r.0) (rw d at h)))
      | inl (u, t, d) ↦
          let closed = (drivers.redis.close (drivers.conn_close t).1).1 in
          elim (Call-cases (publisher cfg drivers) closed) [
            | inr (e, v, f) ↦ absurd (ground (arith, ap (λ r. r.0) (rw (d, f) at h)))
            | inl (publer, v, f) ↦ (publer, ground (arith, ap (λ r. r.0) (rw (d, f) at h)))
          ]
    ]

-- `New` knows two storages.
abbrev pub HasStorage : Config → Type 0
HasStorage cfg = (cfg.storage.kind ≡ "in_memory") ⊎ (cfg.storage.kind ≡ "postgres")

abbrev Ok {ℓ} : {A : Type ℓ} → (A → Type 0) → Result A → Type 0
Ok P (ok a) = P a
Ok P (fail e) = Unit

module _ {X D Tx : Type 0} (libs : Libs X D Tx) (cfg : Config) where
  new-HasStorage :
      (now : ℕ) (opened : Opened)
      → new libs.open_pool libs.unmarshal cfg now ≡ ok opened
      → HasStorage cfg
  unfolding new
  new-HasStorage now opened h = elim (Bool-cases (cfg.storage.kind == "in_memory")) [
    | inl m ↦ inl ((eq_iff cfg.storage.kind "in_memory").0 m)
    | inr m ↦ elim (Bool-cases (cfg.storage.kind == "postgres")) [
      | inl k ↦ inr ((eq_iff cfg.storage.kind "postgres").0 k)
      | inr k ↦ absurd (ground (arith, rw (m, k) at h))
    ]
  ]

  -- The routes of `main`, with the token manager that the configuration describes.
  abbrev IsWired : Started X → Type 0
  IsWired st =
      HasStorage cfg
      × (gen : Generator (World (st.opened.State × X))) × (auth : Auth
          (World (st.opened.State × X)))
      × (st.server.routes
          ≡ main_routes libs.encoder libs.metrics_page
              (tokens_in_world (tokens_beside (token_mng libs cfg))) gen auth)

  with_server-IsWired :
      (opened : Opened) (x : X) (r : Result (Server (opened.State × X))) (s : opened.State × X)
      → HasStorage cfg
      → setup cfg (drivers_beside libs.drivers) (ok (parts libs cfg opened)) (opened.state, x)
        ≡ (r, s)
      → Ok IsWired (with_server libs opened r s)
  with_server-IsWired opened x (fail e) s k h = tt
  with_server-IsWired opened x (ok srv) s k h =
      let (publer, same) =
        setup-server cfg (drivers_beside libs.drivers) (parts libs cfg opened) (opened.state, x) s
          srv h in
      (k, _, _, ap (λ v. v.routes) same)

  with_storage-IsWired :
      (now : ℕ) (x : X) (n : Result Opened)
      → new libs.open_pool libs.unmarshal cfg now ≡ n
      → Ok IsWired (with_storage libs cfg n x)
  with_storage-IsWired now x (fail e) h = tt
  with_storage-IsWired now x (ok opened) h =
      with_server-IsWired opened x _ _ (new-HasStorage now opened h) refl

  with_logger-IsWired :
      (now : ℕ) (x : X) (l : Result (Logger X)) → Ok IsWired (with_logger libs cfg l now x)
  with_logger-IsWired now x (fail e) = tt
  with_logger-IsWired now x (ok logger) =
      with_storage-IsWired now x (new libs.open_pool libs.unmarshal cfg now) refl

  start-IsWired :
      (o : Outside) (now : ℕ) (x : X) (st : Started X)
      → Config.load o ≡ ok cfg
      → start libs o now x ≡ ok st
      → IsWired st
  unfolding start
  start-IsWired o now x st loaded started =
      let logger = Logger.load libs.production libs.development cfg in
      subst (Ok IsWired) (sym (ap (λ c. with_config libs c now x) loaded) ∙ started)
        (with_logger-IsWired now x logger)

  -- Every program that starts is guarded. Its configuration has all five secrets from the
  -- environment and names one of the two storages, and behind a router that runs its routes or
  -- nothing, a request for any other path than the four public ones, whose header Authorization
  -- lacks the prefix of the configuration, leaves what the components hold as it is and starts no
  -- goroutine, whatever state the program is in.
  pub start-guarded :
      (o : Outside) (now : ℕ) (x : X) (st : Started X)
      (router : Handler (World (st.opened.State × X))) (r : Request) (w : ResponseWriter)
      (s : World (st.opened.State × X)) (route_pattern : Request → String) (itoa : ℕ → String)
      → IsOrder o.order
      → Config.load o ≡ ok cfg
      → start libs o now x ≡ ok st
      → IsRouter st.server.routes router
      → is_public r.path ≡ false
      → cut_prefix r.authorization cfg.jwt.prefix ≡ none
      → let s' = (serve route_pattern itoa router r w s).1 in
        IsLoaded o cfg × HasStorage cfg × (s'.env ≡ s.env) × (s'.running ≡ s.running)
  start-guarded o now x st router r w s route_pattern itoa order loaded started is_router other
        bare =
      let (known, gen, auth, wired) = start-IsWired o now x st loaded started in
      let (env, running) =
        serve-keeps r w s libs.encoder (tokens_in_world (tokens_beside (token_mng libs cfg))) gen
          auth libs.metrics_page router route_pattern itoa
          (subst (λ t. IsRouter t router) wired is_router) other bare in
      ((load_iff o cfg order).0 loaded, known, env, running)
