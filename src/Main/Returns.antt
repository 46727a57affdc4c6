-- ===== src/Main/Returns.antt =====
-- After a signal the program gets to its end; what it then says of its stop.
use agreements_generator_api.Prelude.{
  ℕ, zero, suc, ◌+◌, ◌<◌, ◌≤◌, ◌≡◌, ◌≢◌, ◌⊎◌, inl, inr, refl, Bool, true, [], ◌∷◌, Option, none,
  some, arith,
}
use agreements_generator_api.Domain.Errors.{Err}
use agreements_generator_api.Main.Serve.{
  ServerAt, not_started, starting, listening, checking, server_done, StopperAt, not_launched,
  awaiting, stopping, checking_stop, stopper_done, MainAt, launching_server, launching_stopper,
  waiting, returned, starting_server, stopping_server, cannot_start, cannot_stop, Process, launched,
  is_stopping, Step, launch_server, launch_stopper, start, listen_returns, check, signal, receive,
  shutdown_returns, check_stop, return_main, Reach, here, next,
}
use agreements_generator_api.Main.Stop.{Inv, Step-Inv, Reach-Inv, launched-Inv}

-- The steps that are left, signals aside.
abbrev server_left : ServerAt → ℕ
server_left not_started = 0
server_left starting = 3
server_left listening = 2
server_left checking = 1
server_left server_done = 0

abbrev stopper_left : StopperAt → ℕ
stopper_left not_launched = 0
stopper_left awaiting = 3
stopper_left stopping = 2
stopper_left checking_stop = 1
stopper_left stopper_done = 0

abbrev main_left : MainAt → ℕ
main_left launching_server = 9
main_left launching_stopper = 5
main_left waiting = 1
main_left returned = 0

abbrev pub steps_left : Process → ℕ
steps_left s = main_left s.main + (server_left s.server + stopper_left s.stopper)

-- A signal is in the channel, or has been received.
abbrev pub IsSignalled : Process → Type 0
IsSignalled s = (s.signals ≡ 1) ⊎ (is_stopping s.stopper ≡ true)

is_returned : (m : MainAt) → (m ≡ returned) ⊎ (m ≢ returned)
is_returned launching_server = inr (ground arith)
is_returned launching_stopper = inr (ground arith)
is_returned waiting = inr (ground arith)
is_returned returned = inl refl

module _ (Listens : Bool → Option Err → Type 0) (Shuts : Option Err → Type 0) where
  abbrev Nearer : Process → Type 0
  Nearer s = (t : Process) × Step Listens Shuts s t × (steps_left t < steps_left s) × IsSignalled t

  -- With `main` waiting, a signal sent and Shutdown called, or about to be.
  stopper_goes :
      (s : Process) (c : StopperAt)
      → s.stopper ≡ c
      → c ≢ not_launched
      → c ≢ stopper_done
      → ((r : Option Err) × Shuts r)
      → IsSignalled s
      → Nearer s
  stopper_goes s not_launched e n d shuts sig = absurd (n refl)
  stopper_goes s stopper_done e n d shuts sig = absurd (d refl)
  stopper_goes s awaiting e n d shuts (inl one) = (_, receive e one, ground (arith, e), inr refl)
  stopper_goes s awaiting e n d shuts (inr now) = absurd (ground (arith, e, now))
  stopper_goes s stopping e n d (r, shut) sig =
      (_, shutdown_returns r e shut, ground (arith, e), inr refl)
  stopper_goes s checking_stop e n d shuts sig = (_, check_stop e, ground (arith, e), inr refl)

  server_goes :
      (s : Process) (a : ServerAt)
      → s.server ≡ a
      → a ≢ not_started
      → a ≢ server_done
      → s.stopper ≡ stopper_done
      → ((r : Option Err) × Listens true r)
      → Nearer s
  server_goes s not_started e n d stop listens = absurd (n refl)
  server_goes s server_done e n d stop listens = absurd (d refl)
  server_goes s starting e n d stop listens =
      (_, start e, ground (arith, e), inr (ground (arith, stop)))
  server_goes s listening e n d stop (r, closed) =
      (_, listen_returns r e (rw stop closed), ground (arith, e), inr (ground (arith, stop)))
  server_goes s checking e n d stop listens =
      (_, check e, ground (arith, e), inr (ground (arith, stop)))

  waits :
      (s : Process) (a : ServerAt) (c : StopperAt)
      → s.server ≡ a
      → s.stopper ≡ c
      → s.main ≡ waiting
      → Inv s
      → IsSignalled s
      → ((r : Option Err) × Listens true r)
      → ((r : Option Err) × Shuts r)
      → Nearer s
  waits s a not_launched ea ec h inv sig listens shuts = absurd ((rw h at inv.order).1 ec)
  waits s not_started stopper_done ea ec h inv sig listens shuts = absurd ((rw h at inv.order).0 ea)
  waits s server_done stopper_done ea ec h inv sig listens shuts = (
    _,
    return_main h (ground (arith, inv.count, ea, ec)),
    ground (arith, h),
    inr (ground (arith, ec)),
  )
  waits s a stopper_done ea ec h inv sig listens shuts =
      server_goes s a ea (ground arith) (ground arith) ec listens
  waits s a c ea ec h inv sig listens shuts =
      stopper_goes s c ec (ground arith) (ground arith) shuts sig

  nearer :
      (s : Process) (m : MainAt)
      → s.main ≡ m
      → m ≢ returned
      → Inv s
      → IsSignalled s
      → ((r : Option Err) × Listens true r)
      → ((r : Option Err) × Shuts r)
      → Nearer s
  nearer s launching_server e n inv sig listens shuts =
      let (a, b) = rw e at inv.order in (_, launch_server e, ground (arith, e, a, b), sig)
  nearer s launching_stopper e n inv sig listens shuts =
      let (a, b) = rw e at inv.order in
      (
        _,
        launch_stopper e,
        ground (arith, e, b),
        elim sig [ inl one ↦ inl one | inr now ↦ absurd (ground (arith, b, now)) ],
      )
  nearer s waiting e n inv sig listens shuts =
      waits s s.server s.stopper refl refl e inv sig listens shuts
  nearer s returned e n inv sig listens shuts = absurd (n refl)

  gets_there :
      (n : ℕ) (s u : Process)
      → Reach Listens Shuts u s
      → steps_left s ≤ n
      → Inv s
      → IsSignalled s
      → ((r : Option Err) × Listens true r)
      → ((r : Option Err) × Shuts r)
      → (t : Process) × Reach Listens Shuts u t × (t.main ≡ returned)
  gets_there zero s u r le inv sig listens shuts = elim (is_returned s.main) [
    | inl e ↦ (s, r, e)
    | inr k ↦
        let (t, step, less, sent) = nearer s s.main refl k inv sig listens shuts in
        absurd (omega (arith, less, le))
  ]
  gets_there (suc n) s u r le inv sig listens shuts = elim (is_returned s.main) [
    | inl e ↦ (s, r, e)
    | inr k ↦
        let (t, step, less, sent) = nearer s s.main refl k inv sig listens shuts in
        gets_there n t u (next r step) (omega (arith, less, le)) (Step-Inv Listens Shuts step inv)
          sent listens shuts
  ]

  -- A signal is enough for the program to end: from every state that it reaches, in which a signal
  -- is in the channel or has been received, steps lead to the return of `main`, if ListenAndServe
  -- returns once Shutdown has been called, as it is documented to, and Shutdown returns.
  pub signalled-returns :
      (s : Process)
      → Reach Listens Shuts launched s
      → IsSignalled s
      → ((r : Option Err) × Listens true r)
      → ((r : Option Err) × Shuts r)
      → (t : Process) × Reach Listens Shuts s t × (t.main ≡ returned)
  signalled-returns s r sig listens shuts =
      gets_there (steps_left s) s s here (omega arith)
        (Reach-Inv Listens Shuts r (launched-Inv Listens Shuts)) sig listens shuts

  -- A stop without an error may be logged as one with an error: ListenAndServe returns an error
  -- after every Shutdown, both goroutines assign to the same variable before they test it, and so
  -- there is, for every such error, a run in which Shutdown returns none and `main` returns, but the
  -- log says that the server could not be stopped, with the error of ListenAndServe, and nothing of
  -- a graceful stop.
  pub stop-misreported :
      (e : Err)
      → Listens true (some e)
      → Shuts none
      → (t : Process) × Reach Listens Shuts launched t
        × (t.main ≡ returned)
        × (t.messages ≡ cannot_start e ∷ cannot_stop e ∷ stopping_server ∷ starting_server ∷ [])
  stop-misreported e closed stopped = (
    _,
    next
        (next
          (next
            (next
              (next
                (next
                  (next
                    (next (next (next here (launch_server refl)) (launch_stopper refl))
                      (start refl))
                    (signal refl))
                  (receive refl refl))
                (shutdown_returns none refl stopped))
              (listen_returns (some e) refl closed))
            (check_stop refl))
          (check refl))
        (return_main refl refl),
    refl,
    refl,
  )
