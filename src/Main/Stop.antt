-- ===== src/Main/Stop.antt =====
-- When `main` returns.
use agreements_generator_api.Prelude.{
  ℕ, ◌+◌, ◌≡◌, ◌≢◌, refl, sym, ◌∙◌, Bool, true, false, ◌||◌, List, [], ◌∷◌, Option, none, some,
  arith,
}
use agreements_generator_api.Domain.Errors.{Err}
use agreements_generator_api.Main.Serve.{
  ServerAt, not_started, listening, checking, server_done, StopperAt, not_launched, stopping,
  checking_stop, stopper_done, MainAt, launching_server, launching_stopper, waiting, returned,
  Message, stopping_server, Process, launched, is_stopping, served_log, stopped_log, Step,
  launch_server, launch_stopper, start, listen_returns, check, signal, receive, shutdown_returns,
  check_stop, return_main, Reach, here, next,
}

-- One for a goroutine that runs.
abbrev pub running_server : ServerAt → ℕ
running_server not_started = 0
running_server server_done = 0
running_server _ = 1

abbrev pub running_stopper : StopperAt → ℕ
running_stopper not_launched = 0
running_stopper stopper_done = 0
running_stopper _ = 1

-- What `main` has launched, by where it stands, and what has ended.
abbrev pub Launches : MainAt → ServerAt → StopperAt → Type 0
Launches launching_server server stopper = (server ≡ not_started) × (stopper ≡ not_launched)
Launches launching_stopper server stopper = (server ≢ not_started) × (stopper ≡ not_launched)
Launches waiting server stopper = (server ≢ not_started) × (stopper ≢ not_launched)
Launches returned server stopper = (server ≡ server_done) × (stopper ≡ stopper_done)

-- The log tells that a signal was received.
abbrev pub is_stop : Message → Bool
is_stop stopping_server = true
is_stop _ = false

abbrev pub has_stop : List Message → Bool
has_stop [] = false
has_stop (m ∷ ms) = is_stop m || has_stop ms

pub record Inv (s : Process) : Type 0 where
  pub count : s.wg ≡ running_server s.server + running_stopper s.stopper
  pub order : Launches s.main s.server s.stopper
  pub told : has_stop s.messages ≡ is_stopping s.stopper

served-has_stop : (r : Option Err) (log : List Message) → has_stop (served_log r log) ≡ has_stop log
served-has_stop none log = refl
served-has_stop (some e) log = refl

stopped-has_stop :
    (r : Option Err) (log : List Message) → has_stop (stopped_log r log) ≡ has_stop log
stopped-has_stop none log = refl
stopped-has_stop (some e) log = refl

server_moves :
    (m : MainAt) (a b : ServerAt) (c : StopperAt)
    → a ≢ not_started
    → a ≢ server_done
    → b ≢ not_started
    → Launches m a c
    → Launches m b c
server_moves launching_server a b c n d k (h, i) = absurd (n h)
server_moves launching_stopper a b c n d k (h, i) = (k, i)
server_moves waiting a b c n d k (h, i) = (k, i)
server_moves returned a b c n d k (h, i) = absurd (d h)

stopper_moves :
    (m : MainAt) (a : ServerAt) (b c : StopperAt)
    → b ≢ not_launched
    → b ≢ stopper_done
    → c ≢ not_launched
    → Launches m a b
    → Launches m a c
stopper_moves launching_server a b c n d k (h, i) = absurd (n i)
stopper_moves launching_stopper a b c n d k (h, i) = absurd (n i)
stopper_moves waiting a b c n d k (h, i) = (h, k)
stopper_moves returned a b c n d k (h, i) = absurd (d i)

-- Nothing runs, and both were launched.
both_ended :
    (a : ServerAt) (b : StopperAt)
    → 0 ≡ running_server a + running_stopper b
    → Launches waiting a b
    → Launches returned a b
both_ended not_started b z (h, i) = absurd (h refl)
both_ended server_done not_launched z (h, i) = absurd (i refl)
both_ended server_done stopper_done z h = (refl, refl)
both_ended a b z h = absurd (ground (arith, z))

module _ (Listens : Bool → Option Err → Type 0) (Shuts : Option Err → Type 0) where
  pub Step-Inv : {s t : Process} → Step Listens Shuts s t → Inv s → Inv t
  Step-Inv {s} (launch_server h) inv =
      let (a, b) = rw h at inv.order in
      record { count = ground (arith, inv.count, a); order = (ground arith, b); told = inv.told }
  Step-Inv {s} (launch_stopper h) inv =
      let (a, b) = rw h at inv.order in
      record {
        count = ground (arith, inv.count, b);
        order = (a, ground arith);
        told = ground (arith, inv.told, b);
      }
  Step-Inv {s} (start h) inv = record {
    count = ground (arith, inv.count, h);
    order =
        server_moves s.main s.server listening s.stopper (ground (arith, h)) (ground (arith, h))
          (ground arith) inv.order;
    told = inv.told;
  }
  Step-Inv {s} (listen_returns r h l) inv = record {
    count = ground (arith, inv.count, h);
    order =
        server_moves s.main s.server checking s.stopper (ground (arith, h)) (ground (arith, h))
          (ground arith) inv.order;
    told = inv.told;
  }
  Step-Inv {s} (check h) inv = record {
    count = ground (arith, inv.count, h);
    order =
        server_moves s.main s.server server_done s.stopper (ground (arith, h)) (ground (arith, h))
          (ground arith) inv.order;
    told = served-has_stop s.err s.messages ∙ inv.told;
  }
  Step-Inv {s} (signal h) inv = record { count = inv.count; order = inv.order; told = inv.told }
  Step-Inv {s} (receive h n) inv = record {
    count = ground (arith, inv.count, h);
    order =
        stopper_moves s.main s.server s.stopper stopping (ground (arith, h)) (ground (arith, h))
          (ground arith) inv.order;
    told = refl;
  }
  Step-Inv {s} (shutdown_returns r h l) inv = record {
    count = ground (arith, inv.count, h);
    order =
        stopper_moves s.main s.server s.stopper checking_stop (ground (arith, h))
          (ground (arith, h)) (ground arith) inv.order;
    told = ground (arith, inv.told, h);
  }
  Step-Inv {s} (check_stop h) inv = record {
    count = ground (arith, inv.count, h);
    order =
        stopper_moves s.main s.server s.stopper stopper_done (ground (arith, h)) (ground (arith, h))
          (ground arith) inv.order;
    told = stopped-has_stop s.err s.messages ∙ ground (arith, inv.told, h);
  }
  Step-Inv {s} (return_main h z) inv = record {
    count = inv.count;
    order = both_ended s.server s.stopper (sym z ∙ inv.count) (rw h at inv.order);
    told = inv.told;
  }

  pub Reach-Inv : {s t : Process} → Reach Listens Shuts s t → Inv s → Inv t
  Reach-Inv here inv = inv
  Reach-Inv (next r st) inv = Step-Inv st (Reach-Inv r inv)

  pub launched-Inv : Inv launched
  launched-Inv = record { count = refl; order = (refl, refl); told = refl }

  -- The program ends by a signal only: in whatever order the two goroutines and `main` take their
  -- steps, where `main` has returned a signal had been received, ListenAndServe and Shutdown have
  -- returned, and both goroutines are done. So a server that cannot be started leaves the program
  -- waiting for a signal.
  pub returned-stopped :
      (s : Process)
      → Reach Listens Shuts launched s
      → s.main ≡ returned
      → (has_stop s.messages ≡ true) × (s.server ≡ server_done) × (s.stopper ≡ stopper_done)
  returned-stopped s r h =
      let inv = Reach-Inv r launched-Inv in
      let (a, b) = rw h at inv.order in (ground (arith, inv.told, b), a, b)
