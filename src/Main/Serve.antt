-- ===== src/Main/Serve.antt =====
-- cmd/generator/main.go from the WaitGroup on: the goroutine that serves, the one that stops the
-- server after a signal, and `main`, which waits for both; their steps in any order. `Listens`
-- tells what ListenAndServe may return, before and after the call of Shutdown, and `Shuts` what
-- Shutdown may return. `err` is the one variable of `main`, to which both goroutines
-- assign; the test of it and the message that follows are one step.
use agreements_generator_api.Prelude.{
  ℕ, ◌+◌, ◌-◌, ◌≡◌, Bool, true, false, List, [], ◌∷◌, Option, none, some,
}
use agreements_generator_api.Domain.Errors.{Err}

-- Where each of the three stands.
pub data ServerAt : Type 0 where
  not_started starting listening checking server_done : ServerAt

pub data StopperAt : Type 0 where
  not_launched awaiting stopping checking_stop stopper_done : StopperAt

pub data MainAt : Type 0 where
  launching_server launching_stopper waiting returned : MainAt

-- The messages of the log.
pub data Message : Type 0 where
  starting_server stopping_server stopped_gracefully : Message
  cannot_start cannot_stop : Err → Message

-- `signals` counts what is in the channel `stop`, which holds one; `wg` is the WaitGroup's counter;
-- the newest message comes first.
pub record Process : Type 0 where
  pub server : ServerAt
  pub stopper : StopperAt
  pub main : MainAt
  pub signals : ℕ
  pub wg : ℕ
  pub err : Option Err
  pub messages : List Message

-- `err` is nil where `main` gets as far.
abbrev pub launched : Process
launched = record {
  server = not_started;
  stopper = not_launched;
  main = launching_server;
  signals = 0;
  wg = 0;
  err = none;
  messages = [];
}

-- Whether Shutdown has been called.
abbrev pub is_stopping : StopperAt → Bool
is_stopping not_launched = false
is_stopping awaiting = false
is_stopping _ = true

-- The two tests of `err`.
abbrev pub served_log : Option Err → List Message → List Message
served_log none log = log
served_log (some e) log = cannot_start e ∷ log

abbrev pub stopped_log : Option Err → List Message → List Message
stopped_log none log = stopped_gracefully ∷ log
stopped_log (some e) log = cannot_stop e ∷ log

module _ (Listens : Bool → Option Err → Type 0) (Shuts : Option Err → Type 0) where
  -- A signal that finds the channel full is dropped.
  pub data Step (s : Process) : Process → Type 0 where
    launch_server :
        s.main ≡ launching_server
        → Step s (record s { main = launching_stopper; server = starting; wg = s.wg + 1 })
    launch_stopper :
        s.main ≡ launching_stopper
        → Step s (record s { main = waiting; stopper = awaiting; wg = s.wg + 1 })
    start :
        s.server ≡ starting
        → Step s (record s { server = listening; messages = starting_server ∷ s.messages })
    listen_returns :
        (r : Option Err)
        → s.server ≡ listening
        → Listens (is_stopping s.stopper) r
        → Step s (record s { server = checking; err = r })
    check :
        s.server ≡ checking
        → Step s (record s {
          server = server_done;
          wg = s.wg - 1;
          messages = served_log s.err s.messages;
        })
    signal : s.signals ≡ 0 → Step s (record s { signals = 1 })
    receive :
        s.stopper ≡ awaiting
        → s.signals ≡ 1
        → Step s
            (record s { stopper = stopping; signals = 0; messages = stopping_server ∷ s.messages })
    shutdown_returns :
        (r : Option Err)
        → s.stopper ≡ stopping
        → Shuts r
        → Step s (record s { stopper = checking_stop; err = r })
    check_stop :
        s.stopper ≡ checking_stop
        → Step s (record s {
          stopper = stopper_done;
          wg = s.wg - 1;
          messages = stopped_log s.err s.messages;
        })
    return_main : s.main ≡ waiting → s.wg ≡ 0 → Step s (record s { main = returned })

  pub data Reach (s : Process) : Process → Type 0 where
    here : Reach s s
    next : {t u : Process} → Reach s t → Step t u → Reach s u
