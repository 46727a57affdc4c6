-- ===== src/GenClient/Handover.antt =====
-- The two unbuffered channels between a job and the client's goroutine, as a step relation: the
-- client sends in the order of its list, the job receives in the order of its list, a send meets a
-- receive on the same channel, and the job closes both channels after its last receive.
use agreements_generator_api.Prelude.{
  ◌≡◌, refl, List, [], ◌∷◌, Bool, true, false, Option, none, some, ◌⊎◌, inl, inr, arith,
}
use agreements_generator_api.Effect.{Result, ok, fail}
use agreements_generator_api.Domain.Errors.{Err, app, wrapv, gen_client}
use agreements_generator_api.Domain.Generator.{GenResponse}
use agreements_generator_api.GenClient.{
  Send, send_error, send_response, GenerateResponse, sends, convert, empty_response,
}

pub data Receive : Type 0 where
  receive_error receive_response : Receive

-- `got_error` and `got_response` are the variables `err` and `response` of `ProcessJob`.
pub record Channels : Type 0 where
  pub sending : List Send
  pub receiving : List Receive
  pub are_closed : Bool
  pub got_error : Option (Option Err)
  pub got_response : Option GenResponse

-- `ProcessJob` and the client's goroutine at their start, where the call of the stub gives `r`.
unfoldable pub initial : Result GenerateResponse → Channels
unfolding sends
initial r = record {
  sending = sends r;
  receiving = receive_error ∷ receive_response ∷ [];
  are_closed = false;
  got_error = none;
  got_response = none;
}

pub data Step (c : Channels) : Channels → Type 0 where
  meet_error :
      (e : Option Err) (ss : List Send) (rs : List Receive)
      → c.sending ≡ send_error e ∷ ss
      → c.receiving ≡ receive_error ∷ rs
      → Step c (record c { sending = ss; receiving = rs; got_error = some e })
  meet_response :
      (a : GenResponse) (ss : List Send) (rs : List Receive)
      → c.sending ≡ send_response a ∷ ss
      → c.receiving ≡ receive_response ∷ rs
      → Step c (record c { sending = ss; receiving = rs; got_response = some a })
  close_both : c.receiving ≡ [] → c.are_closed ≡ false → Step c (record c { are_closed = true })

pub data Reach (c : Channels) : Channels → Type 0 where
  here : Reach c c
  next : {d e : Channels} → Reach c d → Step d e → Reach c e

-- What the job is to get.
abbrev pub outcome_error : Result GenerateResponse → Option Err
outcome_error (ok a) = none
outcome_error (fail e) = some (wrapv "can't get grpcs response" e (app gen_client))

abbrev pub outcome_response : Result GenerateResponse → GenResponse
outcome_response (ok a) = convert a
outcome_response (fail e) = empty_response

-- The job has both values, and the client has nothing left to send.
pub record IsDone (r : Result GenerateResponse) (c : Channels) : Type 0 where
  pub all_sent : c.sending ≡ []
  pub all_received : c.receiving ≡ []
  pub closed : c.are_closed ≡ true
  pub error : c.got_error ≡ some (outcome_error r)
  pub response : c.got_response ≡ some (outcome_response r)

-- The four stages of the handover, told apart by what is left to receive.
data Stage (r : Result GenerateResponse) (c : Channels) : Type 0 where
  started :
      c.sending ≡ send_error (outcome_error r) ∷ send_response (outcome_response r) ∷ []
      → c.receiving ≡ receive_error ∷ receive_response ∷ []
      → c.are_closed ≡ false
      → Stage r c
  has_error :
      c.sending ≡ send_response (outcome_response r) ∷ []
      → c.receiving ≡ receive_response ∷ []
      → c.are_closed ≡ false
      → c.got_error ≡ some (outcome_error r)
      → Stage r c
  has_both :
      c.sending ≡ []
      → c.receiving ≡ []
      → c.are_closed ≡ false
      → c.got_error ≡ some (outcome_error r)
      → c.got_response ≡ some (outcome_response r)
      → Stage r c
  is_done : IsDone r c → Stage r c

initial-Stage : (r : Result GenerateResponse) → Stage r (initial r)
unfolding initial
initial-Stage (ok a) = started refl refl refl
initial-Stage (fail e) = started refl refl refl

Step-Stage : {r : Result GenerateResponse} {c d : Channels} → Step c d → Stage r c → Stage r d
Step-Stage (meet_error e ss rs p q) (started a b n) =
    has_error (ground arith) (ground arith) n (ground arith)
Step-Stage (meet_error e ss rs p q) (has_error a b n g) = absurd (ground arith)
Step-Stage (meet_error e ss rs p q) (has_both a b n g h) = absurd (ground arith)
Step-Stage (meet_error e ss rs p q) (is_done h) = absurd (ground arith)
Step-Stage (meet_response e ss rs p q) (started a b n) = absurd (ground arith)
Step-Stage (meet_response e ss rs p q) (has_error a b n g) =
    has_both (ground arith) (ground arith) n g (ground arith)
Step-Stage (meet_response e ss rs p q) (has_both a b n g h) = absurd (ground arith)
Step-Stage (meet_response e ss rs p q) (is_done h) = absurd (ground arith)
Step-Stage (close_both p q) (started a b n) = absurd (ground arith)
Step-Stage (close_both p q) (has_error a b n g) = absurd (ground arith)
Step-Stage (close_both p q) (has_both a b n g h) =
    is_done (record { all_sent = a; all_received = b; closed = refl; error = g; response = h })
Step-Stage (close_both p q) (is_done h) = absurd (ground (arith, h.closed))

Reach-Stage : {r : Result GenerateResponse} {c : Channels} → Reach (initial r) c → Stage r c
Reach-Stage {r} here = initial-Stage r
Reach-Stage (next p s) = Step-Stage s (Reach-Stage p)

Stage-progress :
    {r : Result GenerateResponse} {c : Channels}
    → Stage r c
    → IsDone r c ⊎ ((d : Channels) × Step c d)
Stage-progress (started a b n) = inr (_, meet_error _ _ _ a b)
Stage-progress (has_error a b n g) = inr (_, meet_response _ _ _ a b)
Stage-progress (has_both a b n g h) = inr (_, close_both b n)
Stage-progress (is_done h) = inl h

-- The handover never blocks: in every reachable state either a step is possible, or the job has
-- closed the channels with the call's error and response in its variables and no send left over.
pub handover_progress :
    (r : Result GenerateResponse) (c : Channels)
    → Reach (initial r) c
    → IsDone r c ⊎ ((d : Channels) × Step c d)
handover_progress r c p = Stage-progress (Reach-Stage p)
