-- ===== src/Publisher.antt =====
-- internal/publisher and internal/publisher/rabbit_publisher/publisher.go: the queue of jobs. The
-- AMQP channel, the JSON encoder and the clock are parameters.
use agreements_generator_api.Prelude.{ℕ, String, ◌<>◌, Bool, true, false}
use agreements_generator_api.Effect.{Result, Proc, on_error, lift, pure, ◌>>=◌, ◌>>◌}
use agreements_generator_api.Domain.Errors.{wrapf}
use agreements_generator_api.Domain.Generator.{Bytes}

-- `Publisher`
pub record Publisher (S : Type 0) : Type 0 where
  pub send : String → Proc S (Unit {0})
  pub close : Proc S (Unit {0})

pub record DeliveryJob : Type 0 where
  pub job_id : String
  pub enqueued_at_unix_ms : ℕ

-- `amqp.Publishing`, the fields that are set: `message_type` is its field Type, 2 is
-- `amqp.Persistent`.
pub record Publishing : Type 0 where
  pub message_type : String
  pub delivery_mode : ℕ
  pub body : Bytes

-- `marshal` is the encoder's; `publish` takes the exchange, the routing key and the message.
module _ {S : Type 0} (marshal : DeliveryJob → Result Bytes)
    (publish : String → String → Publishing → Proc S (Unit {0})) (conn_close : Proc S (Unit {0}))
    (unix_milli : Proc S ℕ) (queue_name : String) where
  unfoldable pub new_publishing : DeliveryJob → Proc S Publishing
  new_publishing obj = do
    body ← on_error (wrapf "can't marshal object for delivering") (lift (marshal obj))
    lift (Result.ok (record { message_type = "application/json"; delivery_mode = 2; body = body }))

  unfoldable pub send : String → Proc S (Unit {0})
  unfolding new_publishing
  send job_id = do
    now ← unix_milli
    delivery ← new_publishing (record { job_id = job_id; enqueued_at_unix_ms = now })
    on_error (wrapf "can't send job to queue") (publish "" queue_name delivery)

  abbrev pub rabbit_publisher : Publisher S
  rabbit_publisher = record { send = send; close = conn_close }

-- The AMQP connection: `queue_declare` takes the name, and whether the queue is durable, is deleted
-- when it is unused, is exclusive, and is declared without waiting.
pub record Amqp (S : Type 0) : Type 0 where
  pub dial : String → Proc S (Unit {0})
  pub channel : Proc S (Unit {0})
  pub queue_declare : String → Bool → Bool → Bool → Bool → Proc S (Unit {0})
  pub publish : String → String → Publishing → Proc S (Unit {0})
  pub close : Proc S (Unit {0})

-- `connString`; `itoa` formats the port.
unfoldable pub conn_string : (ℕ → String) → String → ℕ → String → String → String → String
conn_string itoa host port username password vhost =
    "amqp://"
    <> (username
        <> (":" <> (password <> ("@" <> (host <> (":" <> (itoa port <> ("/" <> vhost))))))))

-- `New`
unfoldable pub new_publisher :
    {S : Type 0}
    → Amqp S
    → (DeliveryJob → Result Bytes)
    → Proc S ℕ
    → (ℕ → String)
    → String
    → ℕ
    → String
    → String
    → String
    → String
    → Proc S (Publisher S)
unfolding conn_string
new_publisher amqp marshal unix_milli itoa host port username password vhost queue = do
  on_error (wrapf "can't connect to rabbitMQ")
      (amqp.dial (conn_string itoa host port username password vhost))
  on_error (wrapf "can't create channel") amqp.channel
  on_error (wrapf "can't declare queue") (amqp.queue_declare queue true false false false)
  pure (rabbit_publisher marshal amqp.publish amqp.close unix_milli queue)
