-- ===== src/Queue/RabbitMq.antt =====
-- queue/rabbitmq.py: `_RabbitMQClient`, `RabbitMQPublisher` and the start of `RabbitMQConsumer`,
-- over any AMQP library.
use doccontext.Base.{ℕ, Bool, Option, none, some, Text, if◌then◌else◌}
use doccontext.Base.Exn.{ok}
use doccontext.Base.Exec.{Exec, pure, ◌>>=◌, ◌>>◌, focus, proceed}
use doccontext.Base.Json.{Json}
use doccontext.Base.Runtime.{Runtime}
use doccontext.Services.Handlers.{QueuePublisher}

-- `aio_pika`: its connections and channels, which are shared objects, and what is done with them.
-- The queues are durable, and the messages are persistent and have a JSON content type.
pub record Amqp : Type 1 where
  pub State : Type 0
  pub Connection : Type 0
  pub Channel : Type 0
  -- `connect_robust(url)`
  pub connect_robust : Text → Exec State Connection
  -- `is_closed` and `close()` of a connection, and its `channel()`
  pub connection_is_closed : Connection → State → Bool
  pub close_connection : Connection → Exec State (Unit {0})
  pub channel : Connection → Exec State Channel
  -- `is_closed` and `close()` of a channel
  pub channel_is_closed : Channel → State → Bool
  pub close_channel : Channel → Exec State (Unit {0})
  -- `channel.declare_queue(queue)`, `channel.set_qos(prefetch_count)`, and
  -- `channel.default_exchange.publish(Message(body), routing_key)`
  pub declare_queue : Channel → Text → Exec State (Unit {0})
  pub set_qos : Channel → ℕ → Exec State (Unit {0})
  pub publish : Channel → Text → Text → Exec State (Unit {0})

module _ (A : Amqp) where
  -- The attributes of `_RabbitMQClient`, and the state of the library.
  pub record Client : Type 0 where
    pub connection : Option A.Connection
    pub open_channel : Option A.Channel
    pub world : A.State

  -- `_RabbitMQClient(settings)`
  abbrev pub new_client : A.State → Client
  new_client world = record { connection = none; open_channel = none; world = world }

  abbrev pub in_world : {B : Type 0} → Exec A.State B → Exec Client B
  in_world = focus (λ c. c.world) (λ c world. record c { world = world })

  -- `self._connection = connection` and `self._channel = channel`
  abbrev set_connection : Option A.Connection → Exec Client (Unit {0})
  set_connection connection c = (ok tt, record c { connection = connection })

  abbrev set_channel : Option A.Channel → Exec Client (Unit {0})
  set_channel channel c = (ok tt, record c { open_channel = channel })

  abbrev pub reconnect : Text → Exec Client A.Connection
  reconnect url = do
    connection ← in_world (A.connect_robust url)
    set_connection (some connection)
    pure connection

  -- The connection of `_channel_open`: the one there is, if it is open, or a new one.
  unfoldable pub connection_of : Text → Option A.Connection → Exec Client A.Connection
  connection_of url none c = reconnect url c
  connection_of url (some connection) c =
      if A.connection_is_closed connection c.world then reconnect url c else (ok connection, c)

  abbrev pub new_channel : A.Connection → Exec Client A.Channel
  new_channel connection = do
    channel ← in_world (A.channel connection)
    set_channel (some channel)
    pure channel

  -- The channel of `_channel_open`.
  unfoldable pub channel_of : A.Connection → Option A.Channel → Exec Client A.Channel
  channel_of connection none c = new_channel connection c
  channel_of connection (some channel) c =
      if A.channel_is_closed channel c.world then new_channel connection c else (ok channel, c)

  -- `_channel_open`
  unfoldable pub channel_open : Text → Exec Client A.Channel
  channel_open url c =
      proceed (λ connection c₁. channel_of connection c₁.open_channel c₁)
        (connection_of url c.connection c)

  abbrev pub close_if_open :
      {H : Type 0}
      → (H → A.State → Bool)
      → (H → Exec A.State (Unit {0}))
      → Option H
      → Exec Client (Unit {0})
  close_if_open is_closed close_it none c = (ok tt, c)
  close_if_open is_closed close_it (some h) c =
      if is_closed h c.world then (ok tt, c) else in_world (close_it h) c

  -- The first half of `close`, for the channel, and the second, for the connection.
  unfoldable pub drop_channel : Exec Client (Unit {0})
  drop_channel c =
      (do close_if_open A.channel_is_closed A.close_channel c.open_channel; set_channel none) c

  unfoldable pub drop_connection : Exec Client (Unit {0})
  drop_connection c =
      (do close_if_open A.connection_is_closed A.close_connection c.connection; set_connection none)
        c

  -- `close`
  unfoldable pub close : Exec Client (Unit {0})
  close = do drop_channel; drop_connection

  module _ (R : Runtime) (url : Text) where
    -- `RabbitMQPublisher.publish`
    unfoldable pub publish : Text → Json R.Float → Exec Client (Unit {0})
    publish queue payload = do
      channel ← channel_open url
      in_world (A.declare_queue channel queue)
      in_world (A.publish channel queue (R.dumps payload))

    -- `RabbitMQPublisher`
    abbrev pub rabbit_publisher : QueuePublisher R.Float
    rabbit_publisher = record { State = Client; publish = publish }

    -- `RabbitMQConsumer.consume` up to its loop
    unfoldable pub subscribe : Text → ℕ → Exec Client (Unit {0})
    subscribe queue prefetch = do
      channel ← channel_open url
      in_world (A.set_qos channel prefetch)
      in_world (A.declare_queue channel queue)
