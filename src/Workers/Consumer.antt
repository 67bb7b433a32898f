-- ===== src/Workers/Consumer.antt =====
-- queue/rabbitmq.py: `RabbitMQConsumer.consume`, one message after the other.
use doccontext.Base.{none, some, List, [], ◌∷◌, Text}
use doccontext.Base.Exn.{Result, ok, raise}
use doccontext.Base.Exec.{Exec}
use doccontext.Base.Json.{Json}
use doccontext.Base.Runtime.{Runtime}

-- What `message.process(requeue=False)` tells the broker.
pub data Settlement : Type 0 where
  acked rejected : Settlement

module _ {S : Type 0} where
  abbrev pub settlement_of : Result (Unit {0}) × S → Settlement × S
  settlement_of (ok _, s) = (acked, s)
  settlement_of (raise e, s) = (rejected, s)

module _ (R : Runtime) {S : Type 0} (handler : Json R.Float → Exec S (Unit {0})) where
  -- The body of the loop; `message.body` is a text that has been decoded.
  unfoldable pub process : Text → S → Settlement × S
  process body s = elim (R.loads body) [
    | none ↦ (rejected, s)
    | some payload ↦ settlement_of (handler payload s)
  ]

  -- `consume`, for the messages that the queue delivers
  unfoldable pub consume : List Text → S → List Settlement × S
  consume [] s = ([], s)
  consume (body ∷ bodies) s =
      let (settlement, s₁) = process body s in
      let (settlements, s₂) = consume bodies s₁ in (settlement ∷ settlements, s₂)
