-- ===== src/Queue/Publishing.antt =====
-- queue/rabbitmq.py: `RabbitMQPublisher.publish` and `close`.
use mathlib.Core.Path.{subst₂}
use doccontext.Base.{◌≡◌, refl, sym, ap, ◌∙◌, Option, none, some, [], ◌∷◌, ◌++◌, Bool}
use doccontext.Base.{Text, same, Bool-cases, inl, inr, if◌then◌else◌}
use doccontext.Base.Exn.{ok}
use doccontext.Base.Exec.{Exec, ran, proceed-Ran}
use doccontext.Base.Json.{Json}
use doccontext.Base.Runtime.{Runtime}
use doccontext.Queue.RabbitMq.{
  Amqp, Client, in_world, close_if_open, channel_open, drop_channel, drop_connection, close,
  publish,
}
use doccontext.Queue.Connection.{IsBroker, channel_open-IsLive}

module _ (A : Amqp) where
  -- A client without a connection and a channel.
  abbrev pub IsDropped : Client A → Type 0
  IsDropped c = (c.connection ≡ none) × (c.open_channel ≡ none)

  close_dropped : (c : Client A) → IsDropped c → close A c ≡ (ok tt, c)
  unfolding close drop_channel drop_connection
  close_dropped c (no_connection, no_channel) =
      subst₂
        (λ k h.
          close A (record c { connection = k; open_channel = h })
          ≡ (ok tt, record c { connection = k; open_channel = h }))
        (sym no_connection) (sym no_channel) refl

  -- Closing a handle changes the state of the library only.
  close_if_open-keeps :
      {H : Type 0} (is_closed : H → A.State → Bool) (close_it : H → Exec A.State (Unit {0}))
      (h : Option H) (c d : Client A) (u : Unit {0})
      → close_if_open A is_closed close_it h c ≡ (ok u, d)
      → (d.connection ≡ c.connection) × (d.open_channel ≡ c.open_channel)
  close_if_open-keeps is_closed close_it none c d u e =
      (ap (λ x. x.1.connection) (sym e), ap (λ x. x.1.open_channel) (sym e))
  close_if_open-keeps is_closed close_it (some h) c d u e =
      elim (Bool-cases (is_closed h c.world)) [
        | inl closed ↦
            let e' = rw closed at e in
            (ap (λ x. x.1.connection) (sym e'), ap (λ x. x.1.open_channel) (sym e'))
        | inr still ↦
            let e' = rw still at e in
            (ap (λ x. x.1.connection) (sym e'), ap (λ x. x.1.open_channel) (sym e'))
      ]

  drop_channel-none :
      (c d : Client A) (u : Unit {0}) → drop_channel A c ≡ (ok u, d) → d.open_channel ≡ none
  unfolding drop_channel
  drop_channel-none c d u h =
      elim (proceed-Ran _ (close_if_open A A.channel_is_closed A.close_channel c.open_channel c) u d
        h) [ ran v s e1 e2 ↦ ap (λ x. x.1.open_channel) (sym e2) ]

  drop_connection-IsDropped :
      (c d : Client A) (u : Unit {0})
      → c.open_channel ≡ none
      → drop_connection A c ≡ (ok u, d)
      → IsDropped d
  unfolding drop_connection
  drop_connection-IsDropped c d u no_channel h =
      elim (proceed-Ran _ (close_if_open A A.connection_is_closed A.close_connection c.connection c)
        u d h) [
          | ran v s e1 e2 ↦
              let kept =
                (close_if_open-keeps A.connection_is_closed A.close_connection c.connection c s v
                  e1).1 in
              (
                ap (λ x. x.1.connection) (sym e2),
                ap (λ x. x.1.open_channel) (sym e2) ∙ kept ∙ no_channel,
              )
        ]

  -- After `close` has returned, the client has no connection and no channel, and another `close`
  -- returns and changes nothing.
  pub close_again :
      (c d : Client A) → close A c ≡ (ok tt, d) → IsDropped d × (close A d ≡ (ok tt, d))
  unfolding close
  close_again c d h = elim (proceed-Ran _ (drop_channel A c) tt d h) [
    | ran u s e1 e2 ↦
        let dropped = drop_connection-IsDropped s d tt (drop_channel-none c s u e1) e2 in
        (dropped, close_dropped d dropped)
  ]

module _ (A : Amqp) (L : IsBroker A) (R : Runtime) (url : Text) where
  -- After `publish` has returned, the JSON text of the payload is the last message on the queue, and
  -- all other messages are as before, whether the client had a connection or had to open one.
  pub publish_lem :
      (queue : Text) (payload : Json R.Float) (c d : Client A)
      → publish A R url queue payload c ≡ (ok tt, d)
      → (q : Text)
      → L.messages d.world q ≡ (
          if same queue q
          then L.messages c.world q ++ R.dumps payload ∷ []
          else L.messages c.world q)
  unfolding publish
  publish_lem queue payload c d h q = elim (proceed-Ran _ (channel_open A url c) tt d h) [
    | ran channel c₁ e1 h1 ↦
        elim (proceed-Ran _ (in_world A (A.declare_queue channel queue) c₁) tt d h1) [
          | ran u c₂ e2 h2 ↦
              let (connection, live, same1) = channel_open-IsLive A L url c c₁ channel e1 in
              let same2 : L.messages c₂.world q ≡ L.messages c₁.world q =
                ap (λ x. L.messages x.1.world q) (sym e2)
                ∙ L.declare-messages channel queue c₁.world q in
              let added =
                L.publish-messages channel queue (R.dumps payload) c₂.world d.world q
                  (ap (λ x. (x.0, x.1.world)) h2) in
              let kept : L.messages c₂.world q ≡ L.messages c.world q = same2 ∙ same1 q in
              added ∙ ap (λ m. if same queue q then m ++ R.dumps payload ∷ [] else m) kept
        ]
  ]
