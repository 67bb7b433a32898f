-- ===== src/Queue/Connection.antt =====
-- queue/rabbitmq.py: the connection and the channel of `_RabbitMQClient`, and `publish`.
use doccontext.Base.{◌≡◌, refl, sym, ap, ◌∙◌, false, Option, none, some, List, [], ◌∷◌, ◌++◌}
use doccontext.Base.{arith, Text, same, Bool-cases, inl, inr, if◌then◌else◌}
use doccontext.Base.Exn.{Result, ok, raise}
use doccontext.Base.Exec.{ran, proceed-Ran, along-ok}
use doccontext.Queue.RabbitMq.{
  Amqp, Client, reconnect, new_channel, connection_of, channel_of, channel_open,
}

-- What is relied on of `aio_pika`, while nobody else acts on the broker: a new connection and a new
-- channel are open; opening a channel leaves its connection open; `close` closes; and only
-- `publish` changes the messages that wait on the queues, to the end of one of which it adds.
pub record IsBroker (A : Amqp) : Type 0 where
  pub messages : A.State → Text → List Text
  pub connected :
      (url : Text) (s t : A.State) (c : A.Connection)
      → A.connect_robust url s ≡ (ok c, t)
      → A.connection_is_closed c t ≡ false
  pub channelled :
      (c : A.Connection) (s t : A.State) (ch : A.Channel)
      → A.channel c s ≡ (ok ch, t)
      → (A.channel_is_closed ch t ≡ false)
        × (A.connection_is_closed c t ≡ A.connection_is_closed c s)
  pub connect-messages :
      (url : Text) (s : A.State) (q : Text) → messages (A.connect_robust url s).1 q ≡ messages s q
  pub channel-messages :
      (c : A.Connection) (s : A.State) (q : Text) → messages (A.channel c s).1 q ≡ messages s q
  pub declare-messages :
      (ch : A.Channel) (name : Text) (s : A.State) (q : Text)
      → messages (A.declare_queue ch name s).1 q ≡ messages s q
  pub publish-messages :
      (ch : A.Channel) (name body : Text) (s t : A.State) (q : Text)
      → A.publish ch name body s ≡ (ok tt, t)
      → messages t q ≡ (if same name q then messages s q ++ body ∷ [] else messages s q)

module _ (A : Amqp) (L : IsBroker A) where
  -- The client has this connection, and it is open.
  abbrev pub IsConnected : A.Connection → Client A → Type 0
  IsConnected connection c =
      (c.connection ≡ some connection) × (A.connection_is_closed connection c.world ≡ false)

  -- The client has this channel, and it is open.
  abbrev pub HasChannel : A.Channel → Client A → Type 0
  HasChannel channel c =
      (c.open_channel ≡ some channel) × (A.channel_is_closed channel c.world ≡ false)

  abbrev pub SameMessages : Client A → Client A → Type 0
  SameMessages c d = (q : Text) → L.messages d.world q ≡ L.messages c.world q

  reconnect-IsConnected :
      (url : Text) (c d : Client A) (connection : A.Connection)
      → reconnect A url c ≡ (ok connection, d)
      → IsConnected connection d × SameMessages c d
  reconnect-IsConnected url c d connection h = go (A.connect_robust url c.world) refl
    where
      go :
          (r : Result A.Connection × A.State)
          → A.connect_robust url c.world ≡ r
          → IsConnected connection d × SameMessages c d
      go (ok new, t) e =
          along-ok (λ k u. IsConnected k u × SameMessages c u) new connection _ d (rw e at h)
            (
              (refl, L.connected url c.world t new e),
              λ q. ap (λ x. L.messages x.1 q) (sym e) ∙ L.connect-messages url c.world q,
            )
      go (raise exc, t) e = absurd (ground arith)

  connection_of-IsConnected :
      (url : Text) (old : Option A.Connection) (c d : Client A) (connection : A.Connection)
      → c.connection ≡ old
      → connection_of A url old c ≡ (ok connection, d)
      → IsConnected connection d × SameMessages c d
  unfolding connection_of
  connection_of-IsConnected url none c d connection is_old h =
      reconnect-IsConnected url c d connection h
  connection_of-IsConnected url (some old) c d connection is_old h =
      elim (Bool-cases (A.connection_is_closed old c.world)) [
        | inl closed ↦ reconnect-IsConnected url c d connection (rw closed at h)
        | inr live ↦
            along-ok (λ k u. IsConnected k u × SameMessages c u) old connection c d (rw live at h)
              ((is_old, live), λ q. refl)
      ]

  -- The client has this connection and this channel, and both are open.
  abbrev pub IsLive : A.Connection → A.Channel → Client A → Type 0
  IsLive connection channel c = IsConnected connection c × HasChannel channel c

  new_channel-IsLive :
      (connection : A.Connection) (c d : Client A) (channel : A.Channel)
      → IsConnected connection c
      → new_channel A connection c ≡ (ok channel, d)
      → IsLive connection channel d × SameMessages c d
  new_channel-IsLive connection c d channel (has, live) h = go (A.channel connection c.world) refl
    where
      go :
          (r : Result A.Channel × A.State)
          → A.channel connection c.world ≡ r
          → IsLive connection channel d × SameMessages c d
      go (ok new, t) e =
          let (open_new, kept) = L.channelled connection c.world t new e in
          along-ok (λ k u. IsLive connection k u × SameMessages c u) new channel _ d (rw e at h)
            (
              ((has, kept ∙ live), (refl, open_new)),
              λ q. ap (λ x. L.messages x.1 q) (sym e) ∙ L.channel-messages connection c.world q,
            )
      go (raise exc, t) e = absurd (ground arith)

  channel_of-IsLive :
      (connection : A.Connection) (old : Option A.Channel) (c d : Client A) (channel : A.Channel)
      → c.open_channel ≡ old
      → IsConnected connection c
      → channel_of A connection old c ≡ (ok channel, d)
      → IsLive connection channel d × SameMessages c d
  unfolding channel_of
  channel_of-IsLive connection none c d channel is_old has h =
      new_channel-IsLive connection c d channel has h
  channel_of-IsLive connection (some old) c d channel is_old has h =
      elim (Bool-cases (A.channel_is_closed old c.world)) [
        | inl closed ↦ new_channel-IsLive connection c d channel has (rw closed at h)
        | inr live ↦
            along-ok (λ k u. IsLive connection k u × SameMessages c u) old channel c d
              (rw live at h) ((has, (is_old, live)), λ q. refl)
      ]

  -- `_channel_open`, when it returns, returns a channel that is open and that the client keeps
  -- together with a connection that is open; and it leaves the messages on the queues as they are.
  pub channel_open-IsLive :
      (url : Text) (c d : Client A) (channel : A.Channel)
      → channel_open A url c ≡ (ok channel, d)
      → (connection : A.Connection) × IsLive connection channel d × SameMessages c d
  unfolding channel_open
  channel_open-IsLive url c d channel h =
      elim (proceed-Ran (λ k u. channel_of A k u.open_channel u)
        (connection_of A url c.connection c) channel d h) [
          | ran connection u e1 e2 ↦
              let (has, same1) =
                connection_of-IsConnected url c.connection c u connection refl e1 in
              let (live, same2) =
                channel_of-IsLive connection u.open_channel u d channel refl has e2 in
              (connection, live, λ q. same2 q ∙ same1 q)
        ]

  -- It reuses a connection and a channel that are open, and then changes nothing.
  pub channel_open_again :
      (url : Text) (connection : A.Connection) (channel : A.Channel) (c : Client A)
      → IsLive connection channel c
      → channel_open A url c ≡ (ok channel, c)
  unfolding channel_open connection_of channel_of
  channel_open_again url connection channel c ((has, live), (has_channel, open_channel)) =
      rw (has, connection_of, live, has_channel, channel_of, open_channel) refl
