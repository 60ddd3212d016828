-- ===== src/Amqp.antt =====
-- How the code talks to the broker through github.com/streadway/amqp: the requests of one operation,
-- which of them the broker has accepted, and how many channels are open. The broker's answers are a
-- parameter.
pub mod Requests
use multi_tenant_messaging.Base.{
  ℕ, Bool, List, Option, String, if◌then◌else◌, ◌-◌, ◌++◌, ◌+◌, ◌∷◌, [],
}
use multi_tenant_messaging.Json.{JsonText}
use multi_tenant_messaging.Base.Int.{ℤ}

pub record QueueArgs : Type 0 where
  pub dead_letter_exchange : Option String  -- x-dead-letter-exchange
  pub message_ttl : Option ℤ  -- x-message-ttl, an int32

pub record Publishing : Type 0 where
  pub body : JsonText
  pub message_id : Option String
  pub headers : List (String × String)

-- Exchanges are fanout exchanges; exchanges and queues are durable and not deleted by themselves.
pub data Command : Type 0 where
  exchange_declare : String → Command
  queue_declare : String → QueueArgs → Command
  queue_bind : String → String → Command
  queue_delete : String → Command
  exchange_delete : String → Command
  publish : String → Publishing → Command
  tx_select tx_commit tx_rollback : Command

-- The wrapped errors, by what failed; `panicked` is a run-time panic.
pub data Fault : Type 0 where
  consumer_exists consumer_not_found : String → Fault
  create_channel declare_dlx declare_dlq bind_dlq declare_main : Fault
  delete_main delete_dlq delete_dlx : Fault
  marshalling publishing start_transaction commit_transaction : Fault
  panicked : Fault

pub data Result {ℓ} (A : Type ℓ) : Type ℓ where
  ok : A → Result A
  err : Fault → Result A

-- `accepted` are the requests that took effect, oldest first. `channels` counts those that the program has
-- opened and not closed itself: one that the broker closes with an error counts until then.
pub record Broker : Type 0 where
  pub accepted : List Command
  pub channels : ℕ

-- Whether a channel opens; whether the caller hears that a request was accepted, after those before it; and,
-- where it gets an error, whether the request took effect all the same and only the reply was lost. A
-- request on a channel that an error has closed is one that is refused.
pub record Answers : Type 0 where
  pub opens : Bool
  pub accepts : List Command → Command → Bool
  pub loses_reply : List Command → Command → Bool

abbrev pub Amqp : Type 0 → Type 0
Amqp A = Answers → Broker → Result A × Broker

abbrev pub pure : {A : Type 0} → A → Amqp A
pure a w b = (ok a, b)

abbrev pub fail : {A : Type 0} → Fault → Amqp A
fail e w b = (err e, b)

abbrev pub after_result :
    {A B : Type 0} → (A → Amqp B) → Answers → Result A × Broker → Result B × Broker
after_result f w (ok a, b) = f a w b
after_result f w (err e, b) = (err e, b)

infixl 5 ◌>>=◌ ◌>>◌
abbrev pub ◌>>=◌ : {A B : Type 0} → Amqp A → (A → Amqp B) → Amqp B
◌>>=◌ m f w b = after_result f w (m w b)

abbrev pub ◌>>◌ : {B : Type 0} → Amqp (Unit {0}) → Amqp B → Amqp B
m >> k = m >>= λ _. k

-- The broker after a request that took effect, and after one whose caller got an error.
abbrev pub effected : Command → Broker → Broker
effected c b = record b { accepted = b.accepted ++ c ∷ [] }

abbrev pub unanswered : Command → Answers → Broker → Broker
unanswered c w b = if w.loses_reply b.accepted c then effected c b else b

abbrev pub request : Command → Fault → Amqp (Unit {0})
request c e w b =
    if w.accepts b.accepted c then (ok tt, effected c b) else (err e, unanswered c w b)

-- A request whose error is ignored.
abbrev pub attempt : Command → Amqp (Unit {0})
attempt c w b = (ok tt, if w.accepts b.accepted c then effected c b else unanswered c w b)

abbrev pub open_channel : Amqp (Unit {0})
open_channel w b =
    if w.opens then (ok tt, record b { channels = b.channels + 1 }) else (err create_channel, b)

abbrev pub close_channel : Amqp (Unit {0})
close_channel w b = (ok tt, record b { channels = b.channels - 1 })

-- `defer ch.Close()`: the channel is closed on every way out.
abbrev pub closing : {A : Type 0} → Result A × Broker → Result A × Broker
closing (r, b) = (r, record b { channels = b.channels - 1 })

abbrev pub deferred :
    {A : Type 0} → Amqp A → Answers → Result (Unit {0}) × Broker → Result A × Broker
deferred m w (ok _, b) = closing (m w b)
deferred m w (err e, b) = (err e, b)

abbrev pub with_channel : {A : Type 0} → Amqp A → Amqp A
with_channel m w b = deferred m w (open_channel w b)
