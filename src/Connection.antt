-- ===== src/Connection.antt =====
-- internal/rabbitmq/connection.go: `Connection`, the wrapper with its mutex and its reconnects.
pub mod Steps
pub mod Locking
pub mod Loss
use multi_tenant_messaging.Base.{
  ℕ, Bool, List, Option, [], if◌then◌else◌, suc, false, none, not, some, true, ◌∷◌, ◌&&◌, ◌==◌,
  ◌||◌,
}

-- Connections of github.com/streadway/amqp are numbered in the order of their dialling; `open_links` are those that
-- are open at the broker, and a channel is the connection it was opened on. `watchers` are the running
-- goroutines of `handleReconnect`, each by the connection it watches. `locked` is the mutex in the hands of
-- a goroutine that waits for it; between calls that end, it is free.
pub record Connection : Type 0 where
  pub dialled : ℕ
  pub open_links : List ℕ
  pub conn : Option ℕ
  pub channel : Option ℕ
  pub closed : Bool
  pub watchers : List ℕ
  pub locked : Bool

pub data ConnError : Type 0 where
  connection_is_closed failed_to_connect failed_to_open_channel failed_to_create_channel : ConnError
  close_failed : ConnError

-- A call returns a value or an error, waits for ever, or panics.
pub data Call {ℓ} (A : Type ℓ) : Type ℓ where
  returned : A → Call A
  call_failed : ConnError → Call A
  blocked panics : Call A

-- Whether the broker accepts a new connection, and a channel on one.
pub record Dial : Type 0 where
  pub dials : Bool
  pub opens : Bool

-- `NewConnection`
unfoldable pub new_connection : Connection
new_connection = record {
  dialled = 0;
  open_links = [];
  conn = none;
  channel = none;
  closed = false;
  watchers = [];
  locked = false;
}

abbrev pub has : ℕ → List ℕ → Bool
has n [] = false
has n (k ∷ ks) = k == n || has n ks

abbrev pub without : ℕ → List ℕ → List ℕ
without n [] = []
without n (k ∷ ks) = if k == n then without n ks else k ∷ without n ks

-- `c.conn == nil || c.conn.IsClosed()`
abbrev pub is_dead : Option ℕ → List ℕ → Bool
is_dead none links = true
is_dead (some n) links = not (has n links)

-- The new connection and its first channel are stored, and a goroutine watches the connection.
abbrev pub connected : Connection → Connection
connected c = record c {
  dialled = suc c.dialled;
  open_links = c.dialled ∷ c.open_links;
  conn = some c.dialled;
  channel = some c.dialled;
  watchers = c.dialled ∷ c.watchers;
}

-- `Connect` once it has the mutex. A connection without a channel is closed again.
abbrev pub connect_locked : Dial → Connection → Connection × Call (Unit {0})
connect_locked d c =
    if c.closed
    then (c, call_failed connection_is_closed)
    else if not d.dials
    then (c, call_failed failed_to_connect)
    else if not d.opens
    then (record c { dialled = suc c.dialled }, call_failed failed_to_open_channel)
    else (connected c, returned tt)

-- `Connect`
unfoldable pub connect : Dial → Connection → Connection × Call (Unit {0})
connect d c = if c.locked then (c, blocked) else connect_locked d c

-- `Channel` past the second `Lock`: a connection that is missing or closed makes it call `Connect`, which
-- waits for the mutex that the call itself holds.
abbrev pub open_locked : Dial → Connection → Connection × Call ℕ
open_locked d c =
    if is_dead c.conn c.open_links
    then (record c { locked = true }, blocked)
    else if d.opens
    then (record c { channel = c.conn }, elim c.conn [ none ↦ panics | some n ↦ returned n ])
    else (c, call_failed failed_to_create_channel)

abbrev pub found_or_open : Dial → Option ℕ → Connection → Connection × Call ℕ
found_or_open d none c = open_locked d c
found_or_open d (some n) c = (c, returned n)

-- `Channel` once it has found no channel under the read lock and has given that back: other calls may have
-- come in between.
unfoldable pub get_channel_late : Dial → Connection → Connection × Call ℕ
get_channel_late d c = if c.locked then (c, blocked) else open_locked d c

-- `Channel` with nothing between its two locks: a channel that was stored is returned as it is.
unfoldable pub get_channel : Dial → Connection → Connection × Call ℕ
get_channel d c = if c.locked then (c, blocked) else found_or_open d c.channel c

-- `conn.Channel()` on a connection, if it is there and open.
abbrev pub channel_on : Dial → Option ℕ → List ℕ → Call ℕ
channel_on d none links = panics
channel_on d (some n) links =
    if has n links && d.opens then returned n else call_failed failed_to_create_channel

abbrev pub after_connect : Dial → Connection × Call (Unit {0}) → Connection × Call ℕ
after_connect d (c, returned _) = (c, channel_on d c.conn c.open_links)
after_connect d (c, call_failed e) = (c, call_failed e)
after_connect d (c, blocked) = (c, blocked)
after_connect d (c, panics) = (c, panics)

-- `NewChannel`; `again` is what the broker says to the channel after a new connection.
unfoldable pub new_channel : Dial → Dial → Connection → Connection × Call ℕ
unfolding connect
new_channel d again c =
    if c.locked
    then (c, blocked)
    else if is_dead c.conn c.open_links
    then after_connect again (connect d c)
    else (c, channel_on d c.conn c.open_links)

abbrev pub close_link : Option ℕ → Connection → Connection × Call (Unit {0})
close_link none c = (c, returned tt)
close_link (some n) c =
    if has n c.open_links
    then (record c { open_links = without n c.open_links }, returned tt)
    else (c, call_failed close_failed)

-- `Close`: the second one panics, as it closes `reconnect` again.
unfoldable pub close_connection : Connection → Connection × Call (Unit {0})
close_connection c =
    if c.locked
    then (c, blocked)
    else if c.closed
    then (c, panics)
    else close_link c.conn (record c { closed = true })

-- `IsClosed`
pub is_closed : Connection → Call Bool
is_closed c = if c.locked then blocked else returned c.closed

-- `GetConnection`
unfoldable pub get_connection : Connection → Call (Option ℕ)
get_connection c = if c.locked then blocked else returned c.conn

-- The broker or the network closes a connection.
abbrev pub drop_link : ℕ → Connection → Connection
drop_link n c = record c { open_links = without n c.open_links }

-- `handleReconnect` when it learns the error with which connection `n` was closed: one call of `Connect`, whose
-- error is ignored, and the goroutine ends. A close without an error, as by `Close`, is read as none and only lets
-- the loop go round.
unfoldable pub handle_reconnect : Dial → ℕ → Connection → Connection
unfolding connect
handle_reconnect d n c = (connect d (record c { watchers = without n c.watchers })).0
