-- ===== src/Connection/Locking.antt =====
-- What `Channel` does, in every state that the program can reach.
use multi_tenant_messaging.Base.{ℕ, some, ◌≡◌, true, ◌⊎◌, is_some}
use multi_tenant_messaging.Connection.{
  Connection, Dial, connect, get_channel, new_channel, blocked, close_connection, is_closed,
  returned, get_connection, get_channel_late, has, call_failed, failed_to_create_channel,
}

-- There is a channel exactly where there is a connection.
abbrev IsPaired : Connection → Type 0
IsPaired c = is_some c.conn ≡ is_some c.channel

-- What no call does any more while the mutex is held.
abbrev pub AllBlocked : Connection → Type 0
AllBlocked c =
    ((d : Dial) → (connect d c).1 ≡ blocked)
    × ((d : Dial) → (get_channel d c).1 ≡ blocked)
    × ((d : Dial) → (get_channel_late d c).1 ≡ blocked)
    × ((d again : Dial) → (new_channel d again c).1 ≡ blocked)
    × ((close_connection c).1 ≡ blocked)
    × (is_closed c ≡ blocked)
    × (get_connection c ≡ blocked)

-- A call that went on after its read lock: it opens a channel on the connection, where that is open, or
-- takes the mutex for ever.
abbrev pub LateCases : Dial → Connection → Type 0
LateCases d c =
    ((n : ℕ) × (c.conn ≡ some n)
      × (has n c.open_links ≡ true)
      × ((get_channel_late d c ≡ (record c { channel = some n }, returned n))
          ⊎ (get_channel_late d c ≡ (c, call_failed failed_to_create_channel))))
    ⊎ (get_channel_late d c ≡ (record c { locked = true }, blocked))
