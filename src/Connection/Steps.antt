-- ===== src/Connection/Steps.antt =====
-- The steps of callers, of the broker and of the watching goroutines, in any order.
use multi_tenant_messaging.Base.{ℕ, suc, true, ◌≡◌, false, some, Option, if_elim, not, List}
use multi_tenant_messaging.Connection.{
  Connection, Dial, close_connection, connect, get_channel, get_channel_late, new_channel, Call,
  drop_link, after_connect, connected, has, without, returned, handle_reconnect, blocked, is_dead,
  call_failed, open_locked, close_link, found_or_open, panics,
}
use mathlib.Core.Option.{none}

-- `gets_late` is a call of `Channel` that goes on after its read lock; no call has to precede it, since every
-- one that comes before the first connection finds no channel. A watcher wakes when its connection is closed, or ends once `Close` has closed `reconnect`.
pub data Step : Connection → Connection → Type 0 where
  connects : (d : Dial) (c : Connection) → Step c (connect d c).0
  gets_channel : (d : Dial) (c : Connection) → Step c (get_channel d c).0
  gets_late : (d : Dial) (c : Connection) → Step c (get_channel_late d c).0
  opens_channel : (d again : Dial) (c : Connection) → Step c (new_channel d again c).0
  closes : (c : Connection) → Step c (close_connection c).0
  drops : (n : ℕ) (c : Connection) → Step c (drop_link n c)
  reconnects :
      (d : Dial) (n : ℕ) (c : Connection)
      → has n c.watchers ≡ true
      → has n c.open_links ≡ false
      → Step c (handle_reconnect d n c)
  stops :
      (n : ℕ) (c : Connection)
      → c.closed ≡ true
      → Step c (record c { watchers = without n c.watchers })

pub data Reach : Connection → Connection → Type 0 where
  here : (c : Connection) → Reach c c
  onward : {a b c : Connection} → Reach a b → Step b c → Reach a c

-- A property that every step keeps.
pub Reach-keeps :
    (P : Connection → Type 0)
    → ((b c : Connection) → Step b c → P b → P c)
    → {a c : Connection} → Reach a c
    → P a
    → P c
Reach-keeps P keeps (here c) p = p
Reach-keeps P keeps (onward {a} {b} {c} r step) p = keeps b c step (Reach-keeps P keeps r p)

-- What `Connect` can do to the state, the mutex being free or not.
pub connect_cases :
    (P : Connection → Type 0) (d : Dial) (c : Connection)
    → P c
    → P (record c { dialled = suc c.dialled })
    → P (connected c)
    → P (connect d c).0
unfolding connect
connect_cases P d c same counted made =
    let Q : Connection × Call (Unit {0}) → Type 0 = λ out. P out.0 in
    if_elim Q c.locked (λ _. same)
      (λ _.
        if_elim Q c.closed (λ _. same)
          (λ _.
            if_elim Q (not d.dials) (λ _. same)
              (λ _. if_elim Q (not d.opens) (λ _. counted) (λ _. made))))

after_connect_state :
    (P : Connection → Type 0) (d : Dial) (out : Connection × Call (Unit {0}))
    → P out.0
    → P (after_connect d out).0
after_connect_state P d (c, returned _) p = p
after_connect_state P d (c, call_failed e) p = p
after_connect_state P d (c, blocked) p = p
after_connect_state P d (c, panics) p = p

-- What `NewChannel` can do to it.
pub new_channel_cases :
    (P : Connection → Type 0) (d again : Dial) (c : Connection)
    → P c
    → P (record c { dialled = suc c.dialled })
    → P (connected c)
    → P (new_channel d again c).0
unfolding new_channel
new_channel_cases P d again c same counted made =
    let Q : Connection × Call ℕ → Type 0 = λ out. P out.0 in
    if_elim Q c.locked (λ _. same)
      (λ _.
        if_elim Q (is_dead c.conn c.open_links)
          (λ _. after_connect_state P again (connect d c) (connect_cases P d c same counted made))
          (λ _. same))

close_link_cases :
    (P : Connection → Type 0) (found : Option ℕ) (c : Connection)
    → P c
    → ((n : ℕ) → P (drop_link n c))
    → P (close_link found c).0
close_link_cases P none c same dropped = same
close_link_cases P (some n) c same dropped =
    if_elim (λ (out : Connection × Call (Unit {0})). P out.0) (has n c.open_links) (λ _. dropped n)
      (λ _. same)

-- What `Close` can do to it.
pub close_cases :
    (P : Connection → Type 0) (c : Connection)
    → P c
    → P (record c { closed = true })
    → ((n : ℕ) → P (drop_link n (record c { closed = true })))
    → P (close_connection c).0
unfolding close_connection
close_cases P c same marked dropped =
    let Q : Connection × Call (Unit {0}) → Type 0 = λ out. P out.0 in
    if_elim Q c.locked (λ _. same)
      (λ _.
        if_elim Q c.closed (λ _. same)
          (λ _. close_link_cases P c.conn (record c { closed = true }) marked dropped))

open_locked_cases :
    (P : Connection → Type 0) (d : Dial) (c : Connection)
    → P c
    → P (record c { locked = true })
    → P (record c { channel = c.conn })
    → P (open_locked d c).0
open_locked_cases P d c same stuck stored =
    let Q : Connection × Call ℕ → Type 0 = λ out. P out.0 in
    if_elim Q (is_dead c.conn c.open_links) (λ _. stuck)
      (λ _. if_elim Q d.opens (λ _. stored) (λ _. same))

stored_cases :
    (P : Connection → Type 0) (d : Dial) (found : Option ℕ) (c : Connection)
    → P c
    → P (open_locked d c).0
    → P (found_or_open d found c).0
stored_cases P d none c same opened = opened
stored_cases P d (some n) c same opened = same

-- What `Channel` can do to it.
pub get_channel_cases :
    (P : Connection → Type 0) (d : Dial) (c : Connection)
    → P c
    → P (record c { locked = true })
    → P (record c { channel = c.conn })
    → P (get_channel d c).0
unfolding get_channel
get_channel_cases P d c same stuck stored =
    if_elim (λ (out : Connection × Call ℕ). P out.0) c.locked (λ _. same)
      (λ _. stored_cases P d c.channel c same (open_locked_cases P d c same stuck stored))

pub get_channel_late_cases :
    (P : Connection → Type 0) (d : Dial) (c : Connection)
    → P c
    → P (record c { locked = true })
    → P (record c { channel = c.conn })
    → P (get_channel_late d c).0
unfolding get_channel_late
get_channel_late_cases P d c same stuck stored =
    if_elim (λ (out : Connection × Call ℕ). P out.0) c.locked (λ _. same)
      (λ _. open_locked_cases P d c same stuck stored)

-- A property that each change of the state keeps which a step makes.
pub record IsKept (P : Connection → Type 0) : Type 0 where
  pub counted : (c : Connection) → P c → P (record c { dialled = suc c.dialled })
  pub made : (c : Connection) → P c → P (connected c)
  pub stuck : (c : Connection) → P c → P (record c { locked = true })
  pub stored : (c : Connection) → P c → P (record c { channel = c.conn })
  pub marked : (c : Connection) → P c → P (record c { closed = true })
  pub dropped : (n : ℕ) (c : Connection) → P c → P (drop_link n c)
  pub watching : (ws : List ℕ) (c : Connection) → P c → P (record c { watchers = ws })

step_keeps : (P : Connection → Type 0) → IsKept P → (b c : Connection) → Step b c → P b → P c
unfolding handle_reconnect
step_keeps P k _ _ (connects d c) p = connect_cases P d c p (k.counted c p) (k.made c p)
step_keeps P k _ _ (gets_channel d c) p = get_channel_cases P d c p (k.stuck c p) (k.stored c p)
step_keeps P k _ _ (gets_late d c) p = get_channel_late_cases P d c p (k.stuck c p) (k.stored c p)
step_keeps P k _ _ (opens_channel d again c) p =
    new_channel_cases P d again c p (k.counted c p) (k.made c p)
step_keeps P k _ _ (closes c) p =
    close_cases P c p (k.marked c p) (λ n. k.dropped n (record c { closed = true }) (k.marked c p))
step_keeps P k _ _ (drops n c) p = k.dropped n c p
step_keeps P k _ _ (reconnects d n c watched gone) p =
    let c' = record c { watchers = without n c.watchers } in
    let p' = k.watching (without n c.watchers) c p in
    connect_cases P d c' p' (k.counted c' p') (k.made c' p')
step_keeps P k _ _ (stops n c over) p = k.watching (without n c.watchers) c p

-- Such a property holds in every state that is reached from one in which it holds.
pub Reach-IsKept : (P : Connection → Type 0) {a c : Connection} → IsKept P → Reach a c → P a → P c
Reach-IsKept P {a} {c} k r p = Reach-keeps P (step_keeps P k) {a = a} {c = c} r p
