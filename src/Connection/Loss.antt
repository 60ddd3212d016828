-- ===== src/Connection/Loss.antt =====
-- A connection that is lost, and the watcher's single attempt.
use multi_tenant_messaging.Base.{
  ℕ, List, arith, ◌<◌, ◌≡◌, [], false, true, ◌∷◌, refl, none, if_elim, ◌==◌, Option, ap, subst,
  some, sym, not, ◌∙◌,
}
use multi_tenant_messaging.Connection.{
  Connection, connected, has, is_dead, without, drop_link, Dial, handle_reconnect, get_channel,
  get_channel_late, close_connection, connect, Call,
}
use multi_tenant_messaging.Connection.Steps.{
  IsKept, get_channel_cases, get_channel_late_cases, close_cases,
}

-- Connection `n` was dialled before and is not open.
abbrev pub IsLost : ℕ → Connection → Type 0
IsLost n c = (n < c.dialled) × (has n c.open_links ≡ false)

has-without : (n k : ℕ) (links : List ℕ) → has n links ≡ false → has n (without k links) ≡ false
has-without n k [] h = refl
has-without n k (l ∷ ls) h =
    if_elim (λ ms. has n ms ≡ false) (l == k) (λ _. has-without n k ls (ground (arith, h)))
      (λ _. ground (arith, h, has-without n k ls (ground (arith, h))))

IsLost-connected : (n : ℕ) (c : Connection) → IsLost n c → IsLost n (connected c)
IsLost-connected n c (low, gone) = (omega arith, ground (arith, low, gone))

pub IsLost-IsKept : (n : ℕ) → IsKept (IsLost n)
IsLost-IsKept n = record {
  counted = λ c p. (omega (arith, p.0), p.1);
  made = IsLost-connected n;
  stuck = λ c p. p;
  stored = λ c p. p;
  marked = λ c p. p;
  dropped = λ k c p. (p.0, has-without n k c.open_links p.1);
  watching = λ ws c p. p;
}

-- Nobody watches a connection that is missing or closed.
abbrev pub IsGivenUp : Connection → Type 0
IsGivenUp c = (c.watchers ≡ []) × (is_dead c.conn c.open_links ≡ true)

-- What happens without a call of `Connect` or `NewChannel`: links drop, watchers wake or end, and `Channel`
-- and `Close` are called.
pub data QuietStep : Connection → Connection → Type 0 where
  drops_quietly : (n : ℕ) (c : Connection) → QuietStep c (drop_link n c)
  wakes :
      (d : Dial) (n : ℕ) (c : Connection)
      → has n c.watchers ≡ true
      → has n c.open_links ≡ false
      → QuietStep c (handle_reconnect d n c)
  ends :
      (n : ℕ) (c : Connection)
      → c.closed ≡ true
      → QuietStep c (record c { watchers = without n c.watchers })
  gets : (d : Dial) (c : Connection) → QuietStep c (get_channel d c).0
  gets_belated : (d : Dial) (c : Connection) → QuietStep c (get_channel_late d c).0
  shuts : (c : Connection) → QuietStep c (close_connection c).0

pub data QuietRun : Connection → Connection → Type 0 where
  still_here : (c : Connection) → QuietRun c c
  quietly : {a b c : Connection} → QuietRun a b → QuietStep b c → QuietRun a c

dead_without :
    (found : Option ℕ) (n : ℕ) (links : List ℕ)
    → is_dead found links ≡ true
    → is_dead found (without n links) ≡ true
dead_without none n links h = refl
dead_without (some k) n links h = ap not (has-without k n links (ground (arith, h)))

drop_link-IsGivenUp : (n : ℕ) (c : Connection) → IsGivenUp c → IsGivenUp (drop_link n c)
drop_link-IsGivenUp n c (nobody, dead) = (nobody, dead_without c.conn n c.open_links dead)

QuietStep-IsGivenUp : (b c : Connection) → QuietStep b c → IsGivenUp b → IsGivenUp c
QuietStep-IsGivenUp _ _ (drops_quietly n c) given = drop_link-IsGivenUp n c given
QuietStep-IsGivenUp _ _ (wakes d n c watched gone) (nobody, dead) =
    absurd (ground (arith, watched, ap (has n) nobody))
QuietStep-IsGivenUp _ _ (ends n c over) (nobody, dead) = (ap (without n) nobody, dead)
QuietStep-IsGivenUp _ _ (gets d c) given = get_channel_cases IsGivenUp d c given given given
QuietStep-IsGivenUp _ _ (gets_belated d c) given =
    get_channel_late_cases IsGivenUp d c given given given
QuietStep-IsGivenUp _ _ (shuts c) given =
    close_cases IsGivenUp c given given
      (λ n. drop_link-IsGivenUp n (record c { closed = true }) given)

QuietRun-IsGivenUp : {a c : Connection} → QuietRun a c → IsGivenUp a → IsGivenUp c
QuietRun-IsGivenUp (still_here c) given = given
QuietRun-IsGivenUp (quietly {a} {b} {c} run step) given =
    QuietStep-IsGivenUp b c step (QuietRun-IsGivenUp run given)

refused_dial : (d : Dial) (c : Connection) → d.dials ≡ false → (connect d c).0 ≡ c
unfolding connect
refused_dial d c refuses =
    let Q : Connection × Call (Unit {0}) → Type 0 = λ out. out.0 ≡ c in
    if_elim Q c.locked (λ _. refl)
      (λ _.
        if_elim Q c.closed (λ _. refl)
          (λ _.
            if_elim Q (not d.dials) (λ _. refl) (λ dials. absurd (ground (arith, refuses, dials)))))

-- `handleReconnect` tries once. Where the only watcher wakes on a closed connection and the broker does
-- not answer its one attempt, nobody watches any more, and the connection stays closed whatever the
-- broker does later, and whatever calls of `Channel` and `Close` follow.
pub reconnect_gives_up :
    (d : Dial) (n : ℕ) (c : Connection) {after : Connection}
    → c.watchers ≡ n ∷ []
    → is_dead c.conn c.open_links ≡ true
    → d.dials ≡ false
    → QuietRun (handle_reconnect d n c) after
    → (after.watchers ≡ []) × (is_dead after.conn after.open_links ≡ true)
unfolding handle_reconnect
reconnect_gives_up d n c {after} only dead refuses run =
    let woken = record c { watchers = without n c.watchers } in
    QuietRun-IsGivenUp run (
      subst IsGivenUp (sym (refused_dial d woken refuses))
        (ap (without n) only ∙ ground arith, dead))
