-- ===== src/Boot/Lost.antt =====
-- The connection that `main` hands to the manager, and what its loss means.
use multi_tenant_messaging.Base.{
  ℕ, String, Bool, ◌≡◌, ◌<◌, false, true, none, some, refl, arith, ap, subst, ◌∙◌,
}
use multi_tenant_messaging.Base.Int.{ℤ}
use multi_tenant_messaging.Db.{Db}
use multi_tenant_messaging.Config.{Config}
use multi_tenant_messaging.Amqp.{Answers, Broker, err, create_channel}
use multi_tenant_messaging.Boot.{Running, running, with_connection}
use multi_tenant_messaging.Connection.{
  Connection, Dial, Call, connect, new_connection, has, is_dead, channel_on, returned, call_failed,
  blocked, panics,
}
use multi_tenant_messaging.Connection.Steps.{IsKept, Reach, Reach-IsKept}
use multi_tenant_messaging.Connection.Loss.{IsLost, IsLost-IsKept}
use multi_tenant_messaging.Manager.{Manager, get_consumer, spawn_consumer}
use multi_tenant_messaging.Manager.Spawn.{spawn_without_channel}

abbrev pub got_channel : Call ℕ → Bool
got_channel (returned n) = true
got_channel (call_failed e) = false
got_channel blocked = false
got_channel panics = false

-- The manager gets the first connection.
held_first :
    (cfg : Config) (db : Db) (b : Broker) (d : Dial) {r : Running}
    → with_connection cfg db b (connect d new_connection) ≡ running r
    → (r.held ≡ some 0) × (0 < r.connection.dialled)
unfolding connect new_connection
held_first cfg db b d {r} e = ground (arith, e)

counted-IsKept : IsKept (λ c. 0 < c.dialled)
counted-IsKept = record {
  counted = λ c p. omega (arith, p);
  made = λ c p. omega (arith, p);
  stuck = λ c p. p;
  stored = λ c p. p;
  marked = λ c p. p;
  dropped = λ n c p. p;
  watching = λ ws c p. p;
}

no_channel :
    (d : Dial) (links : Connection)
    → has 0 links.open_links ≡ false
    → got_channel (channel_on d (some 0) links.open_links) ≡ false
no_channel d links gone = rw gone refl

-- Where `main` has started and the connection that it gave to the manager is closed in some later state of the
-- wrapper, then in every state after it, reconnected or not, `SpawnConsumer` fails for every tenant that has no
-- consumer, and the registry and the broker stay: the manager asks the connection of the start for the
-- channel.
pub spawn_after_loss :
    (cfg : Config) (db : Db) (b : Broker) (d e : Dial) {r : Running} {lost later : Connection}
    (m : Manager) (k : String) (asked : ℤ) (w : Answers) (now : Broker)
    → with_connection cfg db b (connect d new_connection) ≡ running r
    → Reach r.connection lost
    → is_dead r.held lost.open_links ≡ true
    → Reach lost later
    → w.opens ≡ got_channel (channel_on e r.held later.open_links)
    → get_consumer m k ≡ none
    → spawn_consumer m k asked w now ≡ (m, err create_channel, now)
spawn_after_loss cfg db b d e {r} {lost} {later} m k asked w now started run dead on answers
      absent =
    let (first, some_dialled) = held_first cfg db b d {r = r} started in
    let low =
      Reach-IsKept (λ c. 0 < c.dialled) {a = r.connection} {c = lost} counted-IsKept run
        some_dialled in
    let gone : has 0 lost.open_links ≡ false =
      ground (arith, subst (λ h. is_dead h lost.open_links ≡ true) first dead) in
    let (_, still) =
      Reach-IsKept (IsLost 0) {a = lost} {c = later} (IsLost-IsKept 0) on (low, gone) in
    spawn_without_channel m k asked w now absent (
      answers
      ∙ ap (λ h. got_channel (channel_on e h later.open_links)) first
      ∙ no_channel e later still)
