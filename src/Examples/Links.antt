-- ===== src/Examples/Links.antt =====
-- The theorems on the connection to the broker, at runs of a few steps.
use multi_tenant_messaging.Base.{false, true, ◌≡◌, [], some, refl}
use multi_tenant_messaging.Connection.{
  Connection, Dial, new_connection, connect, connected, drop_link, handle_reconnect, is_dead,
}
use multi_tenant_messaging.Connection.Steps.{Reach, onward, here, reconnects, drops}
use multi_tenant_messaging.Manager.{get_consumer, spawn_consumer}
use multi_tenant_messaging.Base.Assoc.{lookup}
use multi_tenant_messaging.Connection.Loss.{reconnect_gives_up, quietly, still_here, drops_quietly}
use multi_tenant_messaging.Examples.Setups.{fine_config}
use multi_tenant_messaging.Boot.{fresh_system}
use multi_tenant_messaging.Boot.Lost.{spawn_after_loss}
use multi_tenant_messaging.Examples.{empty_db, config, willing, idle_broker}
use multi_tenant_messaging.Base.Int.{pos}
use multi_tenant_messaging.Amqp.{err, create_channel}

abbrev up : Dial
up = record { dials = true; opens = true }

abbrev down : Dial
down = record { dials = false; opens = false }

-- Connected once; then the broker closes the connection.
abbrev one_link : Connection
one_link = connected new_connection

abbrev lost_link : Connection
lost_link = drop_link 0 one_link

abbrev back_again : Connection
back_again = handle_reconnect up 0 lost_link

back_run : Reach lost_link back_again
unfolding new_connection handle_reconnect
back_run = onward (here lost_link) (reconnects up 0 lost_link refl refl)

spawn_after_loss_example :
    spawn_consumer config "b" (pos 2) (record willing { opens = false }) idle_broker
    ≡ (config, err create_channel, idle_broker)
unfolding new_connection handle_reconnect connect get_consumer lookup
spawn_after_loss_example =
    spawn_after_loss fine_config empty_db idle_broker up up
      {r = record {
        config = fine_config;
        connection = one_link;
        held = some 0;
        system = fresh_system fine_config empty_db idle_broker;
      }}
      {lost = lost_link} {later = back_again} config "b" (pos 2) (record willing { opens = false })
      idle_broker refl (onward (here one_link) (drops 0 one_link)) refl back_run refl refl

reconnect_gives_up_example :
    let after = drop_link 0 (handle_reconnect down 0 lost_link) in
    (after.watchers ≡ []) × (is_dead after.conn after.open_links ≡ true)
unfolding new_connection
reconnect_gives_up_example =
    reconnect_gives_up down 0 lost_link {after = drop_link 0 (handle_reconnect down 0 lost_link)}
      refl refl refl
      (quietly (still_here (handle_reconnect down 0 lost_link))
        (drops_quietly 0 (handle_reconnect down 0 lost_link)))
