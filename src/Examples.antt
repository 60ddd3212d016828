-- ===== src/Examples.antt =====
-- Concrete data on which the theorems are applied: ids, items, pools, consumers, a broker. The
-- children apply the theorems of the part that they are named for.
mod Pools
mod Retries
mod Brokers
mod Managers
mod Deliveries
mod Services
mod Accounts
mod Web
mod Sessions
mod Links
mod Setups
mod Journeys
mod Races
use multi_tenant_messaging.Base.{
  ℕ, List, String, ◌<◌, ◌≡◌, Option, [], arith, suc, true, ◌*◌, ◌∷◌, ap, false, ltb, none, refl,
  ◌/◌, length, some, ◌≤◌,
}
use multi_tenant_messaging.Amqp.{Answers, Broker}
use multi_tenant_messaging.Db.{Db, UuidFormat, applied, TenantRow}
use multi_tenant_messaging.Json.{Message, value, object, end}
use multi_tenant_messaging.Manager.{Manager, TenantConsumer}
use multi_tenant_messaging.Pool.{WorkItem, WorkerPool}
use multi_tenant_messaging.Pool.Size.{IsSized}
use multi_tenant_messaging.Retry.{Attempt, Burial, FloatScale}
use multi_tenant_messaging.Topology.{main_queue}
use multi_tenant_messaging.Base.Int.{pos}
use multi_tenant_messaging.Manager.Bounds.{IsConfigured}
use multi_tenant_messaging.Manager.Registry.{IsRegistry}
use Prim.Native.Nat.{zero}
use native.Mathlib.Nat.{mul-le-mul_left, div-mul-le_self}
use multi_tenant_messaging.Routes.{System}
use Prim.Native.String

abbrev count_letters : String → ℕ
count_letters String.[] = 0
count_letters (String.◌∷◌ c s) = suc (count_letters s)

-- Ids in unary: the number `n` is a text of `n + 1` letters; the empty text is no id.
abbrev read_id : String → Option ℕ
read_id String.[] = none
read_id (String.◌∷◌ c s) = some (count_letters s)

abbrev letters : ℕ → String
letters zero = ""
letters (suc n) = String.◌∷◌ "a" (letters n)

pub count-letters : (n : ℕ) → count_letters (letters n) ≡ n
count-letters zero = refl
count-letters (suc n) = ap suc (count-letters n)

abbrev pub unary_ids : UuidFormat
unary_ids = record {
  read = read_id;
  parse = λ s. true;
  print = λ n. String.◌∷◌ "a" (letters n);
  read-print = λ n. ap some (count-letters n);
}

pub fraction_bound : (d k : ℕ) → k < 100 → 5 * (d * k / 500) ≤ d
fraction_bound d k h =
    omega (arith, mul-le-mul_left {m = k} {n = 100} d (omega arith), div-mul-le_self (d * k) 500)

-- Exact fractions, rounded down.
abbrev pub exact_scale : FloatScale
exact_scale = record { scale = λ d k. d * k / 500; scale_bound = fraction_bound }

abbrev pub item_a : WorkItem
item_a = record {
  message_id = "aa";
  tenant_id = "aaa";
  payload = value (object end);
  retry_count = pos 0;
}

abbrev pub item_b : WorkItem
item_b = record item_a { message_id = "aaaa"; retry_count = pos 5 }

abbrev pub pool_of_three : WorkerPool
pool_of_three = record {
  tenant_id = "aaa";
  workers = pos 3;
  work_chan = [];
  capacity = 30;
  done = false;
  live = 3;
  busy = [];
  max_retry = pos 5;
}

pub pool_of_three-IsSized : IsSized pool_of_three
pool_of_three-IsSized = record {
  counted = refl;
  low = omega arith;
  high = omega arith;
  covered = omega arith;
}

abbrev pub empty_db : Db
empty_db = record { tenants = []; messages = []; dead_letters = []; users = [] }

-- Every statement is applied; the clock's last digit is `digit`.
abbrev pub calm : ℕ → Attempt
calm digit = record {
  upsert = applied;
  complete = applied;
  now = 7;
  nanos = digit;
  jitter_nanos = 42;
  detail = "";
}

abbrev pub burial : Burial
burial = record { insert = applied; fail = applied; now = 9 }

abbrev pub willing : Answers
willing = record { opens = true; accepts = λ before c. true; loses_reply = λ before c. false }

-- A broker that takes two requests, and then loses its replies.
abbrev pub tired : Answers
tired = record {
  opens = true;
  accepts = λ before c. ltb (length before) 2;
  loses_reply = λ before c. true;
}

abbrev pub idle_broker : Broker
idle_broker = record { accepted = []; channels = 0 }

abbrev pub config : Manager
config = record {
  consumers = [];
  default_workers = pos 3;
  max_workers = pos 50;
  max_retry = pos 5;
  message_ttl = pos 60_000_000_000;
}

abbrev pub config-IsConfigured :
    (cs : List (String × TenantConsumer)) → IsConfigured (record config { consumers = cs })
config-IsConfigured cs = record {
  default = 3;
  limit = 50;
  has_default = refl;
  has_limit = refl;
  default_low = omega arith;
  limit_low = omega arith;
  limit_high = omega arith;
}

abbrev pub consumer : TenantConsumer
consumer = record {
  tenant_id = "aaa";
  queue_name = "tenant_aaa_queue";
  worker_pool = pool_of_three;
  channel_open = true;
  done = false;
}

abbrev pub one_tenant : Manager
one_tenant = record config { consumers = ("aaa", consumer) ∷ [] }

pub one_tenant-IsRegistry : IsRegistry one_tenant
unfolding main_queue
one_tenant-IsRegistry = record {
  distinct = (refl, tt);
  active = (
    record {
      own = refl;
      queue = refl;
      channel = refl;
      running = refl;
      pool_own = refl;
      pool_running = refl;
      sized = pool_of_three-IsSized;
    },
    tt,
  );
}

abbrev pub letter : Message
letter = record { id = "aa"; tenant_id = "b"; payload = value (object end); timestamp = pos 12 }

-- One tenant, whose id is 2, named "shop".
abbrev pub shop : TenantRow
shop = record { id = 2; name = "shop"; concurrency = pos 3; created_at = 5; updated_at = 5 }

abbrev pub shop_db : Db
shop_db = record empty_db { tenants = shop ∷ [] }

abbrev pub running_system : System
running_system = record { db = shop_db; manager = one_tenant; broker = idle_broker }
