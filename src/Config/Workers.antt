-- ===== src/Config/Workers.antt =====
-- What the worker variables and `MESSAGE_TTL_MS` come to at the manager and at the broker.
use multi_tenant_messaging.Base.{
  ℕ, String, Option, ◌≡◌, ◌<◌, ◌*◌, ◌^◌, some, min, ap, subst, ◌∙◌, refl, arith, true,
}
use multi_tenant_messaging.Base.Assoc.{lookup}
use multi_tenant_messaging.Config.{
  Env, Config, get_env_as_int, load, loaded, workers_config, manager_of, get_env, WorkersConfig,
  ttl_duration,
}
use multi_tenant_messaging.Manager.{get_consumer, new_manager, spawn_consumer}
use multi_tenant_messaging.Topology.{main_args, milliseconds}
use multi_tenant_messaging.Base.Int.{ℤ, pos, negsuc, int32, scale_ℤ, int64, int64_fits, ltb_ℤ}
use multi_tenant_messaging.Amqp.{Answers, Broker, Fault, err}
use multi_tenant_messaging.Manager.Spawn.{Spawned, spawn_consumer_new}
use multi_tenant_messaging.Manager.Bounds.{wanted, IsConfigured}
use multi_tenant_messaging.Manager.Limit.{spawn_negative_limit}
use multi_tenant_messaging.Config.Load.{LoadedAs, load-LoadedAs}
use mathlib.Core.Option.{none}

-- An integer variable, or its default where it is unset or unreadable, is a positive count.
abbrev pub IsCount : Env → String → ℤ → ℕ → Type 0
IsCount env k d n = (get_env_as_int env k d ≡ pos n) × (0 < n)

loaded_as :
    (env : Env) (expiry : Option ℤ) (cfg : Config)
    → LoadedAs env expiry (loaded cfg)
    → cfg.workers ≡ workers_config env
loaded_as env none cfg h = absurd h
loaded_as env (some expiry) cfg (set, same) = ap (λ (c : Config). c.workers) same

loaded_config :
    (parse_duration : String → Option ℤ) (env : Env) {cfg : Config}
    → load parse_duration env ≡ loaded cfg
    → cfg.workers ≡ workers_config env
loaded_config parse_duration env {cfg} h =
    loaded_as env (parse_duration (get_env env "JWT_EXPIRY" "24h")) cfg
      (subst (LoadedAs env _) h (load-LoadedAs parse_duration env))

pub load-IsConfigured :
    (parse_duration : String → Option ℤ) (env : Env) (d l : ℕ) {cfg : Config}
    → load parse_duration env ≡ loaded cfg
    → IsCount env "DEFAULT_WORKERS" (pos 3) d
    → IsCount env "MAX_WORKERS" (pos 50) l
    → l < 2 ^ 31
    → (v : IsConfigured (manager_of cfg)) × (v.default ≡ d) × (v.limit ≡ l)
unfolding new_manager
load-IsConfigured parse_duration env d l {cfg} h (has_d, low_d) (has_l, low_l) high =
    let same = loaded_config parse_duration env {cfg = cfg} h in
    (
      record {
        default = d;
        limit = l;
        has_default = ap (λ (c : WorkersConfig). c.default) same ∙ has_d;
        has_limit = ap (λ (c : WorkersConfig). c.max) same ∙ has_l;
        default_low = low_d;
        limit_low = low_l;
        limit_high = high;
      },
      refl,
      refl,
    )

-- The manager of a loaded configuration whose default and limit are positive, with a limit below 2^31, gives a
-- tenant without a consumer `min limit (wanted default asked)` workers, or fails and changes no registry.
pub load-spawn :
    (parse_duration : String → Option ℤ) (env : Env) (d l : ℕ) {cfg : Config}
    → load parse_duration env ≡ loaded cfg
    → IsCount env "DEFAULT_WORKERS" (pos 3) d
    → IsCount env "MAX_WORKERS" (pos 50) l
    → l < 2 ^ 31
    → (k : String) (asked : ℤ) (w : Answers) (b : Broker)
    → Spawned
        (manager_of cfg)
        k
        (min l (wanted d asked))
        b
        (spawn_consumer (manager_of cfg) k asked w b)
unfolding get_consumer new_manager lookup
load-spawn parse_duration env d l {cfg} h has_d has_l high k asked w b =
    let (v, default, limit) =
      load-IsConfigured parse_duration env d l {cfg = cfg} h has_d has_l high in
    rw (default, limit) at (spawn_consumer_new (manager_of cfg) k asked w b v refl)

scale_pos : (n : ℕ) → scale_ℤ 1_000_000 (pos n) ≡ pos (1_000_000 * n)
scale_pos n = ground arith

ttl_duration_pos : (n : ℕ) → n * 1_000_000 < 2 ^ 63 → ttl_duration (pos n) ≡ pos (1_000_000 * n)
ttl_duration_pos n fits = ap int64 (scale_pos n) ∙ int64_fits (1_000_000 * n) (omega arith)

whole_milliseconds : (n : ℕ) → milliseconds (pos (1_000_000 * n)) ≡ pos n
whole_milliseconds n = ap pos (omega arith)

positive : (n : ℕ) → 0 < n → ltb_ℤ (pos 0) (pos (1_000_000 * n)) ≡ true
positive n low = ground arith

queue_ttl :
    (dlx : String) (n : ℕ)
    → 0 < n
    → (main_args dlx (pos (1_000_000 * n)))
      ≡ record { dead_letter_exchange = some dlx; message_ttl = some (int32 (pos n)) }
unfolding main_args
queue_ttl dlx n low = rw (positive n low, whole_milliseconds n) refl

-- The main queue of a tenant gets the expiry that `MESSAGE_TTL_MS` says, as a 32-bit integer: the number itself below
-- 2^31, and a wrapped one from there on.
pub load_ttl :
    (parse_duration : String → Option ℤ) (env : Env) (n : ℕ) (dlx : String) {cfg : Config}
    → load parse_duration env ≡ loaded cfg
    → IsCount env "MESSAGE_TTL_MS" (pos 30_000) n
    → n * 1_000_000 < 2 ^ 63
    → (main_args dlx (manager_of cfg).message_ttl)
      ≡ record { dead_letter_exchange = some dlx; message_ttl = some (int32 (pos n)) }
unfolding new_manager
load_ttl parse_duration env n dlx {cfg} h (has, low) fits =
    ap (main_args dlx) (
      ap (λ (c : WorkersConfig). c.message_ttl) (loaded_config parse_duration env {cfg = cfg} h)
      ∙ ap ttl_duration has
      ∙ ttl_duration_pos n fits)
    ∙ queue_ttl dlx n low

-- A negative `MAX_WORKERS` is not refused: with a positive default, every spawn then ends in an error,
-- and no consumer is ever registered.
pub negative_limit :
    (parse_duration : String → Option ℤ) (env : Env) (d n : ℕ) {cfg : Config}
    → load parse_duration env ≡ loaded cfg
    → IsCount env "DEFAULT_WORKERS" (pos 3) d
    → get_env_as_int env "MAX_WORKERS" (pos 50) ≡ negsuc n
    → n < 2 ^ 31
    → (k : String) (asked : ℤ) (w : Answers) (b : Broker)
    → ((spawn_consumer (manager_of cfg) k asked w b).0 ≡ manager_of cfg)
      × ((e : Fault) × ((spawn_consumer (manager_of cfg) k asked w b).1 ≡ err e))
unfolding new_manager
negative_limit parse_duration env d n {cfg} h (has_d, low_d) has_l high k asked w b =
    let same = loaded_config parse_duration env {cfg = cfg} h in
    spawn_negative_limit (manager_of cfg) k asked w b d n
      (ap (λ (c : WorkersConfig). c.default) same ∙ has_d) low_d
      (ap (λ (c : WorkersConfig). c.max) same ∙ has_l) high
