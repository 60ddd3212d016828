-- ===== src/Config/Load.antt =====
-- What the environment has to hold for `Load` to succeed, and what the manager gets from it.
use multi_tenant_messaging.Base.{
  String, Option, str_eq, ◌≡◌, false, true, some, none, Bool-cases, inl, refl, inr, subst,
}
use multi_tenant_messaging.Config.{
  Env, Loaded, get_env, load, loaded, config_of, get_env_as_int, not_loaded, with_expiry,
  secret_required, invalid_expiry, Config,
}
use multi_tenant_messaging.Base.Int.{ℤ}
use multi_tenant_messaging.Base.Text.{atoi}

get_env_set : (env : Env) (k d : String) → str_eq (env k) "" ≡ false → get_env env k d ≡ env k
unfolding get_env
get_env_set env k d h = rw (h, get_env)

get_env_unset : (env : Env) (k d : String) → str_eq (env k) "" ≡ true → get_env env k d ≡ d
unfolding get_env
get_env_unset env k d h = rw (h, get_env)

-- What `Load` makes of a secret and of what the expiry reads as.
abbrev pub LoadedAs : Env → Option ℤ → Loaded → Type 0
LoadedAs env (some expiry) (loaded cfg) =
    (str_eq (env "JWT_SECRET") "" ≡ false) × (cfg ≡ config_of env (env "JWT_SECRET") expiry)
LoadedAs env none (loaded cfg) = ⊥
LoadedAs env expiry (not_loaded secret_required) = str_eq (env "JWT_SECRET") "" ≡ true
LoadedAs env expiry (not_loaded invalid_expiry) =
    (str_eq (env "JWT_SECRET") "" ≡ false) × (expiry ≡ none)

with_expiry-LoadedAs :
    (env : Env) (expiry : Option ℤ)
    → str_eq (env "JWT_SECRET") "" ≡ false
    → LoadedAs env expiry (with_expiry env (env "JWT_SECRET") expiry)
with_expiry-LoadedAs env none h = (h, refl)
with_expiry-LoadedAs env (some expiry) h = (h, refl)

missing-LoadedAs :
    (env : Env) (expiry : Option ℤ)
    → str_eq (env "JWT_SECRET") "" ≡ true
    → LoadedAs env expiry (not_loaded secret_required)
missing-LoadedAs env none h = h
missing-LoadedAs env (some expiry) h = h

load_set :
    (parse_duration : String → Option ℤ) (env : Env)
    → str_eq (env "JWT_SECRET") "" ≡ false
    → load parse_duration env
      ≡ with_expiry env (env "JWT_SECRET") (parse_duration (get_env env "JWT_EXPIRY" "24h"))
unfolding load
load_set parse_duration env h = rw (get_env_set env "JWT_SECRET" "" h, h) refl

load_unset :
    (parse_duration : String → Option ℤ) (env : Env)
    → str_eq (env "JWT_SECRET") "" ≡ true
    → load parse_duration env ≡ not_loaded secret_required
unfolding load
load_unset parse_duration env h = rw (get_env_unset env "JWT_SECRET" "" h) refl

-- `Load` refuses an environment for a missing secret exactly where `JWT_SECRET` is unset or empty, and for
-- the expiry exactly where the secret is there and the expiry, "24h" where it is not set, is no duration;
-- otherwise it succeeds, with that secret, that expiry and the rest of the environment.
pub load-LoadedAs :
    (parse_duration : String → Option ℤ) (env : Env)
    → LoadedAs env (parse_duration (get_env env "JWT_EXPIRY" "24h")) (load parse_duration env)
load-LoadedAs parse_duration env =
    let expiry = parse_duration (get_env env "JWT_EXPIRY" "24h") in
    elim (Bool-cases (str_eq (env "JWT_SECRET") "")) [
      | inl h ↦ rw (load_unset parse_duration env h) (missing-LoadedAs env expiry h)
      | inr h ↦ rw (load_set parse_duration env h) (with_expiry-LoadedAs env expiry h)
    ]

-- What an integer variable says: the default where it is unset or is no integer of 64 bits.
read_int :
    (env : Env) (k : String) (d n : ℤ)
    → atoi (env k) ≡ some n
    → str_eq (env k) "" ≡ false
    → get_env_as_int env k d ≡ n
unfolding get_env_as_int
read_int env k d n e h = rw (h, e) refl

default_int : (env : Env) (k : String) (d : ℤ) → atoi (env k) ≡ none → get_env_as_int env k d ≡ d
unfolding get_env_as_int
default_int env k d e = elim (Bool-cases (str_eq (env k) "")) [
  | inl h ↦ rw h refl
  | inr h ↦ rw (h, e) refl
]

as_loaded_secret :
    (env : Env) (expiry : Option ℤ) (cfg : Config)
    → LoadedAs env expiry (loaded cfg)
    → str_eq cfg.jwt.secret "" ≡ false
as_loaded_secret env none cfg h = absurd h
as_loaded_secret env (some expiry) cfg (set, same) = rw same set

-- A loaded configuration has a secret.
pub load_secret :
    (parse_duration : String → Option ℤ) (env : Env) {cfg : Config}
    → load parse_duration env ≡ loaded cfg
    → str_eq cfg.jwt.secret "" ≡ false
load_secret parse_duration env {cfg} h =
    as_loaded_secret env (parse_duration (get_env env "JWT_EXPIRY" "24h")) cfg
      (subst (LoadedAs env _) h (load-LoadedAs parse_duration env))
