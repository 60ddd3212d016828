-- ===== src/Manager/Counts.antt =====
-- The registry as a map from tenants to worker counts, which forgets the order of its entries and all else of
-- a consumer: what calls tell, and what they may.
use multi_tenant_messaging.Base.{
  [], ◌∷◌, Bool, List, Option, String, ℕ, false, ◌≡◌, some, true, if◌then◌else◌, is_some, str_eq,
  min, ap, inl, inr, refl, Bool-cases,
}
use multi_tenant_messaging.Manager.Histories.{Call, spawns, updates, stops, shuts_down}
use multi_tenant_messaging.Amqp.{Answers, Result, ok, Broker, err}
use multi_tenant_messaging.Manager.{
  Manager, TenantConsumer, get_consumer, spawn_consumer, update_concurrency, stop_consumer,
  shutdown_all,
}
use multi_tenant_messaging.Base.Int.{ℤ, pos}
use mathlib.Core.Option.{none}
use multi_tenant_messaging.Manager.Registry.{IsRegistry}
use multi_tenant_messaging.Pool.{get_worker_count}
use multi_tenant_messaging.Manager.Bounds.{wanted}
use multi_tenant_messaging.Base.Assoc.{lookup, delete, insert, lookup-delete, lookup-insert}

-- What `GetConsumer` and `GetWorkerCount` show of a tenant.
abbrev pub Counts : Type 0
Counts = String → Option ℤ

abbrev pub count_of : Option TenantConsumer → Option ℤ
count_of none = none
count_of (some c) = some (get_worker_count c.worker_pool)

abbrev pub counts : Manager → Counts
counts m k = count_of (get_consumer m k)

abbrev pub is_ok {ℓ} : {A : Type ℓ} → Result A → Bool
is_ok (ok a) = true
is_ok (err e) = false

abbrev pub returned_nothing : {A : Type 0} → Option A → Bool
returned_nothing none = false
returned_nothing (some a) = true

-- A call, and whether it returned without an error.
abbrev pub call_told : Answers → Call → Manager × Broker → (Manager × Broker) × Bool
call_told w (spawns k asked) (m, b) =
    let (m', r, after) = spawn_consumer m k asked w b in ((m', after), is_ok r)
call_told w (updates k asked) (m, b) =
    let (m', r) = update_concurrency m k asked in ((m', b), is_ok r)
call_told w (stops k taken) (m, b) = let (m', r) = stop_consumer taken m k in ((m', b), is_ok r)
call_told w (shuts_down taken) (m, b) =
    let (m', r) = shutdown_all taken m in ((m', b), returned_nothing r)

-- What a map of counts becomes by a call that told this.
abbrev pub counted : ℕ → ℕ → Bool → Call → Counts → Counts
counted d l false c f j = f j
counted d l true (spawns k asked) f j =
    if str_eq k j then some (pos (min l (wanted d asked))) else f j
counted d l true (updates k asked) f j =
    if str_eq k j then some (pos (min l (wanted 1 asked))) else f j
counted d l true (stops k taken) f j = if str_eq k j then none else f j
counted d l true (shuts_down taken) f j = none

-- What a call may tell: a tenant with a consumer gets no second one; only such a tenant's is resized or
-- stopped, and always; and all are always stopped.
abbrev pub MayTell : Bool → Call → Counts → Type 0
MayTell true (spawns k asked) f = f k ≡ none
MayTell false (spawns k asked) f = Unit
MayTell told (updates k asked) f = told ≡ is_some (f k)
MayTell told (stops k taken) f = told ≡ is_some (f k)
MayTell told (shuts_down taken) f = told ≡ true

-- A map that the calls lead to by what they told, each telling what it may.
abbrev pub Replays : ℕ → ℕ → Counts → List (Answers × Call) → List Bool → Counts → Type 0
Replays d l f [] [] g = g ≡ f
Replays d l f ((w, c) ∷ cs) (told ∷ all) g =
    MayTell told c f × Replays d l (counted d l told c f) cs all g
Replays d l f [] (told ∷ all) g = ⊥
Replays d l f ((w, c) ∷ cs) [] g = ⊥

abbrev pub HasLimits : ℕ → ℕ → Manager → Type 0
HasLimits d l m = (m.default_workers ≡ pos d) × (m.max_workers ≡ pos l)

abbrev pub IsStep : ℕ → ℕ → Call → Manager → Manager → Bool → Type 0
IsStep d l c m after told =
    MayTell told c (counts m)
    × ((j : String) → counts after j ≡ counted d l told c (counts m) j)
    × IsRegistry after
    × HasLimits d l after

pub counts-insert :
    (m : Manager) (k : String) (c : TenantConsumer) (n : ℤ)
    → c.worker_pool.workers ≡ n
    → (j : String)
    → count_of (lookup j (insert k c m.consumers)) ≡ (if str_eq k j then some n else counts m j)
unfolding get_consumer get_worker_count
counts-insert m k c n size j = elim (Bool-cases (str_eq k j)) [
  | inl own ↦ rw (lookup-insert k j c m.consumers, own) (ap some size)
  | inr other ↦ rw (lookup-insert k j c m.consumers, other) refl
]

pub counts-delete :
    (m : Manager) (k j : String)
    → count_of (lookup j (delete k m.consumers)) ≡ (if str_eq k j then none else counts m j)
unfolding get_consumer
counts-delete m k j = elim (Bool-cases (str_eq k j)) [
  | inl own ↦ rw (lookup-delete k j m.consumers, own) refl
  | inr other ↦ rw (lookup-delete k j m.consumers, other) refl
]
