-- ===== src/Routes/Steps.antt =====
-- The routes of internal/routes/tenant.go as they overlap: each runs its SQL statement, and later its call of the
-- manager. Fiber serves every request in a goroutine of its own, and no lock spans the two.
use multi_tenant_messaging.Amqp.{Answers}
use multi_tenant_messaging.Db.{Db, Outcome, UuidFormat}
use multi_tenant_messaging.Routes.{
  System, create_tenant_route, delete_tenant_route, after_create, after_delete,
  update_concurrency_route, after_update, spawned, stopped, resized,
}
use multi_tenant_messaging.Tenants.{
  TenantResponse, Answer, create_tenant, CreateTenantRequest, bad, delete_tenant, good,
  update_tenant_concurrency,
}
use multi_tenant_messaging.Base.{List, String, [], ℕ, ◌++◌, ◌∷◌, some, ◌≡◌, refl}
use multi_tenant_messaging.Base.Int.{ℤ}
use multi_tenant_messaging.Http.{Response}
use multi_tenant_messaging.Manager.{spawn_consumer, stop_consumer, update_concurrency}

-- A request between its statement and its call of the manager, as `spawned`, `stopped` and `resized` go on.
pub data Pending : Type 0 where
  to_spawn : TenantResponse → Pending
  to_stop : String → Pending
  to_resize : String → ℤ → TenantResponse → Pending

pub record Busy : Type 0 where
  pub system : System
  pub pending : List Pending

-- The statement of a request.
pub data Statement : Type 0 where
  creates : Outcome → ℕ → ℕ → CreateTenantRequest → Statement
  deletes : Outcome → String → Statement
  updates : Outcome → ℕ → String → ℤ → Statement

abbrev pub goes_on : {A : Type 0} → (A → Pending) → Busy → Db × Answer A → Busy
goes_on next b (db, bad e) = record b { system = record (b.system) { db = db } }
goes_on next b (db, good a) = record {
  system = record (b.system) { db = db };
  pending = next a ∷ b.pending;
}

-- A statement that fails ends its request.
abbrev pub begin : UuidFormat → Statement → Busy → Busy
begin u (creates o i now req) b =
    goes_on (λ t. to_spawn t) b (create_tenant u o i now req b.system.db)
begin u (deletes o id) b = goes_on (λ _. to_stop id) b (delete_tenant u o id b.system.db)
begin u (updates o now id n) b =
    goes_on (λ t. to_resize id n t) b (update_tenant_concurrency u o now id n b.system.db)

-- The call of the manager, and the answer.
abbrev pub finish : Answers → ℕ → Pending → System → System × Response
finish w taken (to_spawn t) s = spawned s t (spawn_consumer s.manager t.id t.workers w s.broker)
finish w taken (to_stop id) s = stopped s (stop_consumer taken s.manager id)
finish w taken (to_resize id n t) s = resized s t (update_concurrency s.manager id n)

pub data RouteStep (u : UuidFormat) : Busy → Busy → Type 0 where
  begins : (a : Statement) (b : Busy) → RouteStep u b (begin u a b)
  finishes :
      (w : Answers) (taken : ℕ) (s : System) (before after : List Pending) (p : Pending)
      → RouteStep u
          (record { system = s; pending = before ++ p ∷ after })
          (record { system = (finish w taken p s).0; pending = before ++ after })

pub data RouteReach (u : UuidFormat) : Busy → Busy → Type 0 where
  no_step : (b : Busy) → RouteReach u b b
  one_more : {a b c : Busy} → RouteReach u a b → RouteStep u b c → RouteReach u a c

abbrev pub quiet : System → Busy
quiet s = record { system = s; pending = [] }

abbrev finish_all : Answers → ℕ → List Pending → System → System
finish_all w taken [] s = s
finish_all w taken (p ∷ ps) s = finish_all w taken ps (finish w taken p s).0

abbrev run_alone : UuidFormat → Answers → ℕ → Statement → System → System
run_alone u w taken a s = let b = begin u a (quiet s) in finish_all w taken b.pending b.system

created_alone :
    (w : Answers) (taken : ℕ) (s : System) (out : Db × Answer TenantResponse)
    → (after_create w s out).0
      ≡ (let b = goes_on (λ t. to_spawn t) (quiet s) out in finish_all w taken b.pending b.system)
created_alone w taken s (db, bad e) = refl
created_alone w taken s (db, good t) = refl

deleted_alone :
    (w : Answers) (taken : ℕ) (id : String) (s : System) (out : Db × Answer (Unit {0}))
    → (after_delete taken id s out).0
      ≡ (let b = goes_on (λ _. to_stop id) (quiet s) out in finish_all w taken b.pending b.system)
deleted_alone w taken id s (db, bad e) = refl
deleted_alone w taken id s (db, good a) = refl

updated_alone :
    (w : Answers) (taken : ℕ) (id : String) (n : ℤ) (s : System) (out : Db × Answer TenantResponse)
    → (after_update id n s out).0 ≡ (
        let b = goes_on (λ t. to_resize id n t) (quiet s) out in
        finish_all w taken b.pending b.system)
updated_alone w taken id n s (db, bad e) = refl
updated_alone w taken id n s (db, good t) = refl

-- A route that runs alone is its two steps, one after the other.
pub routes_are_steps :
    (u : UuidFormat) (o : Outcome) (i now taken : ℕ) (w : Answers) (req : CreateTenantRequest)
    (id : String) (n : ℤ) (s : System)
    → ((create_tenant_route u o i now w (some req) s).0
        ≡ run_alone u w taken (creates o i now req) s)
      × ((delete_tenant_route u o taken id s).0 ≡ run_alone u w taken (deletes o id) s)
      × ((update_concurrency_route u o now id (some n) s).0
          ≡ run_alone u w taken (updates o now id n) s)
unfolding create_tenant_route delete_tenant_route update_concurrency_route
routes_are_steps u o i now taken w req id n s = (
  created_alone w taken s (create_tenant u o i now req s.db),
  deleted_alone w taken id s (delete_tenant u o id s.db),
  updated_alone w taken id n s (update_tenant_concurrency u o now id n s.db),
)
