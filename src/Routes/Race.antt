-- ===== src/Routes/Race.antt =====
-- A tenant that is deleted while it is created.
use multi_tenant_messaging.Base.{
  String, List, ◌≡◌, none, Option-cases, inl, inr, arith, ℕ, [], ◌∷◌, refl, ap, some, ◌∙◌, subst,
  sym, if_true, ◌==◌, is_some, true,
}
use multi_tenant_messaging.Manager.{
  get_consumer, Manager, spawn_consumer, stop_consumer, TenantConsumer,
}
use multi_tenant_messaging.Base.Int.{ℤ}
use multi_tenant_messaging.Db.{Db, UuidFormat, Outcome, applied, TenantRow}
use multi_tenant_messaging.Amqp.{Answers, Broker, ok, Result, err}
use multi_tenant_messaging.Tenants.{
  TenantResponse, Answer, good, CreateTenantRequest, add_tenant, find_tenant, remove_tenant,
  tenant_response, bad, create_tenant, new_tenant, keep_tenants,
}
use multi_tenant_messaging.Routes.Steps.{
  Pending, Busy, goes_on, quiet, to_spawn, begin, creates, to_stop, deletes, finish,
}
use multi_tenant_messaging.Base.Assoc.{lookup}
use multi_tenant_messaging.Manager.Spawn.{spawn_consumer_duplicate}
use multi_tenant_messaging.Routes.{System, spawned, stopped, create_tenant_route}
use multi_tenant_messaging.Manager.Lifecycle.{stop_missing}
use multi_tenant_messaging.Manager.Registry.{IsActive}
use multi_tenant_messaging.Manager.Bounds.{IsConfigured}
use multi_tenant_messaging.Tenants.Statements.{delete_found}
use multi_tenant_messaging.Http.{created_201}
use multi_tenant_messaging.Routes.Consistency.{
  after_create_201, create_route_some, spawn_consumer_ok,
}
use multi_tenant_messaging.Tenants.Calls.{create_tenant_good}
use multi_tenant_messaging.Tenants.Rows.{find_tenant-keep}

-- A tenant can only be given a consumer where it has none.
spawned_absent :
    (m : Manager) (k : String) (asked : ℤ) (w : Answers) (b : Broker)
    → (spawn_consumer m k asked w b).1 ≡ ok tt
    → lookup k m.consumers ≡ none
unfolding get_consumer
spawned_absent m k asked w b h = elim (Option-cases (lookup k m.consumers)) [
  | inl absent ↦ absent
  | inr (c, e) ↦ absurd (ground (arith, h, spawn_consumer_duplicate m k asked w b {c = c} e))
]

goes_on_good :
    {A : Type 0} {a : A} (next : A → Pending) (b : Busy) (out : Db × Answer A)
    → out.1 ≡ good a
    → goes_on next b out
      ≡ record { system = record (b.system) { db = out.0 }; pending = next a ∷ b.pending }
goes_on_good next b (db, bad e) h = absurd (cc)
goes_on_good {A} {a} next b (db, good held) h = ap (λ (x : Answer A). goes_on next b (db, x)) h

stopped_missing :
    (s : System) (taken : ℕ) (k : String)
    → lookup k s.manager.consumers ≡ none
    → (stopped s (stop_consumer taken s.manager k)).0 ≡ s
stopped_missing s taken k absent = rw (stop_missing taken s.manager k absent) refl

spawned_parts :
    (s : System) (t : TenantResponse) (out : Manager × Result (Unit {0}) × Broker)
    → ((spawned s t out).0.manager ≡ out.0) × ((spawned s t out).0.db ≡ s.db)
spawned_parts s t (m, ok _, b) = (refl, refl)
spawned_parts s t (m, err e, b) = (refl, refl)

gone_after_keep : (i : ℕ) (rows : List TenantRow) → find_tenant i (keep_tenants i rows) ≡ none
gone_after_keep i rows =
    find_tenant-keep i i rows ∙ if_true (i == i) none (find_tenant i rows) (ground arith)

spawned_201 :
    (s : System) (t : TenantResponse) (out : Manager × Result (Unit {0}) × Broker)
    → out.1 ≡ ok tt
    → (spawned s t out).1.status ≡ created_201
spawned_201 s t (m, ok _, b) e = refl
spawned_201 s t (m, err f, b) e = absurd (cc)

-- A consumer that runs for a tenant which the table does not have.
abbrev pub IsOrphaned : UuidFormat → ℕ → System → Type 0
IsOrphaned u i s =
    (find_tenant i s.db.tenants ≡ none)
    × ((c : TenantConsumer) × (get_consumer s.manager (u.print i) ≡ some c)
        × IsActive (u.print i) c)

-- From the state after both statements: the deletion's call of the manager comes first, then the creation's.
abbrev pub StopThenSpawn : UuidFormat → ℕ → Answers → TenantResponse → System → Type 0
StopThenSpawn u i w t s =
    let after_stop = (finish w 0 (to_stop (u.print i)) s).0 in
    let (after, told) = finish w 0 (to_spawn t) after_stop in
    (told.status ≡ created_201) × IsOrphaned u i after

-- `first` is the state after the statement of the creation, `second` that after the statement of the
-- deletion too.
abbrev pub Overlap : UuidFormat → ℕ → Answers → Busy → Busy → Type 0
Overlap u i w first second =
    (t : TenantResponse) × (first.pending ≡ to_spawn t ∷ [])
    × (is_some (find_tenant i first.system.db.tenants) ≡ true)
    × (second.pending ≡ to_stop (u.print i) ∷ to_spawn t ∷ [])
    × StopThenSpawn u i w t second.system

module _ (u : UuidFormat) (o : Outcome) (i now : ℕ) (w : Answers) (req : CreateTenantRequest)
    (s : System) where
  abbrev with_row : System
  with_row = record s { db = add_tenant (new_tenant i now req) s.db }

  abbrev without_row : System
  without_row = record s { db = remove_tenant i with_row.db }

  abbrev answer_of : TenantResponse
  answer_of = tenant_response u (new_tenant i now req)

  abbrev waiting : Busy
  waiting = record { system = with_row; pending = to_spawn answer_of ∷ [] }

  abbrev both_waiting : Busy
  both_waiting = record {
    system = without_row;
    pending = to_stop (u.print i) ∷ to_spawn answer_of ∷ [];
  }

  first_step :
      (create_tenant u o i now req s.db).1 ≡ good answer_of
      → (create_tenant u o i now req s.db).0 ≡ with_row.db
      → begin u (creates o i now req) (quiet s) ≡ waiting
  first_step made written =
      goes_on_good (λ t. to_spawn t) (quiet s) (create_tenant u o i now req s.db) made
      ∙ ap (λ (d : Db). record { system = record s { db = d }; pending = to_spawn answer_of ∷ [] })
          written

  second_step : begin u (deletes applied (u.print i)) waiting ≡ both_waiting
  unfolding find_tenant
  second_step =
      let there : find_tenant i with_row.db.tenants ≡ some (new_tenant i now req) = ground arith in
      ap (goes_on (λ _. to_stop (u.print i)) waiting) (
        delete_found u (u.print i) with_row.db {i = i} {row = new_tenant i now req} (u.read-print i)
          there)

  row_there : is_some (find_tenant i with_row.db.tenants) ≡ true
  unfolding find_tenant
  row_there = ground arith

  spawn_last :
      IsConfigured s.manager
      → (spawn_consumer s.manager answer_of.id answer_of.workers w s.broker).1 ≡ ok tt
      → let (after, told) = finish w 0 (to_spawn answer_of) without_row in
        (told.status ≡ created_201) × IsOrphaned u i after
  spawn_last conf spawns =
      let out = spawn_consumer s.manager (u.print i) answer_of.workers w s.broker in
      let (c, found, active, size) =
        spawn_consumer_ok s.manager (u.print i) answer_of.workers w s.broker conf spawns in
      let (manager, db) = spawned_parts without_row answer_of out in
      (
        spawned_201 without_row answer_of out spawns,
        (
          ap (λ (d : Db). find_tenant i d.tenants) db ∙ gone_after_keep i with_row.db.tenants,
          (c, ap (λ (m : Manager). get_consumer m (u.print i)) manager ∙ found, active),
        ),
      )

  -- Where `POST /tenants` alone would answer 201, and `DELETE /tenants/:id` on the new tenant's id runs its
  -- statement between the statement of the creation and its call of `SpawnConsumer`: the deletion finds
  -- the row, and both requests are on their way to the manager. If the deletion comes to the manager first, it
  -- finds no consumer; the creation still answers 201, and afterwards the tenant has no row, but a
  -- running consumer.
  pub create_delete_orphans :
      IsConfigured s.manager
      → (create_tenant_route u o i now w (some req) s).1.status ≡ created_201
      → let first = begin u (creates o i now req) (quiet s) in
        Overlap u i w first (begin u (deletes applied (u.print i)) first)
  create_delete_orphans conf h =
      let (t, made, fine, told, same, kept) =
        after_create_201 w s (create_tenant u o i now req s.db)
          (rw (create_route_some u o i now w req s) at h) in
      let (written, named) = create_tenant_good u o i now req s.db made in
      let spawns : (spawn_consumer s.manager answer_of.id answer_of.workers w s.broker).1 ≡ ok tt =
        subst
          (λ (x : TenantResponse). (spawn_consumer s.manager x.id x.workers w s.broker).1 ≡ ok tt)
          (sym named) fine in
      let absent = spawned_absent s.manager (u.print i) answer_of.workers w s.broker spawns in
      let first =
        first_step (subst (λ x. (create_tenant u o i now req s.db).1 ≡ good x) (sym named) made)
          written in
      let last =
        subst
          (λ (x : System).
            let (after, told) = finish w 0 (to_spawn answer_of) x in
            (told.status ≡ created_201) × IsOrphaned u i after)
          (sym (stopped_missing without_row 0 (u.print i) absent)) (spawn_last conf spawns) in
      subst (λ x. Overlap u i w x (begin u (deletes applied (u.print i)) x)) (sym first)
        (subst (Overlap u i w waiting) (sym second_step) (answer_of, refl, row_there, refl, last))
