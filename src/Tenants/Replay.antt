-- ===== src/Tenants/Replay.antt =====
-- The tenants' table as a map from ids to rows: it holds what the calls that were answered without an
-- error say, in their order.
use multi_tenant_messaging.Base.{
  ℕ, Bool, Option, List, String, some, true, ◌≡◌, false, if_elim, if◌then◌else◌, ◌∷◌, none, ◌==◌,
  arith, ◌||◌, ltb, refl, All, ap, ◌∙◌,
}
use multi_tenant_messaging.Db.{
  Db, Outcome, UuidFormat, TenantRow, applied, exec, refused, unconfirmed,
}
use multi_tenant_messaging.Tenants.{
  CreateTenantRequest, Answer, create_tenant, find_tenant, delete_tenant, good, new_tenant,
  update_tenant_concurrency, TenantResponse, answered, bad, on_tenant, clashes, count_chars,
  add_tenant, tenant_response, database, in_worker_range, remove_tenant, set_concurrency,
}
use multi_tenant_messaging.Base.Int.{ℤ}
use mathlib.Core.List.{[]}
use multi_tenant_messaging.Tenants.Rows.{
  with_concurrency_at, find_tenant-keep, with_concurrency, find_tenant-set,
}

pub data TenantCall : Type 0 where
  creates : ℕ → ℕ → CreateTenantRequest → TenantCall
  deletes : String → TenantCall
  updates : ℕ → String → ℤ → TenantCall

abbrev pub Store : Type 0
Store = ℕ → Option TenantRow

abbrev pub store_of : Db → Store
store_of db j = find_tenant j db.tenants

abbrev noted : {A : Type 0} → Db × Answer A → Db × Bool
noted (db, good a) = (db, true)
noted (db, bad e) = (db, false)

-- A call at the service, and whether it was answered without an error.
abbrev pub run_call : UuidFormat → Outcome → TenantCall → Db → Db × Bool
run_call u o (creates i now req) db = noted (create_tenant u o i now req db)
run_call u o (deletes id) db = noted (delete_tenant u o id db)
run_call u o (updates now id n) db = noted (update_tenant_concurrency u o now id n db)

abbrev at_id : (Option TenantRow → Option TenantRow) → Option ℕ → Store → Store
at_id f none s j = s j
at_id f (some i) s j = if i == j then f (s j) else s j

-- What a call says of the map.
abbrev pub effect : UuidFormat → TenantCall → Store → Store
effect u (creates i now req) = at_id (λ _. some (new_tenant i now req)) (some i)
effect u (deletes id) = at_id (λ _. none) (u.read id)
effect u (updates now id n) = at_id (with_concurrency_at n now) (u.read id)

-- A call that was answered without an error is remembered.
abbrev remember : Bool → TenantCall → List TenantCall → List TenantCall
remember true call calls = call ∷ calls
remember false call calls = calls

-- Calls one after the other, and those of them that were answered without an error.
pub history : UuidFormat → List (Outcome × TenantCall) → Db → Db × List TenantCall
history u [] db = (db, [])
history u ((o, call) ∷ rest) db =
    let (after, fine) = run_call u o call db in
    let (end, calls) = history u rest after in (end, remember fine call calls)

abbrev pub replay : UuidFormat → List TenantCall → Store → Store
replay u [] s = s
replay u (call ∷ rest) s = replay u rest (effect u call s)

abbrev pub confirmed : Outcome → Bool
confirmed applied = true
confirmed refused = true
confirmed unconfirmed = false

module _ (T : Db × Bool → Type 0) {A : Type 0} where
  exec_took :
      (o : Outcome) (f : Db → Db) (a : A) (db : Db)
      → confirmed o ≡ true
      → T (f db, true)
      → T (db, false)
      → T (noted (answered a (exec o f db)))
  exec_took applied f a db sure took same = took
  exec_took refused f a db sure took same = same
  exec_took unconfirmed f a db sure took same = absurd (ground (arith, sure))

  on_tenant_took :
      (o : Outcome) (f : Db → Db) (a : TenantRow → A) (found : Option TenantRow) (db : Db)
      → confirmed o ≡ true
      → T (f db, true)
      → T (db, false)
      → T (noted (on_tenant o f a found db))
  on_tenant_took o f a none db sure took same = same
  on_tenant_took o f a (some row) db sure took same = exec_took o f (a row) db sure took same

-- What a call did to the map, with a change that it makes if it is answered without an error.
abbrev Changed : (Store → Store) → Db → Db × Bool → Type 0
Changed g db (after, true) = (j : ℕ) → store_of after j ≡ g (store_of db) j
Changed g db (after, false) = after ≡ db

module _ (u : UuidFormat) (db : Db) (o : Outcome) (sure : confirmed o ≡ true) where
  creates-Changed :
      (i now : ℕ) (req : CreateTenantRequest)
      → Changed (effect u (creates i now req)) db (run_call u o (creates i now req) db)
  unfolding create_tenant find_tenant
  creates-Changed i now req =
      let T = Changed (effect u (creates i now req)) db in
      if_elim (λ (out : Db × Answer TenantResponse). T (noted out))
        (clashes i req.name db.tenants || ltb 255 (count_chars req.name)) (λ _. refl)
        (λ _.
          exec_took T o (add_tenant (new_tenant i now req))
            (tenant_response u (new_tenant i now req)) db sure (λ j. refl) refl)

  deletes_at :
      (at : Option ℕ)
      → Changed (at_id (λ _. none) at) db (
          noted {A = Unit {0}} (elim at [
            | none ↦ (db, bad database)
            | some i ↦ on_tenant o (remove_tenant i) (λ row. tt) (find_tenant i db.tenants) db
          ]))
  unfolding find_tenant
  deletes_at none = refl
  deletes_at (some i) =
      on_tenant_took (Changed (at_id (λ _. none) (some i)) db) o (remove_tenant i) (λ row. tt)
        (find_tenant i db.tenants) db sure (λ j. find_tenant-keep i j db.tenants) refl

  deletes-Changed :
      (id : String) → Changed (effect u (deletes id)) db (run_call u o (deletes id) db)
  unfolding delete_tenant
  deletes-Changed id = deletes_at (u.read id)

  updates_at :
      (now : ℕ) (n : ℤ) (at : Option ℕ)
      → Changed (at_id (with_concurrency_at n now) at) db (
          noted {A = TenantResponse} (elim at [
            | none ↦ (db, bad database)
            | some i ↦
                on_tenant o
                  (set_concurrency n now i)
                  (λ (row : TenantRow). tenant_response u (with_concurrency n now row))
                  (find_tenant i db.tenants)
                  db
          ]))
  updates_at now n none = refl
  updates_at now n (some i) =
      on_tenant_took (Changed (at_id (with_concurrency_at n now) (some i)) db) o
        (set_concurrency n now i)
        (λ (row : TenantRow). tenant_response u (with_concurrency n now row))
        (find_tenant i db.tenants) db sure (λ j. find_tenant-set n now i j db.tenants) refl

  updates-Changed :
      (now : ℕ) (id : String) (n : ℤ)
      → Changed (effect u (updates now id n)) db (run_call u o (updates now id n) db)
  unfolding update_tenant_concurrency
  updates-Changed now id n =
      if_elim
        (λ (out : Db × Answer TenantResponse). Changed (effect u (updates now id n)) db (noted out))
        (in_worker_range n) (λ _. updates_at now n (u.read id)) (λ _. refl)

  call-Changed : (call : TenantCall) → Changed (effect u call) db (run_call u o call db)
  call-Changed (creates i now req) = creates-Changed i now req
  call-Changed (deletes id) = deletes-Changed id
  call-Changed (updates now id n) = updates-Changed now id n

replay_step :
    (u : UuidFormat) (call : TenantCall) (calls : List TenantCall) (db : Db) (out : Db × Bool)
    → Changed (effect u call) db out
    → replay u calls (store_of out.0) ≡ replay u (remember out.1 call calls) (store_of db)
replay_step u call calls db (after, true) changed = ap (replay u calls) (λ i j. changed j i)
replay_step u call calls db (after, false) same = ap (λ d. replay u calls (store_of d)) same

-- After any sequence of calls, each of which tells the caller whether its statement took effect, the table
-- as a map from ids to rows is what the calls that were answered without an error make of the map before,
-- in their order; a refused call leaves no trace in it.
pub history-replay :
    (u : UuidFormat) (calls : List (Outcome × TenantCall)) (db : Db)
    → All (λ c. confirmed c.0 ≡ true) calls
    → store_of (history u calls db).0 ≡ replay u (history u calls db).1 (store_of db)
unfolding history
history-replay u [] db sure = refl
history-replay u ((o, call) ∷ rest) db (first, sure) =
    let out = run_call u o call db in
    history-replay u rest out.0 sure
    ∙ replay_step u call (history u rest out.0).1 db out (call-Changed u db o first call)
