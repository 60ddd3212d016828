-- ===== src/Manager/Shared.antt =====
-- internal/tenant/manager.go with calls that overlap: the mutex covers the map, while closing a consumer
-- in `StopConsumer` and `ShutdownAll`, and resizing its pool in `UpdateConcurrency`, come after it is released. So
-- the map holds pointers here, and a call is cut at the mutex.
use multi_tenant_messaging.Base.{
  ℕ, List, Option, String, Bool, [], if◌then◌else◌, map, true, ◌∷◌, ◌≡◌, false, none, some, ◌==◌,
  suc, ◌+◌, ◌++◌, ◌<◌,
}
use multi_tenant_messaging.Base.Assoc.{lookup, insert, delete}
use multi_tenant_messaging.Base.Int.{ℤ}
use multi_tenant_messaging.Manager.{TenantConsumer, close_consumer}
use multi_tenant_messaging.Pool.{resize}

-- `pending` are the consumers that a call has taken out of the map and not closed yet; `crashed` is the panic of a
-- second `close`, which ends the program.
pub record Shared : Type 0 where
  pub heap : ℕ → TenantConsumer
  pub made : ℕ
  pub consumers : List (String × ℕ)
  pub pending : List ℕ
  pub crashed : Bool

abbrev pub store : ℕ → TenantConsumer → (ℕ → TenantConsumer) → ℕ → TenantConsumer
store p c heap q = if q == p then c else heap q

abbrev pub pointers : List (String × ℕ) → List ℕ
pointers = map (λ e. e.1)

abbrev pub count_of : ℕ → List ℕ → ℕ
count_of p [] = 0
count_of p (q ∷ qs) = (if q == p then 1 else 0) + count_of p qs

abbrev pub drop_pointer : ℕ → List ℕ → List ℕ
drop_pointer p [] = []
drop_pointer p (q ∷ qs) = if q == p then drop_pointer p qs else q ∷ drop_pointer p qs

abbrev pub after_closing : ℕ → Shared → Option TenantConsumer → Shared
after_closing p s none = record s { crashed = true }
after_closing p s (some d) = record s {
  heap = store p d s.heap;
  pending = drop_pointer p s.pending;
}

abbrev pub resized_consumer : ℤ → TenantConsumer → TenantConsumer
resized_consumer n c = record c { worker_pool = resize c.worker_pool n }

-- `registers` is the end of a `SpawnConsumer` that succeeds; `takes` the locked part of `StopConsumer`, `takes_all` that
-- of `ShutdownAll`, and `closes` what follows for one consumer; `resizes_late` the end of an
-- `UpdateConcurrency` that found the consumer at any time before.
pub data SharedStep : Shared → Shared → Type 0 where
  registers :
      (k : String) (c : TenantConsumer) (s : Shared)
      → lookup k s.consumers ≡ none
      → c.done ≡ false
      → c.worker_pool.done ≡ false
      → SharedStep s (record s {
        heap = store s.made c s.heap;
        made = suc s.made;
        consumers = insert k s.made s.consumers;
      })
  takes :
      (k : String) (p : ℕ) (s : Shared)
      → lookup k s.consumers ≡ some p
      → SharedStep s (record s { consumers = delete k s.consumers; pending = p ∷ s.pending })
  takes_all :
      (s : Shared)
      → SharedStep s (record s { consumers = []; pending = pointers s.consumers ++ s.pending })
  closes_one :
      (taken p : ℕ) (s : Shared)
      → 0 < count_of p s.pending
      → SharedStep s (after_closing p s (close_consumer taken (s.heap p)))
  resizes_late :
      (p : ℕ) (n : ℤ) (s : Shared)
      → p < s.made
      → SharedStep s (record s { heap = store p (resized_consumer n (s.heap p)) s.heap })

pub data SharedReach : Shared → Shared → Type 0 where
  at_start : (s : Shared) → SharedReach s s
  then_step : {a b c : Shared} → SharedReach a b → SharedStep b c → SharedReach a c

-- Before the first call.
abbrev pub nothing_yet : (ℕ → TenantConsumer) → Shared
nothing_yet heap = record { heap = heap; made = 0; consumers = []; pending = []; crashed = false }
