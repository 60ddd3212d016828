-- ===== src/Topology/Names.antt =====
-- The names of different tenants' queues and exchanges never meet.
use Prim.Native.String.{◌++◌ as str_append}
use text.Mathlib.TextLemmas.{append_cancel_left, append_cancel_right, nil-append, cons-append}
use Prim.Native.Char.{code}
use multi_tenant_messaging.Base.{ℕ, String, ◌≡◌, ◌≢◌, arith, sym, refl, ◌∙◌, ap}
use multi_tenant_messaging.Topology.{dl_queue, dlx_name, main_queue}

-- The last character of a text, or `d` if it is empty.
last_or : ℕ → String → ℕ
last_or d String.[] = d
last_or d (String.◌∷◌ c s) = last_or (code c) s

last_or-append : (d : ℕ) (a t : String) → last_or d (str_append a t) ≡ last_or (last_or d a) t
unfolding last_or
last_or-append d String.[] t = rw (nil-append t)
last_or-append d (String.◌∷◌ c s) t = rw (cons-append c s t) (last_or-append (code c) s t)

-- Names of different kinds end in different characters.
ends_differ :
    (a b s t : String) (m n : ℕ)
    → ((d : ℕ) → last_or d s ≡ m)
    → ((d : ℕ) → last_or d t ≡ n)
    → m ≢ n
    → str_append a s ≢ str_append b t
ends_differ a b s t m n ends_m ends_n differ e = differ (
    sym (ends_m (last_or 0 a))
    ∙ sym (last_or-append 0 a s)
    ∙ ap (last_or 0) e
    ∙ last_or-append 0 b t
    ∙ ends_n (last_or 0 b))

-- The main queue's name determines the tenant, and so do those of the exchange and the dead letter queue.
main_queue_injective : (a b : String) → main_queue a ≡ main_queue b → a ≡ b
unfolding main_queue
main_queue_injective a b e = append_cancel_right a b "_queue" (append_cancel_left "tenant_" _ _ e)

dl_queue_injective : (a b : String) → dl_queue a ≡ dl_queue b → a ≡ b
unfolding dl_queue
dl_queue_injective a b e = append_cancel_right a b "_dlq" (append_cancel_left "tenant_" _ _ e)

dlx_name_injective : (a b : String) → dlx_name a ≡ dlx_name b → a ≡ b
unfolding dlx_name
dlx_name_injective a b e = append_cancel_right a b "_dlx" (append_cancel_left "tenant_" _ _ e)

-- No queue of one tenant is a queue of the other kind of any tenant.
main_queue-ne-dl_queue : (a b : String) → main_queue a ≢ dl_queue b
unfolding main_queue dl_queue last_or
main_queue-ne-dl_queue a b e =
    ends_differ a b "_queue" "_dlq" b'e' b'q' (λ d. refl) (λ d. refl) (omega arith)
      (append_cancel_left "tenant_" _ _ e)

-- Different tenants share no queue and no exchange: the names of a tenant's main queue, dead letter
-- queue and exchange each determine the tenant; and no main queue is also the dead letter queue of some
-- tenant, the same one included.
pub tenant_names_disjoint :
    (a b : String)
    → (main_queue a ≡ main_queue b → a ≡ b)
      × (dl_queue a ≡ dl_queue b → a ≡ b)
      × (dlx_name a ≡ dlx_name b → a ≡ b)
      × (main_queue a ≢ dl_queue b)
tenant_names_disjoint a b = (
  main_queue_injective a b,
  dl_queue_injective a b,
  dlx_name_injective a b,
  main_queue-ne-dl_queue a b,
)
