-- ===== src/Retry/Delay.antt =====
-- How often `processWithRetry` sleeps between attempts, and how long.
use native.Mathlib.Nat.{pow-le-pow_right}
use multi_tenant_messaging.Base.{
  ℕ, List, ◌^◌, ◌≤◌, arith, ◌*◌, ◌∷◌, ◌≡◌, ◌%◌, ◌+◌, refl, length, suc, false, Option-cases, inl,
  none, inr, Bool, if◌then◌else◌, sym, ap, ◌∙◌, if_false,
}
use multi_tenant_messaging.Base.Int.{ℤ, int64, negsuc, pos, int64_fits}
use multi_tenant_messaging.Db.{UuidFormat, Db}
use multi_tenant_messaging.Retry.{
  backoff_base, backoff_duration, FloatScale, Attempt, process_with_retry, handle_message,
}
use mathlib.Core.List.{[]}
use multi_tenant_messaging.Pool.{WorkItem}
use multi_tenant_messaging.Retry.Attempts.{
  is_none, loop, succeeds, loop_success, handle_message_ok, loop_last, retried_item, loop_again,
}
use Prim.Native.Nat.{zero}

-- Seconds of attempt `i`, in nanoseconds.
abbrev pub base_nanos : ℕ → ℕ
base_nanos i = 2 ^ i * 1_000_000_000

pow_le : (i n : ℕ) → i ≤ n → 2 ^ i ≤ 2 ^ n
pow_le i n h = pow-le-pow_right (omega arith) h

-- Up to attempt 33 the backoff is `2^attempt` seconds; at 34 the 64-bit product wraps.
backoff_base_exact : (i : ℕ) → i ≤ 33 → backoff_base i ≡ pos (base_nanos i)
unfolding backoff_base
backoff_base_exact i h = int64_fits (base_nanos i) (omega (arith, pow_le i 33 h))

backoff_base_wraps : backoff_base 34 ≡ negsuc 1266874889709551615
unfolding backoff_base int64
backoff_base_wraps = refl

-- A sleep of attempt `i`: at least `2^i` seconds, and at most a fifth more.
abbrev pub IsBackoff : ℕ → ℤ → Type 0
IsBackoff i z = (d : ℕ) × (z ≡ pos d) × (base_nanos i ≤ d) × (5 * d ≤ 6 * base_nanos i)

backoff_duration-IsBackoff :
    (f : FloatScale) (i nanos : ℕ) → i ≤ 32 → IsBackoff i (backoff_duration f i nanos)
unfolding backoff_duration
backoff_duration-IsBackoff f i nanos h =
    let d = base_nanos i in
    let j = f.scale d (nanos % 100) in
    let small = f.scale_bound d (nanos % 100) (omega arith) in
    let cap = pow_le i 32 h in
    (
      d + j,
      rw (backoff_base_exact i (omega arith), backoff_duration) (int64_fits (d + j) (omega arith)),
      omega arith,
      omega arith,
    )

-- Sleeps of consecutive attempts, the first of them `i`.
abbrev pub AreBackoffs : ℕ → List ℤ → Type 0
AreBackoffs i [] = Unit
AreBackoffs i (z ∷ zs) = IsBackoff i z × AreBackoffs (i + 1) zs

-- How many attempts fail before the first that succeeds, from attempt `i` on and up to `n` of them.
abbrev pub failures : (ℕ → Bool) → ℕ → ℕ → ℕ
failures p zero i = 0
failures p (suc n) i = if p i then 0 else suc (failures p n (i + 1))

failures_le : (p : ℕ → Bool) (n i : ℕ) → failures p n i ≤ n
failures_le p zero i = omega arith
failures_le p (suc n) i = ground (arith, failures_le p n (i + 1))

-- The sleeps from an attempt on, one for each failure that another attempt follows.
abbrev Sleeps : (ℕ → Bool) → ℕ → ℕ → List ℤ → Type 0
Sleeps p rounds attempt zs = AreBackoffs attempt zs × (length zs ≡ failures p rounds attempt)

module _ (u : UuidFormat) (f : FloatScale) (n : ℕ) (env : ℕ → Attempt) where
  abbrev passes : WorkItem → ℕ → Bool
  passes item i = succeeds u item (env i)

  loop_sleeps_success :
      (rounds attempt : ℕ) (item : WorkItem) (db : Db)
      → (handle_message u item (env attempt) db).1 ≡ none
      → Sleeps (passes item) rounds attempt (loop u f n env (suc rounds) attempt item db).sleeps
  loop_sleeps_success zero attempt item db fine =
      rw (loop_success u f n env 0 attempt item db fine) (tt, refl)
  loop_sleeps_success (suc rounds) attempt item db fine =
      rw (loop_success u f n env (suc rounds) attempt item db fine)
        (tt, ground (arith, fine, handle_message_ok u item (env attempt) db))

  loop_sleeps :
      (rounds attempt : ℕ) (item : WorkItem) (db : Db)
      → attempt + rounds ≡ n
      → n ≤ 33
      → Sleeps (passes item) rounds attempt (loop u f n env (suc rounds) attempt item db).sleeps
  loop_sleeps zero attempt item db e cap =
      elim (Option-cases (handle_message u item (env attempt) db).1) [
        | inl fine ↦ loop_sleeps_success 0 attempt item db fine
        | inr (x, bad) ↦ rw (loop_last u f n env 0 attempt item db x bad (omega arith)) (tt, refl)
      ]
  loop_sleeps (suc rounds) attempt item db e cap =
      let (each, all) =
        loop_sleeps rounds (attempt + 1) (retried_item item attempt)
          (handle_message u item (env attempt) db).0 (omega arith) cap in
      elim (Option-cases (handle_message u item (env attempt) db).1) [
        | inl fine ↦ loop_sleeps_success (suc rounds) attempt item db fine
        | inr (x, bad) ↦
            let failed : passes item attempt ≡ false =
              sym (handle_message_ok u item (env attempt) db) ∙ ap is_none bad in
            rw (loop_again u f n env (suc rounds) attempt item db x bad (omega arith)) (
              (backoff_duration-IsBackoff f attempt _ (omega arith), each),
              ap suc all ∙ sym (if_false (passes item attempt) 0 _ failed),
            )
      ]

  -- A call sleeps once for each attempt that fails and is followed by another: as many times as attempts
  -- fail before the first that succeeds, and `maxRetry` times where the attempts before `maxRetry` all
  -- fail. The sleep after attempt `i` is of `2^i` seconds and up to a fifth more. A limit of at most 33
  -- retries keeps the durations within 64 bits.
  pub process_with_retry_sleeps :
      (item : WorkItem) (db : Db)
      → n ≤ 33
      → AreBackoffs 0 (process_with_retry u f (pos n) env item db).sleeps
        × (length (process_with_retry u f (pos n) env item db).sleeps
            ≡ failures (λ i. succeeds u item (env i)) n 0)
        × (length (process_with_retry u f (pos n) env item db).sleeps ≤ n)
  unfolding process_with_retry
  process_with_retry_sleeps item db cap =
      let (each, all) = loop_sleeps n 0 item db (omega arith) cap in
      (each, all, omega (arith, all, failures_le (λ i. succeeds u item (env i)) n 0))
