-- ===== src/Manager/Bounds.antt =====
-- The worker counts that a manager gives to its pools.
use multi_tenant_messaging.Base.{ℕ, ◌<◌, ◌≡◌, ◌≤◌, arith, ◌^◌, min, suc}
use multi_tenant_messaging.Base.Int.{ℤ, pos, negsuc}
use multi_tenant_messaging.Manager.{Manager, clamp_spawn, clamp_update}
use Prim.Native.Nat.{zero}

-- A configuration whose default and limit are worker counts, within the int32 counter of a pool.
pub record IsConfigured (m : Manager) : Type 0 where
  pub default : ℕ
  pub limit : ℕ
  pub has_default : m.default_workers ≡ pos default
  pub has_limit : m.max_workers ≡ pos limit
  pub default_low : 0 < default
  pub limit_low : 0 < limit
  pub limit_high : limit < 2 ^ 31

-- The positive count that was asked for, or `d` instead of none or fewer.
abbrev pub wanted : ℕ → ℤ → ℕ
wanted d (pos zero) = d
wanted d (pos (suc n)) = suc n
wanted d (negsuc n) = d

-- A configured manager gives a new consumer the positive count that was asked for or else the default,
-- and a resized one that count or else one, in both cases cut off at the limit.
pub clamp_min :
    (m : Manager) (asked : ℤ) (v : IsConfigured m)
    → (clamp_spawn m asked ≡ pos (min v.limit (wanted v.default asked)))
      × (clamp_update m asked ≡ pos (min v.limit (wanted 1 asked)))
unfolding clamp_spawn clamp_update
clamp_min m (pos zero) v = ground arith
clamp_min m (pos (suc n)) v = ground arith
clamp_min m (negsuc n) v = ground arith

-- So the count is between one and the limit.
pub wanted_bounds :
    (limit d : ℕ) (asked : ℤ)
    → 0 < limit
    → 0 < d
    → (0 < min limit (wanted d asked)) × (min limit (wanted d asked) ≤ limit)
wanted_bounds limit d (pos zero) low dlow = omega arith
wanted_bounds limit d (pos (suc n)) low dlow = omega arith
wanted_bounds limit d (negsuc n) low dlow = omega arith
