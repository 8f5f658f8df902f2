-- ===== src/Core/Dispatch/Skip.antt =====
-- core_skip_compute (core/sabo.c): the steps at which the threads are balanced.
use sabo.Base.{ℕ, ◌+◌, ◌%◌, ◌<◌, ◌≤◌, ◌≡◌, ◌↔◌, ap, Bool, true, false, some, ◌==◌, pos, arith}
use sabo.Core.Dispatch.{skip_compute}

some-false : (b : Bool) → some b ≡ some false → b ≡ false
some-false b e = grind arith

-- With a periodic balancing every `k` steps, the `step`th call (from 0) balances exactly where `k`
-- divides `step + 1` and the window of steps is full. Without it a call balances exactly if it is the
-- one after `k` others, and the window is not longer than `k + 1` steps: with a longer window no call
-- ever balances.
pub skip_compute-due :
    (k window step : ℕ)
    → (0 < k
        → (skip_compute (pos k) true window step ≡ some false)
          ↔ (((step + 1) % k ≡ 0) × (window ≤ step + 1)))
      × ((skip_compute (pos k) false window step ≡ some false) ↔ ((step ≡ k) × (window ≤ k + 1)))
unfolding skip_compute
skip_compute-due k window step = (
  λ h.
      let nonzero : (k + 0 == 0) ≡ false = ground arith in
      rw nonzero (
        λ e. (let e' = some-false _ e in ground (arith, e')),
        λ e. ap some (ground (arith, e.0, e.1)),
      ),
  (λ e. (let e' = some-false _ e in ground (arith, e')), λ e. ap some (ground (arith, e.0, e.1))),
)
