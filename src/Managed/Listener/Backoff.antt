-- ===== src/Managed/Listener/Backoff.antt =====
-- base/src/net/rw.rs: the backoff of the accept loop.
use pigs.Prelude.{ℕ, zero, suc, ◌*◌, ◌^◌, ◌≤◌, ◌<◌, min, ◌≡◌, refl, ◌⊎◌, inl, inr, arith}
use pigs.Managed.Listener.{
  accept_error_backoff_min, accept_error_backoff_max, next_accept_error_backoff,
}

-- The backoff after some errors in a row.
unfoldable pub after_errors : ℕ → ℕ → ℕ
after_errors zero current = current
after_errors (suc n) current = next_accept_error_backoff (after_errors n current)

-- Within the bounds, or none yet.
abbrev IsBackoff : ℕ → Type 0
IsBackoff b = (b ≡ 0) ⊎ ((accept_error_backoff_min ≤ b) × (b ≤ accept_error_backoff_max))

-- From none or one within the bounds, an error makes the backoff one within the bounds that is not
-- shorter.
pub next_accept_error_backoff-bounds :
    (b : ℕ)
    → IsBackoff b
    → (accept_error_backoff_min ≤ next_accept_error_backoff b)
      × (next_accept_error_backoff b ≤ accept_error_backoff_max)
      × (b ≤ next_accept_error_backoff b)
unfolding next_accept_error_backoff
next_accept_error_backoff-bounds b (inl none_yet) = ground arith
next_accept_error_backoff-bounds b (inr (low, high)) = ground arith

next-grows : (b : ℕ) → IsBackoff b → b ≤ next_accept_error_backoff b
next-grows b h = (next_accept_error_backoff-bounds b h).2

after_errors-IsBackoff : (n b : ℕ) → IsBackoff b → IsBackoff (after_errors n b)
unfolding after_errors
after_errors-IsBackoff zero b h = h
after_errors-IsBackoff (suc n) b h =
    let bounds =
      next_accept_error_backoff-bounds (after_errors n b) (after_errors-IsBackoff n b h) in
    inr (bounds.0, bounds.1)

-- After one error and `n` more in a row the backoff is 10 ms doubled `n` times, or one second if
-- that is less.
pub after_errors-min :
    (n : ℕ)
    → after_errors (suc n) 0 ≡ min (accept_error_backoff_min * 2 ^ n) accept_error_backoff_max
unfolding after_errors next_accept_error_backoff
after_errors-min zero = refl
after_errors-min (suc n) =
    let before = after_errors-min n in
    let step : 2 ^ suc n ≡ 2 * 2 ^ n = ground arith in
    let positive : 0 < 2 ^ n = ground arith in ground (arith, before, step, positive)
