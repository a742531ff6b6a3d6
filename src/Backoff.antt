-- ===== src/Backoff.antt =====
-- reconnect.go: the strategy that gives the delay before a reconnect or resubscribe. The library
-- that computes the delay (jpillora/backoff) is the parameter `for_attempt`.
use centrifuge_go.Prelude.{ℕ, ◌*◌, Bool, true, if◌then◌else◌, ◌==◌, nat_key}

-- A Go `time.Duration` in nanoseconds; the ones here are not negative.
abbrev pub millisecond : ℕ
millisecond = 1000000

abbrev pub second : ℕ
second = 1000000000

-- `backoffReconnect`; `factor` is a float64 that is only ever the whole number 2.
pub record BackoffReconnect : Type 0 where
  pub factor : ℕ
  pub jitter : Bool
  pub min_delay : ℕ
  pub max_delay : ℕ

unfoldable pub new_backoff_reconnect : ℕ → ℕ → BackoffReconnect
new_backoff_reconnect min_delay max_delay = record {
  factor = 2;
  jitter = true;
  min_delay = if min_delay == 0 then 200 * millisecond else min_delay;
  max_delay = if max_delay == 0 then 20 * second else max_delay;
}

unfoldable pub time_before_next_attempt : (BackoffReconnect → ℕ → ℕ) → BackoffReconnect → ℕ → ℕ
time_before_next_attempt for_attempt r attempt = for_attempt r attempt
