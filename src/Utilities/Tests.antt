-- ===== src/Utilities/Tests.antt =====
-- The theorems on the utilities, on small data.
use hex.Base.{
  ℕ, zero, suc, ◌+◌, ◌*◌, ◌≤◌, ◌<◌, ◌≡◌, refl, Option, none, some, List, [], ◌∷◌, arith, pos,
  pos_part,
}
use hex.Protocol.{Bytes}
use hex.Utilities.{
  Timespec, SleepResult, slept, interrupted, returned, wait_usec, Interface, af_inet, other_family,
  get_ipv4_address,
}
use hex.Utilities.Waiting.{timespec, Sleeps, Slept, wait_usec_lasts}
use hex.Utilities.Interfaces.{Finds, get_ipv4_address-Finds}

-- the time, and the signals that are still to come; each one comes at once
pub record Sleeper : Type 0 where
  pub now : ℕ
  pub waiting : ℕ

abbrev sleep_at : ℕ → Sleeper → Timespec → SleepResult × Sleeper
sleep_at zero w t =
    (slept, record w { now = w.now + (pos_part t.tv_sec * 1000000000 + pos_part t.tv_nsec) })
sleep_at (suc k) w t = (interrupted t, record { now = w.now; waiting = k })

abbrev nanosleep : Sleeper → Timespec → SleepResult × Sleeper
nanosleep w t = sleep_at w.waiting w t

abbrev now_of : Sleeper → ℕ
now_of w = w.now

abbrev waiting_of : Sleeper → ℕ
waiting_of w = w.waiting

sleeps_at :
    (k : ℕ) (w : Sleeper) (sec nsec : ℕ)
    → nsec < 1000000000
    → w.waiting ≡ k
    → Slept now_of waiting_of w sec nsec (sleep_at k w (timespec sec nsec))
sleeps_at zero w sec nsec b e = omega arith
sleeps_at (suc k) w sec nsec b e = (sec, nsec, refl, b, omega arith, omega arith)

nanosleep-Sleeps : Sleeps nanosleep now_of waiting_of
nanosleep-Sleeps = record { sleeps = λ w sec nsec b. sleeps_at w.waiting w sec nsec b refl }

wait_usec_lasts_example :
    (w : Sleeper) × (wait_usec nanosleep 4 (pos 1500000) (record { now = 7; waiting = 3 })
      ≡ some (returned w))
    × (7 + 1500000 * 1000 ≤ w.now)
wait_usec_lasts_example =
    wait_usec_lasts nanosleep now_of waiting_of nanosleep-Sleeps 4 1500000
      (record { now = 7; waiting = 3 }) (omega arith)

-- the name of two entries is "lo"; the first has no IPv4 address
abbrev loopback : Bytes
loopback = b'l' ∷ b'o' ∷ []

abbrev entries : List Interface
entries =
    record { ifa_name = loopback; ifa_addr = some (other_family, 1 ∷ []) }
    ∷ record { ifa_name = loopback; ifa_addr = some (af_inet, 127 ∷ 0 ∷ 0 ∷ 1 ∷ []) }
    ∷ record { ifa_name = b'e' ∷ []; ifa_addr = none }
    ∷ []

get_ipv4_address-Finds_example :
    (found : Option Bytes) × (get_ipv4_address (some entries) loopback ≡ some found)
    × Finds loopback entries found
get_ipv4_address-Finds_example = get_ipv4_address-Finds entries loopback
