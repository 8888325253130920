-- ===== src/Utilities.antt =====
-- util/signalUtilities.cpp and util/ipUtilities.cpp: waiting, and the address of an interface. The
-- calls of the system are parameters.
pub mod Waiting
pub mod Interfaces
mod Tests
use hex.Base.{
  ℕ, zero, suc, ◌+◌, ◌-◌, ◌*◌, ◌/◌, ◌%◌, Bool, true, false, ◌&&◌, Option, none, some, List, [], ◌∷◌,
  if◌then◌else◌, ℤ, pos, negsuc, ◌-ℤ◌,
}
use hex.Protocol.{Bytes, string_eq}

-- a `struct timespec`
pub record Timespec : Type 0 where
  pub tv_sec : ℤ
  pub tv_nsec : ℤ

-- the result of ::nanosleep: 0, -1 with EINTR and the time that remains, or -1 with another error
pub data SleepResult : Type 0 where
  slept : SleepResult
  interrupted : (rem : Timespec) → SleepResult
  not_slept : SleepResult

-- what waitUsec ends with: it returns, or its assertion fails
pub data Waited (W : Type 0) : Type 0 where
  returned : W → Waited W
  asserted : W → Waited W

-- ::div, which rounds towards 0
unfoldable pub quot : ℤ → (d : ℕ) → ℤ
quot (pos n) d = pos (n / d)
quot (negsuc n) d = pos 0 -ℤ pos ((n + 1) / d)

unfoldable pub rem : ℤ → (d : ℕ) → ℤ
rem (pos n) d = pos (n % d)
rem (negsuc n) d = pos 0 -ℤ pos ((n + 1) % d)

unfoldable pub times_1000 : ℤ → ℤ
times_1000 (pos n) = pos (n * 1000)
times_1000 (negsuc n) = pos 0 -ℤ pos ((n + 1) * 1000)

unfoldable pub request_of : (usec : ℤ) → Timespec
unfolding quot rem times_1000
request_of usec = record { tv_sec = quot usec 1000000; tv_nsec = times_1000 (rem usec 1000000) }

module _ {W : Type 0} (nanosleep : W → Timespec → SleepResult × W) where
  -- the part of a round behind the call
  slept_round : (Timespec → W → Option (Waited W)) → SleepResult × W → Option (Waited W)
  slept_round again (slept, w) = some (returned w)
  slept_round again (interrupted left, w) = again left w
  slept_round again (not_slept, w) = some (asserted w)

  -- the loop, on fuel
  unfoldable pub wait_rounds : (fuel : ℕ) → (req : Timespec) → W → Option (Waited W)
  unfolding slept_round
  wait_rounds zero req w = none
  wait_rounds (suc fuel) req w = slept_round (wait_rounds fuel) (nanosleep w req)

  unfoldable pub wait_usec : (fuel : ℕ) → (usec : ℤ) → W → Option (Waited W)
  unfolding wait_rounds request_of
  wait_usec fuel usec w = wait_rounds fuel (request_of usec) w

pub data Family : Type 0 where
  af_inet af_inet6 other_family : Family

-- an entry of the list of ::getifaddrs; `ifa_addr` is `none` for a null pointer
pub record Interface : Type 0 where
  pub ifa_name : Bytes
  pub ifa_addr : Option (Family × Bytes)

unfoldable pub is_inet : Family → Bool
is_inet af_inet = true
is_inet _ = false

-- one round of the loop: `found` is what has been copied to `recipient` so far
visit_at : (same_name : Bool) → Option (Family × Bytes) → (found : Option Bytes) → Option Bytes
unfolding is_inet
visit_at same none found = found
visit_at same (some (family, addr)) found = if is_inet family && same then some addr else found

visit : (ifa_name : Bytes) → Interface → (found : Option Bytes) → Option Bytes
unfolding visit_at
visit name i found = visit_at (string_eq i.ifa_name name) i.ifa_addr found

walk : (ifa_name : Bytes) → List Interface → (found : Option Bytes) → Option Bytes
unfolding visit
walk name [] found = found
walk name (i ∷ is) found = walk name is (visit name i found)

-- `none` is exit(); otherwise what has been copied to `recipient`, `none` for the result -1
unfoldable pub get_ipv4_address :
    (getifaddrs : Option (List Interface)) → (ifa_name : Bytes) → Option (Option Bytes)
unfolding walk
get_ipv4_address none name = none
get_ipv4_address (some is) name = some (walk name is none)

-- display_network_addresses, with whether getnameinfo gives a text for an address: false where it
-- ends in exit(). What it prints is left out.
module _ (getnameinfo : Family → Bytes → Bool) where
  shown_at : Option (Family × Bytes) → Bool
  shown_at none = true
  shown_at (some (af_inet, addr)) = getnameinfo af_inet addr
  shown_at (some (af_inet6, addr)) = getnameinfo af_inet6 addr
  shown_at (some (other_family, addr)) = true

  shown : List Interface → Bool
  unfolding shown_at
  shown [] = true
  shown (i ∷ is) = shown_at i.ifa_addr && shown is

  unfoldable pub display_network_addresses : (getifaddrs : Option (List Interface)) → Bool
  unfolding shown
  display_network_addresses none = false
  display_network_addresses (some is) = shown is
