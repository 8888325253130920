-- ===== src/Utilities/Waiting.antt =====
-- waitUsec (util/signalUtilities.cpp) on a system whose nanosleep tells the time that remains.
use hex.Base.{
  ℕ, zero, suc, ◌+◌, ◌*◌, ◌/◌, ◌%◌, ◌≤◌, ◌<◌, ◌≡◌, refl, ap, ◌∙◌, Option, some, arith, pos,
}
use hex.Utilities.{
  Timespec, SleepResult, slept, interrupted, not_slept, Waited, returned, slept_round, wait_rounds,
  wait_usec, request_of, quot, rem, times_1000,
}

abbrev pub timespec : (sec nsec : ℕ) → Timespec
timespec sec nsec = record { tv_sec = pos sec; tv_nsec = pos nsec }

abbrev pub nanoseconds : (sec nsec : ℕ) → ℕ
nanoseconds sec nsec = sec * 1000000000 + nsec

module _ {W : Type 0} (clock : W → ℕ) (signals : W → ℕ) where
  -- the time asked for has passed, or a signal has come and the remaining time is told
  abbrev pub Slept : (w : W) → (sec nsec : ℕ) → SleepResult × W → Type 0
  Slept w sec nsec (slept, w') = clock w + nanoseconds sec nsec ≤ clock w'
  Slept w sec nsec (interrupted left, w') =
      (s n : ℕ) × (left ≡ timespec s n)
      × (n < 1000000000)
      × (clock w + nanoseconds sec nsec ≤ clock w' + nanoseconds s n)
      × (signals w' < signals w)
  Slept w sec nsec (not_slept, w') = ⊥

-- `clock` is the time in nanoseconds, and `signals` the number of signals that are still to come
pub record Sleeps {W : Type 0} (nanosleep : W → Timespec → SleepResult × W) (clock : W → ℕ)
    (signals : W → ℕ) : Type 0 where
  pub sleeps :
      (w : W) (sec nsec : ℕ)
      → nsec < 1000000000
      → Slept clock signals w sec nsec (nanosleep w (timespec sec nsec))

module _ {W : Type 0} (nanosleep : W → Timespec → SleepResult × W) (clock : W → ℕ) (signals : W → ℕ)
    (law : Sleeps nanosleep clock signals) where
  -- the loop has returned once a time has come
  abbrev Returns : (time : ℕ) → Option (Waited W) → Type 0
  Returns time out = (w' : W) × (out ≡ some (returned w')) × (time ≤ clock w')

  slept_round-Returns :
      (fuel sec nsec : ℕ) (w : W) (r : SleepResult × W)
      → Slept clock signals w sec nsec r
      → signals w < suc fuel
      → ((s n : ℕ) (w' : W)
          → n < 1000000000
          → signals w' < fuel
          → Returns (clock w' + nanoseconds s n) (wait_rounds nanosleep fuel (timespec s n) w'))
      → Returns
          (clock w + nanoseconds sec nsec)
          (slept_round nanosleep (wait_rounds nanosleep fuel) r)
  unfolding slept_round
  slept_round-Returns fuel sec nsec w (slept, w') k l again = (w', refl, k)
  slept_round-Returns fuel sec nsec w (interrupted left, w') (s, n, e, b, k, fewer) l again =
      let (w2, run, late) = again s n w' b (omega arith) in
      (w2, ap (λ t. wait_rounds nanosleep fuel t w') e ∙ run, omega arith)
  slept_round-Returns fuel sec nsec w (not_slept, w') k l again = absurd k

  wait_rounds-Returns :
      (fuel sec nsec : ℕ) (w : W)
      → nsec < 1000000000
      → signals w < fuel
      → Returns (clock w + nanoseconds sec nsec) (wait_rounds nanosleep fuel (timespec sec nsec) w)
  unfolding wait_rounds
  wait_rounds-Returns zero sec nsec w b l = absurd (omega arith)
  wait_rounds-Returns (suc fuel) sec nsec w b l =
      slept_round-Returns fuel sec nsec w (nanosleep w (timespec sec nsec))
        (law.sleeps w sec nsec b) l (wait_rounds-Returns fuel)

  -- Where nanosleep sleeps for the time asked for, or tells the time that remains when a signal
  -- comes, waitUsec returns for every number of microseconds that is not negative, within any fuel
  -- above the number of signals that are to come, with no assertion failing, and at least that time
  -- has then passed.
  pub wait_usec_lasts :
      (fuel usec : ℕ) (w : W)
      → signals w < fuel
      → (w' : W) × (wait_usec nanosleep fuel (pos usec) w ≡ some (returned w'))
        × (clock w + usec * 1000 ≤ clock w')
  unfolding wait_usec request_of quot rem times_1000
  wait_usec_lasts fuel usec w l =
      let (w', run, late) =
        wait_rounds-Returns fuel (usec / 1000000) (usec % 1000000 * 1000) w (omega arith) l in
      (w', run, omega arith)
