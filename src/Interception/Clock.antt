-- ===== src/Interception/Clock.antt =====
-- The time that a program in a simulation reads.
use refault.Prelude.{ℕ, ◌+◌, ◌*◌, ◌/◌, ◌%◌, ◌≡◌, ◌<◌, some, arith}
use refault.Interception.{
  plus, as_i64, Timespec, nanos_per_sec, as_secs, subsec_nanos, clock_gettime,
}

-- Below 2^63 seconds.
abbrev pub latest : ℕ
latest = 9223372036854775808000000000

-- Before 2^63 seconds, `clock_gettime` succeeds in a simulation with two numbers that are not negative,
-- the nanoseconds below a second, which stand for the exact time of the simulation.
pub clock_gettime-nanoseconds :
    (time : ℕ) (system : ℕ × Timespec)
    → time < latest
    → (sec : ℕ) × (nsec : ℕ) × (clock_gettime (some time) system
        ≡ (0, record { tv_sec = plus sec; tv_nsec = plus nsec }))
      × (nsec < nanos_per_sec)
      × (sec * nanos_per_sec + nsec ≡ time)
unfolding clock_gettime as_i64 as_secs subsec_nanos
clock_gettime-nanoseconds time system below =
    (time / nanos_per_sec, time % nanos_per_sec, ground arith, omega arith, omega arith)
