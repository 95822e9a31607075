-- ===== src/Interception/Examples.antt =====
-- Two and a half seconds.
use refault.Prelude.{ℕ, ◌+◌, ◌*◌, ◌≡◌, ◌<◌, some, arith}
use refault.Interception.{plus, Timespec, nanos_per_sec, clock_gettime}
use refault.Interception.Clock.{clock_gettime-nanoseconds}

abbrev unused : ℕ × Timespec
unused = (1, record { tv_sec = plus 0; tv_nsec = plus 0 })

clock_gettime-nanoseconds_example :
    (sec : ℕ) × (nsec : ℕ) × (clock_gettime (some 2500000000) unused
      ≡ (0, record { tv_sec = plus sec; tv_nsec = plus nsec }))
    × (nsec < nanos_per_sec)
    × (sec * nanos_per_sec + nsec ≡ 2500000000)
clock_gettime-nanoseconds_example = clock_gettime-nanoseconds 2500000000 unused (omega arith)
