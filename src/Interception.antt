-- ===== src/Interception.antt =====
-- src/interception.rs: the functions of libc that tell the time and give random bytes. Inside a simulation they
-- read its clock and its random numbers, outside they forward to the functions of the system.
mod Examples
pub mod Clock
use refault.Prelude.{
  ℕ, ◌+◌, ◌*◌, ◌/◌, ◌%◌, ◌^◌, ◌-◌, List, Option, none, some, Bool, ltb, if◌then◌else◌,
}

-- An i64: a number, or the negation of one.
pub data I64 : Type 0 where
  plus minus : ℕ → I64

-- `n as i64` for a u64
unfoldable pub as_i64 : ℕ → I64
as_i64 n = if ltb n (2 ^ 63) then plus n else minus (2 ^ 64 - n)

pub record Timespec : Type 0 where
  pub tv_sec : I64
  pub tv_nsec : I64

abbrev pub nanos_per_sec : ℕ
nanos_per_sec = 1000000000

-- `Duration::as_secs` and `Duration::subsec_nanos`, of a number of nanoseconds.
unfoldable pub as_secs : ℕ → ℕ
as_secs time = time / nanos_per_sec

unfoldable pub subsec_nanos : ℕ → ℕ
subsec_nanos time = time % nanos_per_sec

-- `clock_gettime`: `time` is that of the simulation of the thread, if it has one, and `system` what the
-- function of the system gives. The result is the return code and the time.
unfoldable pub clock_gettime : (time : Option ℕ) → (system : ℕ × Timespec) → ℕ × Timespec
unfolding as_i64 as_secs subsec_nanos
clock_gettime (some time) system =
    (0, record { tv_sec = as_i64 (as_secs time); tv_nsec = as_i64 (subsec_nanos time) })
clock_gettime none system = system

-- `getrandom`: `fill_bytes` is that of the generator of the simulation. The result is the number of bytes, the
-- bytes, and the generator.
unfoldable pub getrandom :
    {R : Type 0}
    → (fill_bytes : R → ℕ → List ℕ × R) → (rng : Option R) → (buflen : ℕ) → (system : ℕ × List ℕ)
    → ℕ × List ℕ × Option R
getrandom fill_bytes none buflen (read, bytes) = (read, bytes, none)
getrandom fill_bytes (some rng) buflen system =
    let (bytes, rng') = fill_bytes rng buflen in (buflen, bytes, some rng')
