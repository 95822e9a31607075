-- ===== src/Ids.antt =====
-- src/id.rs: unique ids. The state is the counter `pre_next_global_id` of `SimCxu`, a u64.
-- `debug` is the build profile: with it an overflow panics, without it the counter wraps.
mod Examples
pub mod Unique
use refault.Prelude.{
  ℕ, ◌+◌, ◌-◌, ◌%◌, ◌^◌, Bool, if◌then◌else◌, ◌==◌, ltb, Result, ok, panic, Panic, overflow,
  unwrap_none, assert_failed, assert, ◌>>=◌, ◌>>◌,
}

abbrev pub u64_mod : ℕ
u64_mod = 2 ^ 64

unfoldable pub add_u64 : Bool → ℕ → ℕ → Result ℕ
add_u64 debug a b =
    if ltb (a + b) u64_mod
    then ok (a + b)
    else (if debug then panic overflow else ok ((a + b) % u64_mod))

unfoldable pub sub_u64 : Bool → ℕ → ℕ → Result ℕ
sub_u64 debug a b =
    if ltb a b
    then (if debug then panic overflow else ok ((a + u64_mod - b) % u64_mod))
    else ok (a - b)

-- `NonZeroU64::new(n).unwrap()`
unfoldable pub non_zero : ℕ → Result ℕ
non_zero n = if n == 0 then panic unwrap_none else ok n

-- `Id::new`: the id and the counter after the call.
unfoldable pub new_id : Bool → ℕ → Result (ℕ × ℕ)
unfolding add_u64 non_zero
new_id debug counter = do id ← add_u64 debug counter 1; nonzero ← non_zero id; ok (nonzero, id)

-- `IdRange(start..=end)`
pub record IdRange : Type 0 where
  pub start : ℕ
  pub end : ℕ

-- `IdRange::new`; `len` is a usize, so below 2^64.
unfoldable pub new_range : Bool → ℕ → ℕ → Result (IdRange × ℕ)
unfolding add_u64 sub_u64 non_zero
new_range debug len counter = do
  assert (ltb 0 len) assert_failed
  last ← add_u64 debug counter len
  first ← sub_u64 debug last (len - 1)
  start ← non_zero first
  end ← non_zero last
  ok (record { start = start; end = end }, last)

-- `IdRange::len`
unfoldable pub len : Bool → IdRange → Result ℕ
unfolding add_u64 sub_u64
len debug r = do span ← sub_u64 debug r.end r.start; add_u64 debug span 1

-- `IdRange::get`: `checked_add`, then `unwrap`.
unfoldable pub get : IdRange → ℕ → Result ℕ
get r index = if ltb (r.start + index) u64_mod then ok (r.start + index) else panic unwrap_none
