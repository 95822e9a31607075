-- ===== src/Ids/Unique.antt =====
-- Ids are handed out once: any mix of single ids and ranges yields consecutive numbers.
use refault.Prelude.{
  ℕ, zero, suc, ◌+◌, ◌≤◌, ◌<◌, ◌≡◌, refl, ap, subst, Bool-cases, inl, inr, ltb, true, false, List,
  [], ◌∷◌, ◌++◌, arith, Bool, Result, ok, ◌>>=◌, count,
}
use refault.Ids.{u64_mod, IdRange, new_id, new_range, get}

-- `n` ids from `first` on.
abbrev pub ids_from : ℕ → ℕ → List ℕ
ids_from first zero = []
ids_from first (suc n) = first ∷ ids_from (suc first) n

-- The ids of a range read one by one, `get(from)` to `get(from + n - 1)`.
pub to_vec : IdRange → ℕ → ℕ → Result (List ℕ)
unfolding get
to_vec r from zero = ok []
to_vec r from (suc n) = do id ← get r from; rest ← to_vec r (suc from) n; ok (id ∷ rest)

-- `n` calls of `Id::new`.
pub new_ids : Bool → ℕ → ℕ → Result (List ℕ × ℕ)
new_ids debug zero counter = ok ([], counter)
new_ids debug (suc n) counter = do
  (id, counter') ← new_id debug counter
  (rest, after) ← new_ids debug n counter'
  ok (id ∷ rest, after)

pub new_id-eq : (debug : Bool) (c : ℕ) → c + 1 < u64_mod → new_id debug c ≡ ok (suc c, suc c)
unfolding new_id
new_id-eq debug c h = ground arith

over_panics : (debug : Bool) (c id c' : ℕ) → c + 1 ≡ u64_mod → new_id debug c ≡ ok (id, c') → ⊥
unfolding new_id
over_panics true c id c' e h = ground arith
over_panics false c id c' e h =
    let last : c ≡ 18446744073709551615 = omega (arith, e) in
    let wrapped = subst (λ (n : ℕ). new_id false n ≡ ok (id, c')) last h in cc

-- An id that `Id::new` returns is the next number, and below 2^64.
pub new_id-parts :
    (debug : Bool) (c id c' : ℕ)
    → c < u64_mod
    → new_id debug c ≡ ok (id, c')
    → (id ≡ suc c) × (c' ≡ suc c) × (suc c < u64_mod)
new_id-parts debug c id c' small e = elim (Bool-cases (ltb (c + 1) u64_mod)) [
  | inl fits ↦ ground (arith, new_id-eq debug c)
  | inr over ↦ absurd (over_panics debug c id c' (ground arith) e)
]

pub new_range-eq :
    (debug : Bool) (n c : ℕ)
    → 0 < n
    → c + n < u64_mod
    → new_range debug n c ≡ ok (record { start = suc c; end = c + n }, c + n)
unfolding new_range
new_range-eq debug n c p h = ground arith

to_vec-eq :
    (r : IdRange) (from n : ℕ)
    → r.start + from + n ≤ u64_mod
    → to_vec r from n ≡ ok (ids_from (r.start + from) n)
unfolding to_vec
to_vec-eq r from zero h = refl
to_vec-eq r from (suc n) h = ground (arith, to_vec-eq r (suc from) n)

new_ids-eq :
    (debug : Bool) (n c : ℕ) → c + n < u64_mod → new_ids debug n c ≡ ok (ids_from (suc c) n, c + n)
unfolding new_ids
new_ids-eq debug zero c h = ground arith
new_ids-eq debug (suc n) c h = ground (arith, new_id-eq debug c, new_ids-eq debug n (suc c))

-- A range stands for the ids that as many single calls would have given, whatever the build
-- profile: while the counter does not pass 2^64, reading a new range of `n > 0` ids from 0 to `n - 1`
-- and `n` calls of `Id::new` give the same list and leave the same counter.
pub new_range-to_vec :
    (debug : Bool) (n c : ℕ)
    → 0 < n
    → c + n < u64_mod
    → (do (r, after) ← new_range debug n c; ids ← to_vec r 0 n; ok (ids, after)) ≡ new_ids debug n c
new_range-to_vec debug n c p h =
    rw (new_range-eq debug n c p h)
      (ground (arith, new_ids-eq debug n c, to_vec-eq (record { start = suc c; end = c + n }) 0 n))

-- What a program asks of the generator.
pub data Request : Type 0 where
  one : Request
  many : ℕ → Request

pub request : Bool → Request → ℕ → Result (List ℕ × ℕ)
request debug one c = do (id, after) ← new_id debug c; ok (id ∷ [], after)
request debug (many n) c = do (r, after) ← new_range debug n c; ids ← to_vec r 0 n; ok (ids, after)

pub requests : Bool → List Request → ℕ → Result (List ℕ × ℕ)
requests debug [] c = ok ([], c)
requests debug (q ∷ qs) c = do
  (ids, c') ← request debug q c
  (more, after) ← requests debug qs c'
  ok (ids ++ more, after)

abbrev pub size : Request → ℕ
size one = 1
size (many n) = n

abbrev pub total : List Request → ℕ
total [] = 0
total (q ∷ qs) = size q + total qs

abbrev pub AllPositive : List Request → Type 0
AllPositive [] = Unit {0}
AllPositive (q ∷ qs) = (0 < size q) × AllPositive qs

ids_from-append : (a m n : ℕ) → ids_from a m ++ ids_from (a + m) n ≡ ids_from a (m + n)
ids_from-append a zero n = ground arith
ids_from-append a (suc m) n =
    let left : a + suc m ≡ suc a + m = omega arith in
    let right : suc m + n ≡ suc (m + n) = omega arith in
    rw (left, right) (ap (◌∷◌ a) (ids_from-append (suc a) m n))

request-eq :
    (debug : Bool) (q : Request) (c : ℕ)
    → 0 < size q
    → c + size q < u64_mod
    → request debug q c ≡ ok (ids_from (suc c) (size q), c + size q)
unfolding request
request-eq debug one c p h = ground (arith, new_id-eq debug c)
request-eq debug (many n) c p h =
    rw (new_range-eq debug n c p h)
      (ground (arith, to_vec-eq (record { start = suc c; end = c + n }) 0 n))

-- Any mix of single ids and ranges, each of a positive length and in all below 2^64, is answered
-- without a panic in either build profile, and the ids are, in order, the numbers that follow the
-- counter: `total` of them, with no gap and no repetition.
pub requests-consecutive :
    (debug : Bool) (qs : List Request) (c : ℕ)
    → AllPositive qs
    → c + total qs < u64_mod
    → requests debug qs c ≡ ok (ids_from (suc c) (total qs), c + total qs)
unfolding requests
requests-consecutive debug [] c p h = ground arith
requests-consecutive debug (q ∷ qs) c p h = ground (
  arith,
  request-eq debug q c,
  requests-consecutive debug qs (c + size q),
  ids_from-append (suc c) (size q) (total qs),
)

-- Reading a range one past its end gives the very id that the next call of `Id::new` hands out:
-- `get` does not check its index against the length, while the counter stays below 2^64.
pub get-past_end :
    (debug : Bool) (n c : ℕ)
    → 0 < n
    → c + n + 1 < u64_mod
    → (do (r, after) ← new_range debug n c; get r n)
      ≡ (do (r, after) ← new_range debug n c; (id, next) ← new_id debug after; ok id)
unfolding get
get-past_end debug n c p h =
    rw (new_range-eq debug n c p (omega arith)) (ground (arith, new_id-eq debug (c + n)))

count-ids_from_below : (i a n : ℕ) → i < a → count i (ids_from a n) ≡ 0
count-ids_from_below i a zero h = refl
count-ids_from_below i a (suc n) h = ground (arith, count-ids_from_below i (suc a) n)

pub count-ids_from : (i a n : ℕ) → count i (ids_from a n) ≤ 1
count-ids_from i a zero = omega arith
count-ids_from i a (suc n) =
    ground (arith, count-ids_from i (suc a) n, count-ids_from_below i (suc a) n)
