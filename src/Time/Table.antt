-- ===== src/Time/Table.antt =====
-- A small priority queue as the crate `priority-queue` documents it, to run the scheduler on.
use refault.Prelude.{
  ℕ, zero, suc, ◌+◌, ◌≤◌, ◌<◌, ◌≡◌, refl, Bool, true, false, Option, Option-cases, inl, inr, ◌⊎◌,
  none, some, Bool-cases, arith, leb, ltb, if◌then◌else◌, update,
}
use refault.Time.Queue.{PriorityQueue, QueueLaws}

-- The entries at addresses below `bound`.
pub record Table : Type 0 where
  pub bound : ℕ
  pub entries : ℕ → Option ℕ

abbrev get : Table → ℕ → Option ℕ
get q k = if ltb k q.bound then q.entries k else none

abbrev max : ℕ → ℕ → ℕ
max a b = if leb a b then b else a

abbrev earlier : Option (ℕ × ℕ) → ℕ → Option ℕ → Option (ℕ × ℕ)
earlier none k none = none
earlier none k (some d) = some (k, d)
earlier (some best) k none = some best
earlier (some (j, e)) k (some d) = if ltb d e then some (k, d) else some (j, e)

abbrev least : ℕ → (ℕ → Option ℕ) → Option (ℕ × ℕ)
least zero f = none
least (suc n) f = earlier (least n f) n (f n)

abbrev one : Option ℕ → ℕ
one none = 0
one (some d) = 1

abbrev size : ℕ → (ℕ → Option ℕ) → ℕ
size zero f = 0
size (suc n) f = one (f n) + size n f

abbrev pop_when : Table → (ℕ → ℕ → Bool) → Option (ℕ × ℕ) → Option ((ℕ × ℕ) × Table)
pop_when q test none = none
pop_when q test (some (k, d)) =
    if test k d then some ((k, d), record q { entries = update q.entries k none }) else none

abbrev pub table : PriorityQueue Table
table = record {
  new = record { bound = 0; entries = λ _. none };
  push = λ q k d. record { bound = max q.bound (suc k); entries = update (get q) k (some d) };
  remove = λ q k. record q { entries = update q.entries k none };
  peek = λ q. least q.bound q.entries;
  pop_if = λ q test. pop_when q test (least q.bound q.entries);
  get_priority = get;
  len = λ q. size q.bound q.entries;
}

least-none : (n : ℕ) (f : ℕ → Option ℕ) (k : ℕ) → least n f ≡ none → k < n → f k ≡ none
least-none zero f k e below = ground arith
least-none (suc n) f k e below = ground (arith, least-none n f k)

least-some :
    (n : ℕ) (f : ℕ → Option ℕ) (k d : ℕ) → least n f ≡ some (k, d) → (k < n) × (f k ≡ some d)
least-some zero f k d e = ground arith
least-some (suc n) f k d e = ground (arith, least-some n f k d)

least-least :
    (n : ℕ) (f : ℕ → Option ℕ) (k d j e : ℕ)
    → least n f ≡ some (k, d)
    → j < n
    → f j ≡ some e
    → d ≤ e
least-least zero f k d j e at below entry = ground arith
least-least (suc n) f k d j e at below entry = elim (Option-cases (least n f)) [
  | inl nothing ↦ ground (arith, least-none n f j nothing)
  | inr ((k', d'), found) ↦ ground (arith, least-least n f k' d' j e found)
]

size-other : (n : ℕ) (f : ℕ → Option ℕ) (k : ℕ) → n ≤ k → size n (update f k none) ≡ size n f
size-other zero f k above = refl
size-other (suc n) f k above = ground (arith, size-other n f k)

size-update :
    (n : ℕ) (f : ℕ → Option ℕ) (k d : ℕ)
    → k < n
    → f k ≡ some d
    → size n f ≡ suc (size n (update f k none))
size-update zero f k d below entry = ground arith
size-update (suc n) f k d below entry = ground (arith, size-update n f k d, size-other n f k)

taken_out :
    (q : Table) (test : ℕ → ℕ → Bool) (j at k d : ℕ) (q' : Table)
    → test j at ≡ true
    → pop_when q test (some (j, at)) ≡ some ((k, d), q')
    → (j ≡ k) × (at ≡ d) × (q' ≡ record q { entries = update q.entries j none })
taken_out q test j at k d q' passes e =
    let taken : pop_when q test (some (j, at))
        ≡ some ((j, at), record q { entries = update q.entries j none }) =
      rw (passes) refl in
    (cc, cc, cc)

popped :
    (q : Table) (test : ℕ → ℕ → Bool) (best : Option (ℕ × ℕ)) (k d : ℕ) (q' : Table)
    → pop_when q test best ≡ some ((k, d), q')
    → (best ≡ some (k, d))
      × (test k d ≡ true)
      × (q' ≡ record q { entries = update q.entries k none })
popped q test none k d q' e = ground arith
popped q test (some (j, at)) k d q' e = elim (Bool-cases (test j at)) [
  | inl passes ↦
      let (same_k, same_d, rest) = taken_out q test j at k d q' passes e in
      (cc, rw (← same_k, ← same_d) passes, rw (← same_k) rest)
  | inr fails ↦ ground (arith)
]

refused :
    (q : Table) (test : ℕ → ℕ → Bool) (best : Option (ℕ × ℕ))
    → pop_when q test best ≡ none
    → (best ≡ none) ⊎ ((k : ℕ) × (d : ℕ) × (best ≡ some (k, d)) × (test k d ≡ false))
refused q test none e = inl refl
refused q test (some (k, d)) e = inr (k, d, refl, ground arith)

pub table-QueueLaws : QueueLaws table
table-QueueLaws = record {
  get-new = λ k. ground arith;
  get-push = λ q k d j. ground arith;
  get-remove = λ q k j. ground arith;
  peek-none = λ q e k. ground (arith, least-none q.bound q.entries k e);
  peek-some = λ q k d e. ground (arith, least-some q.bound q.entries k d e);
  peek-least = λ q k d e j at entry. ground (arith, least-least q.bound q.entries k d j at e);
  pop_if-some = λ q test k d q' e.
      let (best, passes, rest) = popped q test (least q.bound q.entries) k d q' e in
      let (below, entry) = least-some q.bound q.entries k d best in
      (
        best,
        passes,
        rw (rest) (size-update q.bound q.entries k d below entry),
        (λ j. rw (rest) (ground arith)),
      );
  pop_if-none = λ q test e. refused q test (least q.bound q.entries) e;
}
