-- ===== src/Time/Queue.antt =====
-- The `PriorityQueue<QueueEntry, Reverse<Instant>>` of the crate priority-queue, which src/time.rs
-- calls: a map from addresses to instants that yields an entry with the earliest instant first.
use refault.Prelude.{
  ℕ, suc, ◌≤◌, ◌≡◌, ◌⊎◌, Bool, true, false, Option, none, some, ◌==◌, if◌then◌else◌,
}

pub record PriorityQueue (Q : Type 0) : Type 0 where
  pub new : Q
  pub push : Q → ℕ → ℕ → Q
  pub remove : Q → ℕ → Q
  pub peek : Q → Option (ℕ × ℕ)
  pub pop_if : Q → (ℕ → ℕ → Bool) → Option ((ℕ × ℕ) × Q)
  pub get_priority : Q → ℕ → Option ℕ
  pub len : Q → ℕ

-- What its documentation says of these methods.
pub record QueueLaws {Q : Type 0} (pq : PriorityQueue Q) : Type 0 where
  pub get-new : (k : ℕ) → pq.get_priority pq.new k ≡ none
  pub get-push :
      (q : Q) (k d j : ℕ)
      → pq.get_priority (pq.push q k d) j ≡ (if k == j then some d else pq.get_priority q j)
  pub get-remove :
      (q : Q) (k j : ℕ)
      → pq.get_priority (pq.remove q k) j ≡ (if k == j then none else pq.get_priority q j)
  pub peek-none : (q : Q) → pq.peek q ≡ none → (k : ℕ) → pq.get_priority q k ≡ none
  pub peek-some : (q : Q) (k d : ℕ) → pq.peek q ≡ some (k, d) → pq.get_priority q k ≡ some d
  pub peek-least :
      (q : Q) (k d : ℕ) → pq.peek q ≡ some (k, d) → (j e : ℕ) → pq.get_priority q j ≡ some e → d ≤ e
  pub pop_if-some :
      (q : Q) (test : ℕ → ℕ → Bool) (k d : ℕ) (q' : Q)
      → pq.pop_if q test ≡ some ((k, d), q')
      → (pq.peek q ≡ some (k, d))
        × (test k d ≡ true)
        × (pq.len q ≡ suc (pq.len q'))
        × ((j : ℕ) → pq.get_priority q' j ≡ (if k == j then none else pq.get_priority q j))
  pub pop_if-none :
      (q : Q) (test : ℕ → ℕ → Bool)
      → pq.pop_if q test ≡ none
      → (pq.peek q ≡ none) ⊎ ((k : ℕ) × (d : ℕ) × (pq.peek q ≡ some (k, d)) × (test k d ≡ false))
