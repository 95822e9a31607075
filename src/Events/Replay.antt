-- ===== src/Events/Replay.antt =====
-- What the determinism checks of two runs of the same program decide.
use mathlib.Core.List.{append-nil, append_assoc}
use refault.Prelude.{
  ℕ, ◌+◌, ◌≡◌, ◌≢◌, refl, ap, List, [], ◌∷◌, ◌++◌, arith, Bool, true, false, ◌&&◌, Result, ok,
  panic, diverged, unwrap_none, length, ◌>>=◌, ◌↔◌, length-append, get_elem?, some, if◌then◌else◌,
  Bool-cases, inl, inr, ◌⊎◌,
}
use refault.Events.{
  Event, task_run, time_advanced, node_spawned, task_spawned, event_eq, EventHandler, Output, unit,
  events, hash, handle_all, recording, Validation, new_validation, validate, finalize_validation,
  validating, AHasher, hash_recording, hash_validating,
}

-- A whole run under a handler: its events, then `finalize`.
pub run : {H : Type 0} → EventHandler H → H → List Event → Result Output
unfolding handle_all
run h s es = do last ← handle_all h s es; h.finalize last

-- The comparison of two event sequences that `DeterminismCheck::Full` makes: the first is recorded, the
-- second validated against the record. `SimBuilder::run` itself is in SimBuilder.
pub check_full : List Event → List Event → Result Output
unfolding run
check_full first second = do
  out ← run recording [] first
  elim out [
    | events previous ↦ run validating (new_validation previous) second
    | _ ↦ panic unwrap_none
  ]

-- The same under `DeterminismCheck::Hash`.
pub check_hash : {S : Type 0} → AHasher S → List Event → List Event → Result Output
unfolding run
check_hash hasher first second = do
  out ← run (hash_recording hasher) hasher.new first
  elim out [
    | hash expected ↦ run (hash_validating hasher expected) hasher.new second
    | _ ↦ panic unwrap_none
  ]

abbrev pub events_eq : List Event → List Event → Bool
events_eq [] [] = true
events_eq (x ∷ xs) (y ∷ ys) = event_eq x y && events_eq xs ys
events_eq _ _ = false

event_eq_refl : (e : Event) → event_eq e e ≡ true
unfolding event_eq
event_eq_refl (task_run a) = ground arith
event_eq_refl (time_advanced a) = ground arith
event_eq_refl (node_spawned a) = ground arith
event_eq_refl task_spawned = refl

event_eq→eq : (a b : Event) → event_eq a b ≡ true → a ≡ b
unfolding event_eq
event_eq→eq (task_run a) (task_run b) h = ground arith
event_eq→eq _ _ h = ground arith

events_eq_refl : (es : List Event) → events_eq es es ≡ true
events_eq_refl [] = refl
events_eq_refl (e ∷ es) = rw (event_eq_refl e) (events_eq_refl es)

events_eq→eq : (xs ys : List Event) → events_eq xs ys ≡ true → xs ≡ ys
events_eq→eq [] [] h = refl
events_eq→eq (x ∷ xs) (y ∷ ys) h = ground (arith, event_eq→eq x y, events_eq→eq xs ys)
events_eq→eq _ _ h = ground arith

recording-eq : (seen es : List Event) → handle_all recording seen es ≡ ok (seen ++ es)
unfolding handle_all
recording-eq seen [] = rw append-nil
recording-eq seen (e ∷ es) = rw (recording-eq (seen ++ e ∷ []) es, append_assoc seen (e ∷ []) es)

get_elem?-mid :
    (xs : List Event) (e : Event) (ys : List Event) → get_elem? (xs ++ e ∷ ys) (length xs) ≡ some e
get_elem?-mid [] e ys = refl
get_elem?-mid (x ∷ xs) e ys = get_elem?-mid xs e ys

abbrev at : List Event → List Event → Validation
at done rest = record { events_to_validate = done ++ rest; next_event_index = length done }

validate-nil : (done : List Event) (e : Event) → validate (at done []) e ≡ panic diverged
unfolding validate
validate-nil done e = ground (arith, append-nil done)

at-next :
    (done : List Event) (x : Event) (rest : List Event)
    → record (at done (x ∷ rest)) { next_event_index = length done + 1 } ≡ at (done ++ x ∷ []) rest
at-next done x rest = ground (arith, append_assoc done (x ∷ []) rest, length-append done (x ∷ []))

validate-cons :
    (done : List Event) (x : Event) (rest : List Event) (e : Event)
    → validate (at done (x ∷ rest)) e
      ≡ (if event_eq e x then ok (at (done ++ x ∷ []) rest) else panic diverged)
unfolding validate
validate-cons done x rest e =
    ground (arith, at-next done x rest, get_elem?-mid done x rest, length-append done (x ∷ rest))

replay_bool :
    (es done rest : List Event)
    → run validating (at done rest) es ≡ (if events_eq es rest then ok unit else panic diverged)
unfolding run finalize_validation
replay_bool [] done [] = ground (arith, append-nil done)
replay_bool [] done (x ∷ rest) = ground (arith, length-append done (x ∷ rest))
replay_bool (e ∷ es) done [] = rw (validate-nil done e, handle_all) refl
replay_bool (e ∷ es) done (x ∷ rest) =
    ground (arith, validate-cons done x rest e, replay_bool es (done ++ x ∷ []) rest)

-- A recorded run, and the replay of a run against a record.
pub recording-run : (es : List Event) → run recording [] es ≡ ok (events es)
unfolding run
recording-run es = rw (recording-eq [] es) refl

pub replay_lem :
    (recorded es : List Event)
    → ((es ≡ recorded) × (run validating (new_validation recorded) es ≡ ok unit))
      ⊎ ((es ≢ recorded) × (run validating (new_validation recorded) es ≡ panic diverged))
unfolding run
replay_lem recorded es = elim (Bool-cases (events_eq es recorded)) [
  | inl same ↦ inl (events_eq→eq es recorded same, rw (replay_bool es [] recorded, same) refl)
  | inr other ↦ inr (differ es recorded other, rw (replay_bool es [] recorded, other) refl)
]
  where
    differ : (xs ys : List Event) → events_eq xs ys ≡ false → xs ≢ ys
    differ xs ys other eq = let same : events_eq xs ys ≡ true = rw eq (events_eq_refl ys) in cc

-- With the full determinism check a second run passes exactly when it reports the same events in the
-- same order as the first, and every other second run ends in the panic that reports divergence:
-- a changed, a missing and a surplus event alike.
pub check_full_lem :
    (first second : List Event)
    → ((check_full first second ≡ ok unit) ↔ (second ≡ first))
      × ((check_full first second ≡ ok unit) ⊎ (check_full first second ≡ panic diverged))
unfolding check_full
check_full_lem first second =
    rw (recording-eq [] first, replay_bool second [] first)
      (elim (Bool-cases (events_eq second first)) [
        | inl same ↦
            let eq : second ≡ first = events_eq→eq second first same in
            rw same (((λ _. eq), (λ _. refl)), inl refl)
        | inr other ↦ rw other (((λ h. cc), (λ h. absurd (differ h other))), inr refl)
      ])
  where
    differ : second ≡ first → events_eq second first ≡ false → ⊥
    differ h other = let same : events_eq second first ≡ true = rw h (events_eq_refl first) in cc

module _ {S : Type 0} (hasher : AHasher S) where
  -- The hasher's state after a run.
  pub absorb : S → List Event → S
  absorb s [] = s
  absorb s (e ∷ es) = absorb (hasher.write s e) es

  pub digest : List Event → ℕ
  unfolding absorb
  digest es = hasher.finish (absorb hasher.new es)

  hash_recording-eq :
      (s : S) (es : List Event) → handle_all (hash_recording hasher) s es ≡ ok (absorb s es)
  unfolding handle_all absorb
  hash_recording-eq s [] = refl
  hash_recording-eq s (e ∷ es) = hash_recording-eq (hasher.write s e) es

  hash_validating-eq :
      (expected : ℕ) (s : S) (es : List Event)
      → handle_all (hash_validating hasher expected) s es ≡ ok (absorb s es)
  unfolding handle_all absorb
  hash_validating-eq expected s [] = refl
  hash_validating-eq expected s (e ∷ es) = hash_validating-eq expected (hasher.write s e) es

  -- With the hash check a second run passes exactly when the hashes of the two event sequences are
  -- equal, ends in the panic that reports divergence otherwise, and passes whenever the full check
  -- would: the check by hash may miss a difference, and never reports one that is not there.
  pub check_hash_lem :
      (first second : List Event)
      → ((check_hash hasher first second ≡ ok unit) ↔ (digest second ≡ digest first))
        × ((check_hash hasher first second ≡ ok unit)
            ⊎ (check_hash hasher first second ≡ panic diverged))
        × (check_full first second ≡ ok unit → check_hash hasher first second ≡ ok unit)
  unfolding check_hash run digest
  check_hash_lem first second =
      rw (hash_recording-eq hasher.new first, hash_validating-eq (digest first) hasher.new second)
        (
          ((λ h. ground arith), (λ h. ground arith)),
          ground arith,
          λ full.
              let same : digest second ≡ digest first =
                ap digest ((check_full_lem first second).0.0 full) in
              ground arith,
        )
