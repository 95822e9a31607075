-- ===== src/Events.antt =====
-- src/event.rs: the events of a run and the handlers that record, hash or validate them.
mod Examples
pub mod Replay
use refault.Prelude.{
  ℕ, ◌+◌, Bool, true, false, List, [], ◌∷◌, ◌++◌, none, some, Result, ok, panic, diverged, length,
  get_elem?, leb, if◌then◌else◌, ◌==◌,
}

-- Durations are counted in nanoseconds.
pub data Event : Type 0 where
  task_run : (id : ℕ) → Event
  time_advanced : (dt : ℕ) → Event
  node_spawned : (node : ℕ) → Event
  task_spawned : Event

-- The derived `PartialEq`.
unfoldable pub event_eq : Event → Event → Bool
event_eq (task_run a) (task_run b) = a == b
event_eq (time_advanced a) (time_advanced b) = a == b
event_eq (node_spawned a) (node_spawned b) = a == b
event_eq task_spawned task_spawned = true
event_eq _ _ = false

-- What `finalize` boxes: nothing, the recorded events, or a hash.
pub data Output : Type 0 where
  unit : Output
  events : List Event → Output
  hash : ℕ → Output

-- The trait `EventHandler`, which the executor calls through a trait object.
pub record EventHandler (H : Type 0) : Type 0 where
  pub handle_event : H → Event → Result H
  pub finalize : H → Result Output

-- A run reports its events one after another.
unfoldable pub handle_all : {H : Type 0} → EventHandler H → H → List Event → Result H
handle_all h s [] = ok s
handle_all h s (e ∷ es) = elim (h.handle_event s e) [
  | ok s' ↦ handle_all h s' es
  | panic p ↦ panic p
]

abbrev pub noop : EventHandler (Unit {0})
noop = record { handle_event = λ s _. ok s; finalize = λ _. ok unit }

-- `RecordingEventHandler`: the state is `recorded_events`.
abbrev pub recording : EventHandler (List Event)
recording = record { handle_event = λ s e. ok (s ++ e ∷ []); finalize = λ s. ok (events s) }

pub record Validation : Type 0 where
  pub events_to_validate : List Event
  pub next_event_index : ℕ

abbrev pub new_validation : List Event → Validation
new_validation previous = record { events_to_validate = previous; next_event_index = 0 }

-- `ValidatingEventHandler::handle_event`
unfoldable pub validate : Validation → Event → Result Validation
unfolding event_eq
validate v current =
    if leb (length v.events_to_validate) v.next_event_index
    then panic diverged
    else elim (get_elem? v.events_to_validate v.next_event_index) [
      | none ↦ panic diverged
      | some expected ↦
          if event_eq current expected
          then ok (record v { next_event_index = v.next_event_index + 1 })
          else panic diverged
    ]

-- `ValidatingEventHandler::finalize`
unfoldable pub finalize_validation : Validation → Result Output
finalize_validation v =
    if v.next_event_index == length v.events_to_validate then ok unit else panic diverged

abbrev pub validating : EventHandler Validation
validating = record { handle_event = validate; finalize = finalize_validation }

-- `ahash::AHasher`, a third-party hasher: a state, what hashing an event does to it, its value.
pub record AHasher (S : Type 0) : Type 0 where
  pub new : S
  pub write : S → Event → S
  pub finish : S → ℕ

module _ {S : Type 0} (hasher : AHasher S) where
  -- `HashRecordingEventHandler`: the state is `hasher`.
  abbrev pub hash_recording : EventHandler S
  hash_recording = record {
    handle_event = λ s e. ok (hasher.write s e);
    finalize = λ s. ok (hash (hasher.finish s));
  }

  -- `HashValidatingEventHandler` with its field `expected`.
  abbrev pub hash_validating : ℕ → EventHandler S
  hash_validating expected = record {
    handle_event = λ s e. ok (hasher.write s e);
    finalize = λ s. if hasher.finish s == expected then ok unit else panic diverged;
  }
