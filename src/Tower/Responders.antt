-- ===== src/Tower/Responders.antt =====
-- The map from the ids of requests to the senders of their calls.
use refault.Prelude.{ℕ, ◌≡◌, List, [], ◌∷◌, Option, none, some, ◌==◌, if◌then◌else◌, arith}

abbrev pub lookup : List (ℕ × ℕ) → ℕ → Option ℕ
lookup [] id = none
lookup ((i, responder) ∷ rest) id = if i == id then some responder else lookup rest id

abbrev pub without : List (ℕ × ℕ) → ℕ → List (ℕ × ℕ)
without [] id = []
without ((i, responder) ∷ rest) id =
    let others = without rest id in if i == id then others else (i, responder) ∷ others

abbrev pub insert_responder : List (ℕ × ℕ) → ℕ → ℕ → List (ℕ × ℕ)
insert_responder responders id responder = (id, responder) ∷ without responders id

pub lookup-without :
    (responders : List (ℕ × ℕ)) (id j : ℕ)
    → lookup (without responders id) j ≡ (if id == j then none else lookup responders j)
lookup-without [] id j = ground arith
lookup-without ((i, responder) ∷ rest) id j = ground (arith, lookup-without rest id j)

pub lookup-insert :
    (responders : List (ℕ × ℕ)) (id responder j : ℕ)
    → lookup (insert_responder responders id responder) j
      ≡ (if id == j then some responder else lookup responders j)
lookup-insert responders id responder j = ground (arith, lookup-without responders id j)
