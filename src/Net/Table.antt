-- ===== src/Net/Table.antt =====
-- Addresses, and the map from pairs of an address and a type of packets to inboxes.
use refault.Prelude.{
  ℕ, ◌≡◌, Bool, true, false, ◌&&◌, ◌||◌, List, [], ◌∷◌, Option, none, some, ◌==◌, if◌then◌else◌,
  arith, Bool-cases, inl, inr,
}

pub record Addr : Type 0 where
  pub node : ℕ
  pub port : ℕ

pub record Key : Type 0 where
  pub addr : Addr
  pub ty : ℕ

abbrev pub key_at : ℕ → ℕ → ℕ → Key
key_at node port ty = record { addr = record { node = node; port = port }; ty = ty }

abbrev pub key_eq : Key → Key → Bool
key_eq a b = (a.addr.node == b.addr.node) && (a.addr.port == b.addr.port) && (a.ty == b.ty)

pub key_eq→eq : (a b : Key) → key_eq a b ≡ true → a ≡ b
key_eq→eq a b h = ground arith

pub key_eq_refl : (a : Key) → key_eq a a ≡ true
key_eq_refl a = ground arith

abbrev pub find : List (Key × ℕ) → Key → Option ℕ
find [] k = none
find ((j, inbox) ∷ entries) k = if key_eq j k then some inbox else find entries k

abbrev pub remove : List (Key × ℕ) → Key → List (Key × ℕ)
remove [] k = []
remove ((j, inbox) ∷ entries) k =
    let rest = remove entries k in if key_eq j k then rest else (j, inbox) ∷ rest

pub find-remove :
    (entries : List (Key × ℕ)) (k j : Key)
    → find (remove entries k) j ≡ (if key_eq k j then none else find entries j)
find-remove [] k j = ground arith
find-remove ((i, inbox) ∷ entries) k j = ground (arith, find-remove entries k j)

-- Whether an entry stands anywhere in the table, hidden by another one or not.
abbrev pub has : List (Key × ℕ) → Key → ℕ → Bool
has [] k a = false
has ((j, inbox) ∷ entries) k a = (key_eq j k && (inbox == a)) || has entries k a

pub has-remove :
    (entries : List (Key × ℕ)) (k j : Key) (a : ℕ)
    → has (remove entries k) j a ≡ (if key_eq k j then false else has entries j a)
has-remove [] k j a = ground arith
has-remove ((i, inbox) ∷ entries) k j a = ground (arith, has-remove entries k j a)

-- Whether one of a node's entries is for an inbox.
abbrev pub listed : ℕ → List (Key × ℕ) → ℕ → Bool
listed node [] a = false
listed node ((key, inbox) ∷ entries) a =
    ((key.addr.node == node) && (inbox == a)) || listed node entries a

pub has_of_listed :
    (node : ℕ) (entries : List (Key × ℕ)) (a : ℕ)
    → listed node entries a ≡ true
    → (k : Key) × (has entries k a ≡ true) × (k.addr.node ≡ node)
has_of_listed node [] a h = absurd (ground arith)
has_of_listed node ((j, inbox) ∷ entries) a h =
    elim (Bool-cases ((j.addr.node == node) && (inbox == a))) [
      | inl this ↦ (j, ground (arith, key_eq_refl j), ground arith)
      | inr other ↦
          let (k, there, on) = has_of_listed node entries a (ground arith) in (k, ground arith, on)
    ]

pub listed_of_find :
    (entries : List (Key × ℕ)) (k : Key) (a : ℕ)
    → find entries k ≡ some a
    → listed k.addr.node entries a ≡ true
listed_of_find [] k a e = absurd (ground arith)
listed_of_find ((j, inbox) ∷ entries) k a e =
    ground (arith, key_eq→eq j k, listed_of_find entries k a)
