-- ===== src/Net/Machine/View.antt =====
-- The queues that a network stands for.
use refault.Prelude.{
  ℕ, ◌≡◌, refl, false, Bool-cases, inl, inr, List, Option, none, some, Option-cases, Map, update,
  arith, ◌==◌, ==_refl,
}
use refault.Net.Channel.{LocalChannel, ChannelLaws}
use refault.Net.Table.{Key, key_eq, key_eq→eq, key_eq_refl, find}
use refault.Net.Queues.{Same, Sets}
use refault.Net.{Inboxes, Message, Packet}
use refault.Net.Machine.{Machine}
use refault.Net.Machine.Invariant.{Inv}

module _ {C P : Type 0} (ch : LocalChannel C (Message P)) (laws : ChannelLaws ch)
    (trait : Packet P) where
  abbrev pub contents? : Option C → Option (List (Message P))
  contents? none = none
  contents? (some c) = some (laws.contents c)

  abbrev at_inbox : Map C → Option ℕ → Option (List (Message P))
  at_inbox heap none = none
  at_inbox heap (some a) = contents? (heap a)

  -- The queues of a network: a view that forgets which inbox is where.
  abbrev pub view : Inboxes C P → Key → Option (List (Message P))
  view net k = at_inbox net.heap (find net.entries k)

  module _ (m : Machine C P) (v : Inv ch laws trait m) where
    -- Two keys never share an inbox.
    find-inj :
        (k j : Key) (a : ℕ) → find m.net.entries k ≡ some a → find m.net.entries j ≡ some a → k ≡ j
    find-inj k j a e e' =
        let (s, at, own, alive) = v.existing k a e in
        let (s', at', own', alive') = v.existing j a e' in cc

    -- New contents for a registered inbox set its key's queue.
    pub view-set :
        (key : Key) (a : ℕ) (c' : C)
        → find m.net.entries key ≡ some a
        → Sets
            (view m.net)
            (view (record m.net { heap = update m.net.heap a (some c') }))
            key
            (some (laws.contents c'))
    view-set key a c' found k = elim (Bool-cases (key_eq key k)) [
      | inl same ↦ ground (arith, key_eq→eq key k, ==_refl a)
      | inr other ↦ elim (Option-cases (find m.net.entries k)) [
        | inl absent ↦ rw (absent, other) refl
        | inr (b, there) ↦ elim (Bool-cases (a == b)) [
          | inl shared ↦
              let is : a ≡ b = ground arith in
              let same : key ≡ k = find-inj key k a found (cc) in
              absurd (ground (arith, key_eq_refl k))
          | inr apart ↦ rw (there, apart, other) refl
        ]
      ]
    ]

    -- New contents for an inbox that is not registered set nothing.
    pub view-unregistered :
        (a : ℕ) (c' : C)
        → m.live a ≡ false
        → Same (view m.net) (view (record m.net { heap = update m.net.heap a (some c') }))
    view-unregistered a c' gone k = elim (Option-cases (find m.net.entries k)) [
      | inl absent ↦ rw (absent) refl
      | inr (b, there) ↦
          let (s, at, own, alive) = v.existing k b there in
          elim (Bool-cases (a == b)) [
            | inl shared ↦ absurd (ground arith)
            | inr apart ↦ rw (there, apart) refl
          ]
    ]
