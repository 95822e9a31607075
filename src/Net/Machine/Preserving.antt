-- ===== src/Net/Machine/Preserving.antt =====
-- Every step keeps the invariant of the network.
use refault.Prelude.{
  ℕ, suc, ◌≡◌, refl, true, false, Bool-cases, inl, inr, List, ◌∷◌, none, some, Option-cases, Map,
  update, ok, arith, ◌==◌, if◌then◌else◌,
}
use refault.Net.Channel.{LocalChannel, ChannelLaws}
use refault.Net.Table.{
  Key, key_eq, key_eq→eq, key_eq_refl, key_at, find, remove, find-remove, has-remove,
}
use refault.Net.{
  Inboxes, Message, Delivery, Packet, Socket, key_of, new_net, open_socket, drop_socket,
}
use refault.Net.Machine.{Machine, initial}
use refault.Net.Machine.Invariant.{AllDeliver, Owned, Inv}

module _ {C P : Type 0} (ch : LocalChannel C (Message P)) (laws : ChannelLaws ch)
    (trait : Packet P) where
  pub initial-Inv : Inv ch laws trait (initial ch trait)
  unfolding new_net
  initial-Inv = record {
    owned = λ a. tt;
    registered = λ a s e l. absurd (ground arith);
    existing = λ k a e. absurd (ground arith);
    unique = λ k a h. absurd (ground arith);
    fresh = λ a h. refl;
    flight = tt;
  }

  module _ (m : Machine C P) (v : Inv ch laws trait m) where
    module _ (current port ty : ℕ) where
      abbrev key : Key
      key = key_at current port ty

      abbrev opened : Socket
      opened = record { inbox = m.net.allocated; local_addr = key.addr; ty = ty }

      abbrev pub with_socket : Machine C P
      with_socket = record m {
        net = record m.net {
          entries = (key, m.net.allocated) ∷ m.net.entries;
          heap = update m.net.heap m.net.allocated (some ch.new);
          allocated = suc m.net.allocated;
        };
        sockets = update m.sockets m.net.allocated (some opened);
        live = λ a. if m.net.allocated == a then true else m.live a;
      }

      pub open-parts :
          (s : Socket) (net : Inboxes C P)
          → open_socket ch current port ty m.net ≡ (some s, net)
          → (find m.net.entries key ≡ none) × (s ≡ opened) × (net ≡ with_socket.net)
      unfolding open_socket
      open-parts s net e = elim (Option-cases (find m.net.entries key)) [
        | inl free ↦
            let opening : open_socket ch current port ty m.net ≡ (some opened, with_socket.net) =
              rw (open_socket, free) refl in
            (free, cc, cc)
        | inr (a, taken) ↦
            let refusal : open_socket ch current port ty m.net ≡ (none, m.net) =
              rw (open_socket, taken) refl in
            absurd (cc)
      ]

      pub open-Inv : find m.net.entries key ≡ none → Inv ch laws trait with_socket
      open-Inv free = record {
        owned = λ a. ground (arith, v.owned a, laws.contents-new);
        registered =
            λ a s e l. ground (arith, v.registered a s, key_eq_refl key, key_eq→eq key (key_of s));
        existing = λ k a e. elim (Bool-cases (key_eq key k)) [
          | inl same ↦ (opened, ground arith, key_eq→eq key k same, ground arith)
          | inr other ↦
              let (s, at, same, alive) = v.existing k a (ground arith) in
              (s, ground (arith, v.fresh m.net.allocated), same, ground arith)
        ];
        unique = λ k a h. ground (arith, v.unique k a, key_eq→eq key k);
        fresh = λ a h. ground (arith, v.fresh a);
        flight = v.flight;
      }

    module _ (s : Socket) (at : m.sockets s.inbox ≡ some s) (alive : m.live s.inbox ≡ true) where
      abbrev without_socket : Machine C P
      without_socket = record m {
        net = record m.net { entries = remove m.net.entries (key_of s) };
        live = λ a. if s.inbox == a then false else m.live a;
      }

      pub drop-parts :
          (net : Inboxes C P) → drop_socket ch true s m.net ≡ ok net → net ≡ without_socket.net
      unfolding drop_socket
      drop-parts net e = ground arith

      pub drop-Inv : Inv ch laws trait without_socket
      drop-Inv = record {
        owned = v.owned;
        registered = λ a s' e l. ground (
          arith,
          v.registered a s',
          v.registered s.inbox s,
          find-remove m.net.entries (key_of s) (key_of s'),
          key_eq→eq (key_of s) (key_of s'),
        );
        existing = λ k a e.
            let kept = find-remove m.net.entries (key_of s) k in
            let (s', at', same, there) = v.existing k a (ground arith) in
            (s', at', same, ground (arith, key_eq_refl k));
        unique = λ k a h. ground (
          arith,
          v.unique k a,
          has-remove m.net.entries (key_of s) k a,
          find-remove m.net.entries (key_of s) k,
        );
        fresh = v.fresh;
        flight = v.flight;
      }

    pub flight-Inv :
        (ds : List (Delivery P))
        → AllDeliver trait ds
        → Inv ch laws trait (record m { net = record m.net { in_flight = ds } })
    flight-Inv ds all = record {
      owned = v.owned;
      registered = v.registered;
      existing = v.existing;
      unique = v.unique;
      fresh = v.fresh;
      flight = all;
    }

    -- New contents for inboxes that exist.
    pub heap-Inv :
        (heap : Map C)
        → ((a : ℕ) → Owned ch laws trait a (m.sockets a) (heap a))
        → Inv ch laws trait (record m { net = record m.net { heap = heap } })
    heap-Inv heap owned = record {
      owned = owned;
      registered = v.registered;
      existing = v.existing;
      unique = v.unique;
      fresh = v.fresh;
      flight = v.flight;
    }
