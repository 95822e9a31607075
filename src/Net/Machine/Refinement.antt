-- ===== src/Net/Machine/Refinement.antt =====
-- Every step of the network is what the queues of src/net.rs promise for it.
use refault.Prelude.{
  ℕ, ◌≡◌, refl, sym, ap, subst, Bool, true, false, Bool-cases, inl, inr, List, [], ◌∷◌, length,
  length-append, Option, none, some, Option-cases, update, ok, arith, ◌==◌, ==_refl, if◌then◌else◌,
}
use refault.Net.Channel.{LocalChannel, ChannelLaws}
use refault.Net.Table.{Key, key_eq, key_at, find, remove, find-remove, listed}
use refault.Net.Draining.{Drained}
use refault.Net.Queues.{emptied, Same, Sets, Opens, Closes, Offers, Takes, Receives, Clears}
use refault.Net.{
  Inboxes, Message, arrives, fails, Packet, Socket, key_of, Received, pending, failed, got, enqueue,
  enqueue_packet, enqueue_error, deliver, receive, start_net_node,
}
use refault.Net.Machine.{
  Machine, without_delivery, Step, opens, drops, sends, reports, delivers, loses, receives,
  restarts, ticks, Reach,
}
use refault.Net.Machine.Invariant.{Inv}
use refault.Net.Machine.Preserving.{open-parts, drop-parts, with_socket}
use refault.Net.Machine.Moving.{inbox_of, Delivered, deliver_lem, Answers, receive_lem}
use refault.Net.Machine.View.{contents?, view, view-set, view-unregistered}
use refault.Net.Machine.Safety.{
  enqueue-in_flight, Reach-Inv, without-Inv, node_drained, listed_of_live,
}

module _ {C P : Type 0} (ch : LocalChannel C (Message P)) (laws : ChannelLaws ch)
    (trait : Packet P) where
  -- What a step does to the queues. The future of a socket that was dropped reads another inbox.
  abbrev pub Does : (m t : Machine C P) → Step ch trait m t → Type 0
  Does m t (opens current port ty s net e same) =
      Opens (view ch laws trait m.net) (view ch laws trait t.net) (key_at current port ty)
  Does m t (drops s net at alive e same) =
      Closes (view ch laws trait m.net) (view ch laws trait t.net) (key_of s)
  Does m t (sends init_runs at src dst packet net e same) =
      Same (view ch laws trait m.net) (view ch laws trait t.net)
  Does m t (reports init_runs at dst ty error net e same) =
      Same (view ch laws trait m.net) (view ch laws trait t.net)
  Does m t (delivers i d net e due e' same) =
      Offers (view ch laws trait m.net) (view ch laws trait t.net) d.key d.msg
  Does m t (loses i same) = Same (view ch laws trait m.net) (view ch laws trait t.net)
  Does m t (receives last s r net at e same) =
      if m.live s.inbox
      then Receives (view ch laws trait m.net) (view ch laws trait t.net) (key_of s) r
      else Same (view ch laws trait m.net) (view ch laws trait t.net)
  Does m t (restarts node net e same) =
      Clears (view ch laws trait m.net) (view ch laws trait t.net) node
  Does m t (ticks now later same) = Same (view ch laws trait m.net) (view ch laws trait t.net)

  module _ (m : Machine C P) (v : Inv ch laws trait m) where
    Opens-refines :
        (current port ty : ℕ)
        → find m.net.entries (key_at current port ty) ≡ none
        → Opens
            (view ch laws trait m.net)
            (view ch laws trait (with_socket ch laws trait m v current port ty).net)
            (key_at current port ty)
    Opens-refines current port ty free = (
      rw (free) refl,
      λ k. elim (Bool-cases (key_eq (key_at current port ty) k)) [
        | inl this ↦ rw (this, ==_refl m.net.allocated, laws.contents-new) refl
        | inr other ↦ elim (Option-cases (find m.net.entries k)) [
          | inl absent ↦ rw (other, absent) refl
          | inr (b, there) ↦
              let (s, at, own, alive) = v.existing k b there in
              elim (Bool-cases (m.net.allocated == b)) [
                | inl shared ↦ absurd (ground (arith, v.fresh b))
                | inr apart ↦ rw (other, there, apart) refl
              ]
        ]
      ],
    )

    Closes-refines :
        (s : Socket)
        → m.sockets s.inbox ≡ some s
        → m.live s.inbox ≡ true
        → Closes
            (view ch laws trait m.net)
            (view ch laws trait (record m.net { entries = remove m.net.entries (key_of s) }))
            (key_of s)
    Closes-refines s at alive =
        let found = v.registered s.inbox s at alive in
        let (c, here, fit) = inbox_of ch laws trait m v s.inbox s at in
        (
          laws.contents c,
          rw (found, here) refl,
          λ k. ground (arith, find-remove m.net.entries (key_of s) k),
        )

    Offers-refines :
        (key : Key) (msg : Message P) (net : Inboxes C P)
        → deliver ch key msg m.net ≡ ok net
        → Offers (view ch laws trait m.net) (view ch laws trait net) key msg
    Offers-refines key msg net e =
        elim (subst (Delivered ch laws trait m key msg) e (deliver_lem ch laws trait m v key msg)) [
          | inl (same, full) ↦ elim (Option-cases (find m.net.entries key)) [
            | inl nobody ↦ inl (rw (nobody) refl, λ k. rw (same) refl)
            | inr (a, found) ↦
                let (s, at, own, alive) = v.existing key a found in
                let (c, here, fit) = inbox_of ch laws trait m v a s at in
                inr (
                  inl (
                    laws.contents c,
                    rw (found, here) refl,
                    full a c found here,
                    λ k. rw (same) refl,
                  ))
          ]
          | inr (a, c, c', found, here, contents, same) ↦
              let room = length-append (laws.contents c) (msg ∷ []) in
              let size = ap length contents in
              inr (
                inr (
                  laws.contents c,
                  rw (found, here) refl,
                  omega (arith, laws.contents-bounded c'),
                  λ k. rw (same) (
                      subst
                        (λ (ms : List (Message P)).
                          Sets (view ch laws trait m.net)
                            (view ch laws trait
                              (record m.net { heap = update m.net.heap a (some c') }))
                            key (some ms))
                        contents (view-set ch laws trait m v key a c' found) k),
                ))
        ]

    takes :
        (s : Socket) (c c' : C) (msg : Message P) (net : Inboxes C P)
        → m.sockets s.inbox ≡ some s
        → m.live s.inbox ≡ true
        → m.net.heap s.inbox ≡ some c
        → laws.contents c ≡ msg ∷ laws.contents c'
        → net ≡ record m.net { heap = update m.net.heap s.inbox (some c') }
        → Takes (view ch laws trait m.net) (view ch laws trait net) (key_of s) msg
    takes s c c' msg net at alive here first same =
        let found = v.registered s.inbox s at alive in
        (
          laws.contents c',
          rw (found, here, first) refl,
          λ k. rw (same) (view-set ch laws trait m v (key_of s) s.inbox c' found k),
        )

    Receives-live :
        (last : Bool) (s : Socket) (r : Received P) (net : Inboxes C P)
        → m.sockets s.inbox ≡ some s
        → m.live s.inbox ≡ true
        → Answers ch laws trait m last s (ok (r, net))
        → Receives (view ch laws trait m.net) (view ch laws trait net) (key_of s) r
    Receives-live last s pending net at alive (c, here, nothing, same) =
        let found = v.registered s.inbox s at alive in
        (rw (found, here, nothing) refl, λ k. rw (same) refl)
    Receives-live last s (failed error) net at alive (c, c', here, first, same) =
        takes s c c' (fails error) net at alive here first same
    Receives-live last s (got packet src) net at alive
          (c, c', wrapped, here, first, same, dst, ty, from, moved) =
        (wrapped, from, dst, takes s c c' (arrives wrapped) net at alive here first same)

    Receives-dropped :
        (last : Bool) (s : Socket) (r : Received P) (net : Inboxes C P)
        → m.live s.inbox ≡ false
        → Answers ch laws trait m last s (ok (r, net))
        → Same (view ch laws trait m.net) (view ch laws trait net)
    Receives-dropped last s pending net gone (c, here, nothing, same) k = rw (same) refl
    Receives-dropped last s (failed error) net gone (c, c', here, first, same) k =
        rw (same) (view-unregistered ch laws trait m v s.inbox c' gone k)
    Receives-dropped last s (got packet src) net gone
          (c, c', wrapped, here, first, same, dst, ty, from, moved) k =
        rw (same) (view-unregistered ch laws trait m v s.inbox c' gone k)

    Receives-refines :
        (last : Bool) (s : Socket) (r : Received P) (net : Inboxes C P)
        → m.sockets s.inbox ≡ some s
        → receive ch trait last s m.net ≡ ok (r, net)
        → if m.live s.inbox
          then Receives (view ch laws trait m.net) (view ch laws trait net) (key_of s) r
          else Same (view ch laws trait m.net) (view ch laws trait net)
    Receives-refines last s r net at e =
        let answer =
          subst (Answers ch laws trait m last s) e (receive_lem ch laws trait m v last s at) in
        elim (Bool-cases (m.live s.inbox)) [
          | inl alive ↦ rw (alive) (Receives-live last s r net at alive answer)
          | inr gone ↦ rw (gone) (Receives-dropped last s r net gone answer)
        ]

    Drained-view :
        (on : Bool) (before after : Option C)
        → Drained ch laws on before after
        → contents? ch laws trait after ≡ (
            if on then emptied (contents? ch laws trait before) else contents? ch laws trait before)
    Drained-view false before after d = ap (contents? ch laws trait) d
    Drained-view true none after d = absurd d
    Drained-view true (some b) none d = absurd d
    Drained-view true (some b) (some c) d = ap some d

    Clears-refines :
        (node : ℕ) (net : Inboxes C P)
        → start_net_node ch node m.net ≡ ok net
        → Clears (view ch laws trait m.net) (view ch laws trait net) node
    unfolding start_net_node
    Clears-refines node net e k =
        let (heap', drained, states) = node_drained ch laws trait m v node in
        let same : net ≡ record m.net { heap = heap' } = ground arith in
        elim (Option-cases (find m.net.entries k)) [
          | inl absent ↦ elim (Bool-cases (k.addr.node == node)) [
            | inl on ↦ rw (same, absent, on) refl
            | inr off ↦ rw (same, absent, off) refl
          ]
          | inr (a, found) ↦
              let (s, at, own, alive) = v.existing k a found in
              let on = listed_of_live ch laws trait m v node a s at alive in
              rw (same, found, sym own, sym on)
                (Drained-view (listed node m.net.entries a) (m.net.heap a) (heap' a) (states a))
        ]

  -- Every step from a reachable state is the step of the queues that its operation promises: `Socket::open`
  -- adds an empty queue where there was none, the destructor removes the socket's queue, sending changes
  -- nothing, a delivery appends its message if there is a queue of fewer than 8 messages for it,
  -- `receive` takes the first message of its socket's queue, and a start of a node empties the node's queues.
  pub Step-Does :
      {m t : Machine C P} → Reach ch trait m → (step : Step ch trait m t) → Does m t step
  unfolding enqueue_packet enqueue_error enqueue
  Step-Does {m} {t} r (opens current port ty s net e same) =
      let v = Reach-Inv ch laws trait r in
      let (free, is, after) = open-parts ch laws trait m v current port ty s net e in
      rw (same, after) (Opens-refines m v current port ty free)
  Step-Does {m} {t} r (drops s net at alive e same) =
      let v = Reach-Inv ch laws trait r in
      let after = drop-parts ch laws trait m v s at alive net e in
      rw (same, after) (Closes-refines m v s at alive)
  Step-Does {m} {t} r (sends init_runs at src dst packet net e same) =
      λ k. rw (same, enqueue-in_flight ch init_runs at _ _ m.net e) refl
  Step-Does {m} {t} r (reports init_runs at dst ty error net e same) =
      λ k. rw (same, enqueue-in_flight ch init_runs at _ _ m.net e) refl
  Step-Does {m} {t} r (delivers i d net e due e' same) =
      let v = without-Inv ch laws trait m (Reach-Inv ch laws trait r) i in
      rw (same)
        (Offers-refines (record m { net = without_delivery ch trait m.net i }) v d.key d.msg net e')
  Step-Does {m} {t} r (loses i same) = λ k. rw (same) refl
  Step-Does {m} {t} r (receives last s a net at e same) =
      rw (same) (Receives-refines m (Reach-Inv ch laws trait r) last s a net at e)
  Step-Does {m} {t} r (restarts node net e same) =
      rw (same) (Clears-refines m (Reach-Inv ch laws trait r) node net e)
  Step-Does {m} {t} r (ticks now later same) = λ k. rw (same) refl
