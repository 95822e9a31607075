-- ===== src/Net/Machine/Safety.antt =====
-- What holds of the network in every reachable state.
use refault.Prelude.{
  ℕ, ◌≡◌, refl, sym, subst, Bool, true, false, Bool-cases, inl, inr, [], ◌∷◌, ◌++◌, Option, none,
  some, update, ok, arith, ◌==◌, ==_refl,
}
use refault.Net.Channel.{LocalChannel, ChannelLaws}
use refault.Net.Table.{Addr, Key, listed, has_of_listed, listed_of_find}
use refault.Net.Draining.{Drained, Emptied, drain_node_lem}
use refault.Net.{
  Inboxes, Message, arrives, fails, Packet, Socket, key_of, Received, pending, failed, got,
  new_packet, enqueue, enqueue_packet, enqueue_error, deliver, receive, start_net_node,
}
use refault.Net.Machine.{
  Machine, remove_at, without_delivery, Step, opens, drops, sends, reports, delivers, loses,
  receives, restarts, ticks, Reach, start, next,
}
use refault.Net.Machine.Invariant.{
  Fits, AllFit, AllFit-push, AllDeliver-push, AllDeliver-remove, AllDeliver-at, Owned, Inv,
}
use refault.Net.Machine.Preserving.{
  initial-Inv, open-parts, open-Inv, drop-parts, drop-Inv, flight-Inv, heap-Inv,
}
use refault.Net.Machine.Moving.{inbox_of, Owned-set, Delivered, deliver_lem, Answers, receive_lem}

module _ {C P : Type 0} (ch : LocalChannel C (Message P)) where
  -- An enqueue that returns adds the delivery, and nothing else.
  pub enqueue-in_flight :
      (init_runs : Bool) (at : ℕ) (key : Key) (msg : Message P) (net : Inboxes C P)
      {net' : Inboxes C P}
      → enqueue ch init_runs at key msg net ≡ ok net'
      → net'
        ≡ record net { in_flight = net.in_flight ++ record { at = at; key = key; msg = msg } ∷ [] }
  unfolding enqueue
  enqueue-in_flight init_runs at key msg net e = ground arith

module _ {C P : Type 0} (ch : LocalChannel C (Message P)) (laws : ChannelLaws ch)
    (trait : Packet P) where
  abbrev Good : Machine C P → Type 0
  Good m = Inv ch laws trait m

  module _ (m : Machine C P) (v : Good m) where
    set-Inv :
        (a : ℕ) (s : Socket) (c : C) (net : Inboxes C P)
        → m.sockets a ≡ some s
        → AllFit trait (key_of s) (laws.contents c)
        → net ≡ record m.net { heap = update m.net.heap a (some c) }
        → Good (record m { net = net })
    set-Inv a s c net at fit same =
        subst (λ (n : Inboxes C P). Good (record m { net = n })) (sym same)
          (heap-Inv ch laws trait m v (update m.net.heap a (some c))
            (Owned-set ch laws trait m v a s c at fit))

    pub deliver-Inv :
        (key : Key) (msg : Message P) (net : Inboxes C P)
        → Fits trait key msg
        → deliver ch key msg m.net ≡ ok net
        → Good (record m { net = net })
    deliver-Inv key msg net fits e =
        elim (subst (Delivered ch laws trait m key msg) e (deliver_lem ch laws trait m v key msg)) [
          | inl (same, full) ↦ subst (λ (n : Inboxes C P). Good (record m { net = n })) (sym same) v
          | inr (a, c, c', found, here, contents, same) ↦
              let (s, at, own, alive) = v.existing key a found in
              let (c0, here0, fit) = inbox_of ch laws trait m v a s at in
              let is : c0 ≡ c = cc in
              let fits' = subst (λ (k : Key). Fits trait k msg) (sym own) fits in
              let all =
                AllFit-push trait (key_of s) (laws.contents c) msg
                  (subst (λ (x : C). AllFit trait (key_of s) (laws.contents x)) is fit) fits' in
              set-Inv a s c' net at (subst (AllFit trait (key_of s)) (sym contents) all) same
        ]

    -- An inbox without its first message.
    shorter :
        (s : Socket) (c c' : C) (msg : Message P)
        → m.sockets s.inbox ≡ some s
        → m.net.heap s.inbox ≡ some c
        → laws.contents c ≡ msg ∷ laws.contents c'
        → AllFit trait (key_of s) (laws.contents c')
    shorter s c c' msg at here first =
        let (c0, here0, fit) = inbox_of ch laws trait m v s.inbox s at in
        let is : laws.contents c0 ≡ msg ∷ laws.contents c' = cc in
        let (head, tail) = subst (AllFit trait (key_of s)) is fit in tail

    received-Inv :
        (last : Bool) (s : Socket) (r : Received P) (net : Inboxes C P)
        → m.sockets s.inbox ≡ some s
        → Answers ch laws trait m last s (ok (r, net))
        → Good (record m { net = net })
    received-Inv last s pending net at (c, here, none_there, same) =
        subst (λ (n : Inboxes C P). Good (record m { net = n })) (sym same) v
    received-Inv last s (failed error) net at (c, c', here, first, same) =
        set-Inv s.inbox s c' net at (shorter s c c' (fails error) at here first) same
    received-Inv last s (got packet src) net at
          (c, c', wrapped, here, first, same, dst, ty, src', moved) =
        set-Inv s.inbox s c' net at (shorter s c c' (arrives wrapped) at here first) same

    receive-Inv :
        (last : Bool) (s : Socket) (r : Received P) (net : Inboxes C P)
        → m.sockets s.inbox ≡ some s
        → receive ch trait last s m.net ≡ ok (r, net)
        → Good (record m { net = net })
    receive-Inv last s r net at e =
        received-Inv last s r net at
          (subst (Answers ch laws trait m last s) e (receive_lem ch laws trait m v last s at))

    -- The loop over the entries never misses an inbox.
    pub node_drained : (node : ℕ) → Emptied ch laws node m.net.entries m.net.heap
    node_drained node = drain_node_lem ch laws node m.net.entries m.net.heap (λ a h.
        let (k, there, on) = has_of_listed node m.net.entries a h in
        let (s, at, own, alive) = v.existing k a (v.unique k a there) in
        let (c, here, fit) = inbox_of ch laws trait m v a s at in ground arith)

    pub listed_of_live :
        (node a : ℕ) (s : Socket)
        → m.sockets a ≡ some s
        → m.live a ≡ true
        → listed node m.net.entries a ≡ (s.local_addr.node == node)
    listed_of_live node a s at alive = elim (Bool-cases (listed node m.net.entries a)) [
      | inl there ↦
          let (k, somewhere, on) = has_of_listed node m.net.entries a there in
          let (s', at', own, alive') = v.existing k a (v.unique k a somewhere) in
          ground (arith, ==_refl node)
      | inr absent ↦
          let there = listed_of_find m.net.entries (key_of s) a (v.registered a s at alive) in
          ground arith
    ]

    Drained-Owned :
        (a : ℕ) (on : Bool) (s : Option Socket) (before after : Option C)
        → Drained ch laws on before after
        → Owned ch laws trait a s before
        → Owned ch laws trait a s after
    Drained-Owned a false s before after d o = subst (Owned ch laws trait a s) (sym d) o
    Drained-Owned a true s none after d o = absurd d
    Drained-Owned a true s (some b) none d o = absurd d
    Drained-Owned a true none (some b) (some c) d o = o
    Drained-Owned a true (some s) (some b) (some c) d (own, fit) =
        (own, subst (AllFit trait (key_of s)) (sym d) tt)

    restart-Inv :
        (node : ℕ) (net : Inboxes C P)
        → start_net_node ch node m.net ≡ ok net
        → Good (record m { net = net })
    unfolding start_net_node
    restart-Inv node net e =
        let (heap', drained, states) = node_drained node in
        let same : net ≡ record m.net { heap = heap' } = ground arith in
        subst (λ (n : Inboxes C P). Good (record m { net = n })) (sym same)
          (heap-Inv ch laws trait m v heap' (λ a.
            Drained-Owned a (listed node m.net.entries a) (m.sockets a) (m.net.heap a) (heap' a)
              (states a) (v.owned a)))

    enqueue-Inv :
        (init_runs : Bool) (at : ℕ) (key : Key) (msg : Message P) (net : Inboxes C P)
        → Fits trait key msg
        → enqueue ch init_runs at key msg m.net ≡ ok net
        → Good (record m { net = net })
    enqueue-Inv init_runs at key msg net fits e =
        subst (λ (n : Inboxes C P). Good (record m { net = n }))
          (sym (enqueue-in_flight ch init_runs at key msg m.net e))
          (flight-Inv ch laws trait m v
            (m.net.in_flight ++ record { at = at; key = key; msg = msg } ∷ [])
            (AllDeliver-push trait m.net.in_flight (record { at = at; key = key; msg = msg })
              v.flight fits))

    send-Inv :
        (init_runs : Bool) (at : ℕ) (src dst : Addr) (packet : P) (net : Inboxes C P)
        → enqueue_packet ch init_runs at (new_packet trait src dst packet) m.net ≡ ok net
        → Good (record m { net = net })
    unfolding enqueue_packet new_packet
    send-Inv init_runs at src dst packet net e =
        enqueue-Inv init_runs at (record { addr = dst; ty = trait.packet_type_id packet })
          (arrives (new_packet trait src dst packet)) net (refl, refl) e

    report-Inv :
        (init_runs : Bool) (at : ℕ) (dst : Addr) (ty error : ℕ) (net : Inboxes C P)
        → enqueue_error ch init_runs at dst ty error m.net ≡ ok net
        → Good (record m { net = net })
    unfolding enqueue_error
    report-Inv init_runs at dst ty error net e =
        enqueue-Inv init_runs at (record { addr = dst; ty = ty }) (fails error) net tt e

    pub without-Inv : (i : ℕ) → Good (record m { net = without_delivery ch trait m.net i })
    without-Inv i =
        flight-Inv ch laws trait m v (remove_at m.net.in_flight i)
          (AllDeliver-remove trait m.net.in_flight i v.flight)

  pub Step-Inv : (m t : Machine C P) → Good m → Step ch trait m t → Good t
  Step-Inv m t v (opens current port ty s net e same) =
      let (free, is, after) = open-parts ch laws trait m v current port ty s net e in
      subst Good (rw (same, is, after) refl) (open-Inv ch laws trait m v current port ty free)
  Step-Inv m t v (drops s net at alive e same) =
      let after = drop-parts ch laws trait m v s at alive net e in
      subst Good (rw (same, after) refl) (drop-Inv ch laws trait m v s at alive)
  Step-Inv m t v (sends init_runs at src dst packet net e same) =
      subst Good (sym same) (send-Inv m v init_runs at src dst packet net e)
  Step-Inv m t v (reports init_runs at dst ty error net e same) =
      subst Good (sym same) (report-Inv m v init_runs at dst ty error net e)
  Step-Inv m t v (delivers i d net e due e' same) = subst Good (sym same) (
      deliver-Inv (record m { net = without_delivery ch trait m.net i }) (without-Inv m v i) d.key
        d.msg net (AllDeliver-at trait m.net.in_flight i v.flight e) e')
  Step-Inv m t v (loses i same) = subst Good (sym same) (without-Inv m v i)
  Step-Inv m t v (receives last s r net at e same) =
      subst Good (sym same) (receive-Inv m v last s r net at e)
  Step-Inv m t v (restarts node net e same) = subst Good (sym same) (restart-Inv m v node net e)
  Step-Inv m t v (ticks now later same) = subst Good (sym same) (record {
    owned = v.owned;
    registered = v.registered;
    existing = v.existing;
    unique = v.unique;
    fresh = v.fresh;
    flight = v.flight;
  })

  pub Reach-Inv : {m : Machine C P} → Reach ch trait m → Good m
  Reach-Inv start = initial-Inv ch laws trait
  Reach-Inv (next {m} {t} r s) = Step-Inv m t (Reach-Inv r) s
