-- ===== src/Net/Machine/Moving.antt =====
-- Messages on their way into an inbox and out of it.
use refault.Prelude.{
  ℕ, ◌≡◌, refl, subst, Bool, true, false, Bool-cases, inl, inr, ◌⊎◌, [], ◌∷◌, ◌++◌, length, some,
  Option-cases, update, Result, Result-cases, ok, panic, arith, ◌==◌, ==_refl, if◌then◌else◌,
}
use refault.Net.Channel.{LocalChannel, ChannelLaws, capacity}
use refault.Net.Table.{Key, find}
use refault.Net.{
  Inboxes, Message, arrives, fails, Packet, PacketRc, Socket, key_of, Received, pending, failed,
  got, deliver, put_in, receive, received_in, unwrap_packet,
}
use refault.Net.Machine.{Machine}
use refault.Net.Machine.Invariant.{AllFit, Owned, Inv}

module _ {C P : Type 0} (ch : LocalChannel C (Message P)) (laws : ChannelLaws ch) (trait : Packet P)
    (m : Machine C P) where
  -- What a delivery changes: with a socket at the key and room in its inbox, the message is the inbox's
  -- last one; in every other case nothing.
  abbrev pub Delivered : Key → Message P → Result (Inboxes C P) → Type 0
  Delivered key msg (panic why) = ⊥
  Delivered key msg (ok net) =
      ((net ≡ m.net)
        × ((a : ℕ) (c : C)
            → find m.net.entries key ≡ some a
            → m.net.heap a ≡ some c
            → length (laws.contents c) ≡ capacity))
      ⊎ ((a : ℕ) × (c : C) × (c' : C) × (find m.net.entries key ≡ some a)
          × (m.net.heap a ≡ some c)
          × (laws.contents c' ≡ laws.contents c ++ msg ∷ [])
          × (net ≡ record m.net { heap = update m.net.heap a (some c') }))

  -- What a poll of `receive` does: nothing while the inbox is empty, and otherwise it takes the first
  -- message, which is for the socket. It panics only if it has to clone and the clone panics.
  abbrev pub Answers : (last : Bool) → Socket → Result (Received P × Inboxes C P) → Type 0
  Answers last s (panic why) =
      (last ≡ false) × (wrapped : PacketRc P) × (trait.clone_packet wrapped.packet ≡ panic why)
  Answers last s (ok (pending, net)) =
      (c : C) × (m.net.heap s.inbox ≡ some c) × (laws.contents c ≡ []) × (net ≡ m.net)
  Answers last s (ok (failed error, net)) =
      (c : C) × (c' : C) × (m.net.heap s.inbox ≡ some c)
      × (laws.contents c ≡ fails error ∷ laws.contents c')
      × (net ≡ record m.net { heap = update m.net.heap s.inbox (some c') })
  Answers last s (ok (got packet src, net)) =
      (c : C) × (c' : C) × (wrapped : PacketRc P) × (m.net.heap s.inbox ≡ some c)
      × (laws.contents c ≡ arrives wrapped ∷ laws.contents c')
      × (net ≡ record m.net { heap = update m.net.heap s.inbox (some c') })
      × (wrapped.header.dst ≡ s.local_addr)
      × (trait.packet_type_id wrapped.packet ≡ s.ty)
      × (wrapped.header.src ≡ src)
      × ((if last then ok wrapped.packet else trait.clone_packet wrapped.packet) ≡ ok packet)

module _ {C P : Type 0} (ch : LocalChannel C (Message P)) (laws : ChannelLaws ch) (trait : Packet P)
    (m : Machine C P) (v : Inv ch laws trait m) where
  -- The inbox of a socket.
  pub inbox_of :
      (a : ℕ) (s : Socket)
      → m.sockets a ≡ some s
      → (c : C) × (m.net.heap a ≡ some c) × AllFit trait (key_of s) (laws.contents c)
  inbox_of a s at = elim (Option-cases (m.net.heap a)) [
    | inl absent ↦ ground (arith, v.owned a)
    | inr (c, here) ↦ (c, here, ground (arith, v.owned a))
  ]

  own : (a : ℕ) (s : Socket) → m.sockets a ≡ some s → s.inbox ≡ a
  own a s at = elim (Option-cases (m.net.heap a)) [
    | inl absent ↦ ground (arith, v.owned a)
    | inr (c, here) ↦ ground (arith, v.owned a)
  ]

  -- A cell that gets new contents.
  pub Owned-set :
      (a : ℕ) (s : Socket) (c : C)
      → m.sockets a ≡ some s
      → AllFit trait (key_of s) (laws.contents c)
      → (b : ℕ) → Owned ch laws trait b (m.sockets b) (update m.net.heap a (some c) b)
  Owned-set a s c at fit b = elim (Bool-cases (a == b)) [
    | inl same ↦
        let here : a ≡ b = ground arith in
        subst (λ (x : ℕ). Owned ch laws trait x (m.sockets x) (update m.net.heap a (some c) x)) here
          (rw (at, ==_refl a) (own a s at, fit))
    | inr other ↦ rw other (v.owned b)
  ]

  deliver_to :
      (key : Key) (msg : Message P) (a : ℕ) (c : C)
      → find m.net.entries key ≡ some a
      → m.net.heap a ≡ some c
      → Delivered ch laws trait m key msg (deliver ch key msg m.net)
  unfolding deliver put_in
  deliver_to key msg a c found here = elim (Option-cases (ch.try_send c msg)) [
    | inl refused ↦
        rw (deliver, put_in, found, here, refused)
          (inl (refl, λ b d at there. ground (arith, laws.full c msg)))
    | inr (c', accepted) ↦
        rw (deliver, put_in, found, here, accepted)
          (inr (a, c, c', found, here, laws.sent c msg c' accepted, refl))
  ]

  pub deliver_lem :
      (key : Key) (msg : Message P) → Delivered ch laws trait m key msg (deliver ch key msg m.net)
  unfolding deliver put_in
  deliver_lem key msg = elim (Option-cases (find m.net.entries key)) [
    | inl nobody ↦ rw (deliver, put_in, nobody) (inl (refl, λ a c at here. absurd (ground arith)))
    | inr (a, found) ↦
        let (s, at, same, alive) = v.existing key a found in
        let (c, here, fit) = inbox_of a s at in deliver_to key msg a c found here
  ]

  module _ (last : Bool) (s : Socket) (c : C) (here : m.net.heap s.inbox ≡ some c) where
    take_error :
        (error : ℕ) (c' : C)
        → ch.try_receive c ≡ some (fails error, c')
        → Answers ch laws trait m last s (receive ch trait last s m.net)
    unfolding receive received_in
    take_error error c' e =
        rw (receive, received_in, here, e) (c, c', here, laws.received c (fails error) c' e, refl)

    take_packet :
        (wrapped : PacketRc P) (c' : C)
        → ch.try_receive c ≡ some (arrives wrapped, c')
        → AllFit trait (key_of s) (laws.contents c)
        → Answers ch laws trait m last s (receive ch trait last s m.net)
    unfolding receive received_in unwrap_packet
    take_packet wrapped c' e fit =
        let first = laws.received c (arrives wrapped) c' e in
        let (fits, rest) = subst (AllFit trait (key_of s)) first fit in
        let (addressed, typed) = fits in
        let known : (trait.packet_type_id wrapped.packet == s.ty) ≡ true = ground arith in
        elim (Bool-cases last) [
          | inl moved ↦
              rw (receive, received_in, unwrap_packet, here, e, known, moved)
                (c, c', wrapped, here, first, refl, addressed, typed, refl, refl)
          | inr shared ↦ elim (Result-cases (trait.clone_packet wrapped.packet)) [
            | inl (packet, cloned) ↦
                rw (receive, received_in, unwrap_packet, here, e, known, shared, cloned)
                  (c, c', wrapped, here, first, refl, addressed, typed, refl, cloned)
            | inr (why, cloned) ↦
                rw (receive, received_in, unwrap_packet, here, e, known, shared, cloned)
                  (refl, wrapped, cloned)
          ]
        ]

  pub receive_lem :
      (last : Bool) (s : Socket)
      → m.sockets s.inbox ≡ some s
      → Answers ch laws trait m last s (receive ch trait last s m.net)
  unfolding receive received_in
  receive_lem last s at =
      let (c, here, fit) = inbox_of s.inbox s at in
      elim (Option-cases (ch.try_receive c)) [
        | inl nothing ↦
            rw (receive, received_in, here, nothing) (c, here, laws.empty c nothing, refl)
        | inr ((fails error, c'), e) ↦ take_error last s c here error c' e
        | inr ((arrives wrapped, c'), e) ↦ take_packet last s c here wrapped c' e fit
      ]
