-- ===== src/Net/Machine/Invariant.antt =====
-- The invariant of the network: which messages an inbox may hold, and which inboxes are registered.
use refault.Prelude.{
  ℕ, zero, suc, ◌≤◌, ◌≡◌, subst, true, List, [], ◌∷◌, ◌++◌, Option, none, some, arith, get_elem?,
}
use refault.Net.Channel.{LocalChannel, ChannelLaws}
use refault.Net.Table.{Key, find, has}
use refault.Net.{Message, arrives, fails, Delivery, Packet, Socket, key_of}
use refault.Net.Machine.{Machine, remove_at}

module _ {P : Type 0} (trait : Packet P) where
  -- A message for a key: a packet to that address and of that type, or an error.
  abbrev pub Fits : Key → Message P → Type 0
  Fits key (fails error) = Unit
  Fits key (arrives wrapped) =
      (wrapped.header.dst ≡ key.addr) × (trait.packet_type_id wrapped.packet ≡ key.ty)

  abbrev pub AllFit : Key → List (Message P) → Type 0
  AllFit key [] = Unit
  AllFit key (m ∷ ms) = Fits key m × AllFit key ms

  pub AllFit-push :
      (key : Key) (ms : List (Message P)) (m : Message P)
      → AllFit key ms
      → Fits key m
      → AllFit key (ms ++ m ∷ [])
  AllFit-push key [] m all fits = (fits, tt)
  AllFit-push key (x ∷ ms) m (first, all) fits = (first, AllFit-push key ms m all fits)

  abbrev pub AllDeliver : List (Delivery P) → Type 0
  AllDeliver [] = Unit
  AllDeliver (d ∷ ds) = Fits d.key d.msg × AllDeliver ds

  pub AllDeliver-push :
      (ds : List (Delivery P)) (d : Delivery P)
      → AllDeliver ds
      → Fits d.key d.msg
      → AllDeliver (ds ++ d ∷ [])
  AllDeliver-push [] d all fits = (fits, tt)
  AllDeliver-push (x ∷ ds) d (first, all) fits = (first, AllDeliver-push ds d all fits)

  pub AllDeliver-remove :
      (ds : List (Delivery P)) (i : ℕ) → AllDeliver ds → AllDeliver (remove_at ds i)
  AllDeliver-remove [] i all = tt
  AllDeliver-remove (d ∷ ds) zero (first, all) = all
  AllDeliver-remove (d ∷ ds) (suc i) (first, all) = (first, AllDeliver-remove ds i all)

  pub AllDeliver-at :
      (ds : List (Delivery P)) (i : ℕ) {d : Delivery P}
      → AllDeliver ds
      → get_elem? ds i ≡ some d
      → Fits d.key d.msg
  AllDeliver-at [] i all e = absurd (ground arith)
  AllDeliver-at (x ∷ ds) zero {d} (first, all) e =
      let same : x ≡ d = cc in subst (λ (y : Delivery P). Fits y.key y.msg) same first
  AllDeliver-at (x ∷ ds) (suc i) (first, all) e = AllDeliver-at ds i all e

module _ {C P : Type 0} (ch : LocalChannel C (Message P)) (laws : ChannelLaws ch)
    (trait : Packet P) where
  -- An inbox and the socket that was opened with it: all its messages are for the socket.
  abbrev pub Owned : ℕ → Option Socket → Option C → Type 0
  Owned a none none = Unit
  Owned a (some s) (some c) = (s.inbox ≡ a) × AllFit trait (key_of s) (laws.contents c)
  Owned a _ _ = ⊥

  pub record Inv (m : Machine C P) : Type 0 where
    pub owned : (a : ℕ) → Owned a (m.sockets a) (m.net.heap a)
    -- the registered inboxes are those of the sockets that exist, each under its socket's key
    pub registered :
        (a : ℕ) (s : Socket)
        → m.sockets a ≡ some s
        → m.live a ≡ true
        → find m.net.entries (key_of s) ≡ some a
    pub existing :
        (k : Key) (a : ℕ)
        → find m.net.entries k ≡ some a
        → (s : Socket) × (m.sockets a ≡ some s) × (key_of s ≡ k) × (m.live a ≡ true)
    -- no entry is hidden by another one
    pub unique : (k : Key) (a : ℕ) → has m.net.entries k a ≡ true → find m.net.entries k ≡ some a
    pub fresh : (a : ℕ) → m.net.allocated ≤ a → m.sockets a ≡ none
    pub flight : AllDeliver trait m.net.in_flight
