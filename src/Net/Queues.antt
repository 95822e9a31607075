-- ===== src/Net/Queues.antt =====
-- What src/net.rs promises: for each address and type with a socket, a queue of up to 8 messages.
use refault.Prelude.{
  ℕ, ◌≡◌, ◌<◌, ◌⊎◌, List, [], ◌∷◌, ◌++◌, length, Option, none, some, ◌==◌, if◌then◌else◌,
}
use refault.Net.Channel.{capacity}
use refault.Net.Table.{Key, key_eq}
use refault.Net.{Message, arrives, fails, PacketRc, Received, pending, failed, got}

abbrev pub Queues : Type 0 → Type 0
Queues P = Key → Option (List (Message P))

abbrev pub emptied : {P : Type 0} → Option (List (Message P)) → Option (List (Message P))
emptied none = none
emptied (some ms) = some []

module _ {P : Type 0} (q q' : Queues P) where
  abbrev pub Same : Type 0
  Same = (k : Key) → q' k ≡ q k

  abbrev pub Sets : Key → Option (List (Message P)) → Type 0
  Sets key queue = (k : Key) → q' k ≡ (if key_eq key k then queue else q k)

  -- A socket is opened where there is none.
  abbrev pub Opens : Key → Type 0
  Opens key = (q key ≡ none) × Sets key (some [])

  -- A socket is dropped, with the messages that it has not received.
  abbrev pub Closes : Key → Type 0
  Closes key = (ms : List (Message P)) × (q key ≡ some ms) × Sets key none

  -- A message goes to the end of its queue. It is lost without a socket, and if the queue is full.
  abbrev pub Offers : Key → Message P → Type 0
  Offers key msg =
      ((q key ≡ none) × Same)
      ⊎ ((ms : List (Message P)) × (q key ≡ some ms) × (length ms ≡ capacity) × Same)
      ⊎ ((ms : List (Message P)) × (q key ≡ some ms)
          × (length ms < capacity)
          × Sets key (some (ms ++ msg ∷ [])))

  abbrev pub Takes : Key → Message P → Type 0
  Takes key msg = (ms : List (Message P)) × (q key ≡ some (msg ∷ ms)) × Sets key (some ms)

  -- A socket receives the first message of its queue, or waits as long as that is empty.
  abbrev pub Receives : Key → Received P → Type 0
  Receives key pending = (q key ≡ some []) × Same
  Receives key (failed error) = Takes key (fails error)
  Receives key (got packet src) =
      (wrapped : PacketRc P) × (wrapped.header.src ≡ src)
      × (wrapped.header.dst ≡ key.addr)
      × Takes key (arrives wrapped)

  -- All queues of a node are emptied.
  abbrev pub Clears : ℕ → Type 0
  Clears node = (k : Key) → q' k ≡ (if k.addr.node == node then emptied (q k) else q k)
