-- ===== src/Net/Channel.antt =====
-- `LocalChannel` of the crate futures-intrusive with a buffer of 8 messages, which src/net.rs uses as
-- the inbox of a socket. The source never closes one.
use refault.Prelude.{ℕ, ◌≤◌, ◌≡◌, List, [], ◌∷◌, ◌++◌, Option, none, some, length}

abbrev pub capacity : ℕ
capacity = 8

-- `try_send` and `try_receive` give none where the crate returns an error.
pub record LocalChannel (C M : Type 0) : Type 0 where
  pub new : C
  pub try_send : C → M → Option C
  pub try_receive : C → Option (M × C)

-- What its documentation says: a queue that holds up to its capacity, first in first out.
pub record ChannelLaws {C M : Type 0} (ch : LocalChannel C M) : Type 0 where
  pub contents : C → List M
  pub contents-new : contents ch.new ≡ []
  pub contents-bounded : (c : C) → length (contents c) ≤ capacity
  pub sent :
      (c : C) (m : M) (c' : C) → ch.try_send c m ≡ some c' → contents c' ≡ contents c ++ m ∷ []
  pub full : (c : C) (m : M) → ch.try_send c m ≡ none → length (contents c) ≡ capacity
  pub received :
      (c : C) (m : M) (c' : C) → ch.try_receive c ≡ some (m, c') → contents c ≡ m ∷ contents c'
  pub empty : (c : C) → ch.try_receive c ≡ none → contents c ≡ []
