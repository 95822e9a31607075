-- ===== src/Net/Sending.antt =====
-- The two ways to send a packet.
use refault.Prelude.{
  ℕ, ◌≡◌, refl, Bool-cases, inl, inr, Result, panic, assert_failed, arith, ◌==◌, ==_refl,
  if◌then◌else◌, subst,
}
use refault.Net.Channel.{LocalChannel}
use refault.Net.Table.{Addr}
use refault.Net.{
  Message, Packet, PacketRc, Inboxes, Socket, new_packet, SendFunctionOutput, send_wrapped,
  net_send, socket_send,
}

module _ {C P W R : Type 0} (ch : LocalChannel C (Message P)) (trait : Packet P)
    (send_function : W
      → PacketRc P
      → Inboxes C P
      → Result (SendFunctionOutput R × W × Inboxes C P)) where
  -- On the node of a socket, with any send function, its `send` is `Net::send` from the socket's port, also
  -- in its panics. On any other node it panics.
  pub socket_send-net_send :
      (current : ℕ) (s : Socket) (dst : Addr) (packet : P) (state : W) (net : Inboxes C P)
      → socket_send ch send_function trait current s dst packet state net ≡ (
          if s.local_addr.node == current
          then net_send ch send_function trait current s.local_addr.port dst packet state net
          else panic assert_failed)
  unfolding socket_send net_send send_wrapped new_packet
  socket_send-net_send current s dst packet state net =
      elim (Bool-cases (s.local_addr.node == current)) [
        | inl own ↦
            let same : s.local_addr.node ≡ current = ground arith in
            rw (own) (
              subst
                (λ (n : ℕ).
                  send_function state (new_packet trait s.local_addr dst packet) net
                  ≡ net_send ch send_function trait n s.local_addr.port dst packet state net)
                same (rw (==_refl s.local_addr.node) refl))
        | inr other ↦ rw (other) refl
      ]
