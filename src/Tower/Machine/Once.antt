-- ===== src/Tower/Machine/Once.antt =====
-- No call of a client gets two replies.
use refault.Prelude.{
  ℕ, suc, ◌+◌, ◌≡◌, ◌≤◌, refl, Bool, List, [], ◌∷◌, Option, none, some, arith, ◌==◌, if◌then◌else◌,
}
use refault.Net.Table.{Addr}
use refault.Tower.Responders.{lookup, without}
use refault.Tower.{
  ServiceOutput, Reply, right, ErrorKind, Client, after_send, send, send_all, map_left,
  receive_error,
}
use refault.Tower.Machine.{
  System, initial, Step, Reach, sends, refuses, serves, finishes, receives, loses, breaks, counts,
  here, next,
}
use refault.Tower.Machine.Invariant.{Inv}
use refault.Tower.Machine.Answers.{receives-parts}
use refault.Tower.Machine.Keeping.{send_all-same}
use refault.Tower.Machine.Calls.{Reach-Inv}

-- How often a sender waits in the map.
abbrev waits : ℕ → List (ℕ × ℕ) → ℕ
waits r [] = 0
waits r ((id, responder) ∷ rest) = (if responder == r then 1 else 0) + waits r rest

-- How many replies a sender got.
abbrev pub replies : {B E : Type 0} → ℕ → List (ℕ × Reply B E) → ℕ
replies r [] = 0
replies r ((responder, reply) ∷ rest) = (if responder == r then 1 else 0) + replies r rest

waits-without :
    (r id : ℕ) (responders : List (ℕ × ℕ)) → waits r (without responders id) ≤ waits r responders
waits-without r id [] = omega arith
waits-without r id ((i, responder) ∷ rest) = ground (arith, waits-without r id rest)

waits-taken :
    (r id : ℕ) (responders : List (ℕ × ℕ))
    → lookup responders id ≡ some r
    → waits r (without responders id) + 1 ≤ waits r responders
waits-taken r id [] e = absurd (cc)
waits-taken r id ((i, responder) ∷ rest) e =
    ground (arith, waits-taken r id rest, waits-without r id rest)

module _ {B E : Type 0} where
  send_all-replies :
      (r : ℕ) (kind : ErrorKind) (responders : List (ℕ × ℕ)) (c : Client B E)
      → replies r (send_all kind responders c).sent ≡ waits r responders + replies r c.sent
  unfolding send_all send
  send_all-replies r kind [] c = omega arith
  send_all-replies r kind ((i, responder) ∷ rest) c =
      ground (arith, send_all-replies r kind rest (send responder (right kind) c))

  -- A sender is used at most once, and only after its call.
  record Once (calls : ℕ) (c : Client B E) : Type 0 where
    at_most : (r : ℕ) → replies r c.sent + waits r c.responders ≤ 1
    later : (r : ℕ) → calls ≤ r → replies r c.sent + waits r c.responders ≡ 0

  after_send-Once :
      (calls id : ℕ) (e : Option ErrorKind) (c : Client B E)
      → Once calls c
      → Once (suc calls) (after_send id calls e c)
  unfolding after_send send
  after_send-Once calls id none c o = record {
    at_most = λ r. ground (arith, o.at_most r, o.later r, waits-without r id c.responders);
    later = λ r h. ground (arith, o.later r, waits-without r id c.responders);
  }
  after_send-Once calls id (some kind) c o = record {
    at_most = λ r. ground (arith, o.at_most r, o.later r);
    later = λ r h. ground (arith, o.later r);
  }

  complete-Once :
      (calls id r : ℕ) (reply : Reply B E) (c : Client B E)
      → lookup c.responders id ≡ some r
      → Once calls c
      → Once calls (record c { responders = without c.responders id; sent = (r, reply) ∷ c.sent })
  complete-Once calls id r reply c found o =
      let taken = waits-taken r id c.responders found in
      record {
        at_most = λ q. ground (arith, o.at_most q, waits-without q id c.responders);
        later = λ q h. ground (arith, o.later q, waits-without q id c.responders);
      }

  receive_error-Once :
      (calls : ℕ) (kind : ErrorKind) (c : Client B E)
      → Once calls c
      → Once calls (receive_error kind c)
  unfolding receive_error
  receive_error-Once calls kind c o =
      let (same, rest, rest') = send_all-same kind c.responders (record c { responders = [] }) in
      record {
        at_most = λ q. ground (
          arith,
          o.at_most q,
          send_all-replies q kind c.responders (record c { responders = [] }),
        );
        later = λ q h.
            ground (
              arith,
              o.later q,
              send_all-replies q kind c.responders (record c { responders = [] }),
            );
      }

module _ {A B E S Fut : Type 0} (debug : Bool) (service_call : S → A → Fut × S)
    (outcome : Fut → ServiceOutput B E → Type 0) where
  Step-Once :
      (s t : System A B E S Fut)
      → Inv debug service_call outcome s
      → Once s.calls s.client
      → Step debug service_call outcome s t
      → Once t.calls t.client
  Step-Once s t v o (sends req request counter made same) =
      rw (same) (after_send-Once s.calls request.id none s.client o)
  Step-Once s t v o (refuses req request counter kind made same) =
      rw (same) (after_send-Once s.calls request.id (some kind) s.client o)
  Step-Once s t v o (serves id id' request client fut service at turn same) = rw (same) o
  Step-Once s t v o (finishes id id' client fut result at yields same) = rw (same) o
  Step-Once s t v o (receives id packet client at e same) =
      let (r, found, after) =
        receives-parts debug service_call outcome s v id packet s.client.local_addr at client e in
      rw (same, after) (complete-Once s.calls packet.id r (map_left packet.result) s.client found o)
  Step-Once s t v o (loses id same) = rw (same) o
  Step-Once s t v o (breaks kind same) = rw (same) (receive_error-Once s.calls kind s.client o)
  Step-Once s t v o (counts counter more less same) = rw (same) o

  module _ (remote local_addr : Addr) (service : S) where
    Reach-Once :
        {s : System A B E S Fut}
        → Reach debug service_call outcome
            (initial debug service_call outcome remote local_addr service)
            s
        → Once s.calls s.client
    Reach-Once here = record { at_most = λ r. omega arith; later = λ r h. refl }
    Reach-Once (next {s} {t} r st) =
        Step-Once s t (Reach-Inv debug service_call outcome remote local_addr service r)
          (Reach-Once r) st

    -- In any run of a client and a server, also with errors from the network, no call gets two replies.
    pub Reach-replies :
        {s : System A B E S Fut} (responder : ℕ)
        → Reach debug service_call outcome
            (initial debug service_call outcome remote local_addr service)
            s
        → replies responder s.client.sent ≤ 1
    Reach-replies {s} responder r = omega (arith, (Reach-Once r).at_most responder)
