-- ===== src/Tower/Examples.antt =====
-- One call to a service that adds ten.
use refault.Prelude.{
  ℕ, ◌+◌, ◌≡◌, ◌≤◌, refl, Bool, true, [], ◌∷◌, ◌++◌, none, some, update, ok, panic, unwrap_none,
}
use refault.Ids.{new_id, add_u64, non_zero}
use refault.Net.Table.{Addr}
use refault.Tower.Responders.{without}
use refault.Tower.{
  ServiceOutput, success, response, connection_reset, TowerRequest, TowerResponse, Client,
  make_request, after_send, send, complete, addr_eq, map_left, receive_response, receive_error,
  server_turn, finish_call,
}
use refault.Tower.Machine.{
  System, working, answering, initial, after_call, Step, Reach, here, next, sends, serves, finishes,
  receives,
}
use refault.Tower.Machine.Invariant.{Given, Answered}
use refault.Tower.Machine.Calls.{
  Reach-Answered, receive_response-completes, errors, receive_error-then_panics,
}
use refault.Tower.Machine.Once.{replies, Reach-replies}

abbrev server : Addr
server = record { node = 1; port = 80 }

abbrev caller : Addr
caller = record { node = 2; port = 7 }

abbrev add_ten : ℕ → ℕ → ℕ × ℕ
add_ten served req = (req + 10, served + 1)

abbrev ReturnsIt : ℕ → ServiceOutput ℕ ℕ → Type 0
ReturnsIt fut result = result ≡ success fut

abbrev Calls : Type 0
Calls = System ℕ ℕ ℕ ℕ ℕ

abbrev idle : Calls
idle = initial true add_ten ReturnsIt server caller 0

abbrev request5 : TowerRequest ℕ
request5 = record { req = 5; id = 1 }

abbrev called : Calls
called = after_call true add_ten ReturnsIt idle 5 request5 1

abbrev at_work : Calls
at_work = record called { service = 1; stage = update called.stage 1 (some (working 1 caller 15)) }

abbrev packet15 : TowerResponse ℕ ℕ
packet15 = record { result = success 15; id = 1 }

answered : Calls
unfolding finish_call
answered = record at_work {
  stage = update at_work.stage 1 (some (answering caller (finish_call 1 (success 15))));
}

calling : Step true add_ten ReturnsIt idle called
unfolding make_request new_id add_u64 non_zero
calling = sends 5 request5 1 refl refl

serving : Step true add_ten ReturnsIt called at_work
unfolding server_turn after_send
serving = serves 1 1 request5 caller 15 1 refl refl refl

finishing : Step true add_ten ReturnsIt at_work answered
unfolding answered finish_call
finishing = finishes 1 1 caller 15 (success 15) refl refl refl

reach_answered : Reach true add_ten ReturnsIt idle answered
reach_answered = next (next (next here calling) serving) finishing

client_after : Client ℕ ℕ
unfolding after_send
client_after = record called.client { responders = []; sent = (0, response 15) ∷ [] }

completed : Calls
unfolding client_after answered
completed = record answered { client = client_after; stage = update answered.stage 1 none }

receiving : Step true add_ten ReturnsIt answered completed
unfolding completed client_after answered finish_call receive_response complete addr_eq send
    map_left after_send
receiving = receives 1 packet15 client_after refl refl refl

reach_completed : Reach true add_ten ReturnsIt idle completed
reach_completed = next reach_answered receiving

Reach-Answered_example : Answered true add_ten ReturnsIt completed.asked completed.client.sent
Reach-Answered_example = Reach-Answered true add_ten ReturnsIt server caller 0 reach_completed

Reach-replies_example : replies 0 completed.client.sent ≤ 1
Reach-replies_example = Reach-replies true add_ten ReturnsIt server caller 0 0 reach_completed

receive_response-completes_example :
    (responder : ℕ) × (req : ℕ) × (answered.asked responder ≡ some req)
    × Given true add_ten ReturnsIt req (success 15)
    × (receive_response true packet15 answered.client.remote answered.client
        ≡ ok (record answered.client {
          responders = without answered.client.responders 1;
          sent = (responder, map_left packet15.result) ∷ answered.client.sent;
        }))
unfolding answered finish_call
receive_response-completes_example =
    receive_response-completes true add_ten ReturnsIt server caller 0 1 packet15 caller
      reach_answered refl refl

receive_error-then_panics_example :
    (receive_error connection_reset called.client ≡ record called.client {
      responders = [];
      sent = errors connection_reset called.client.responders ++ called.client.sent;
    })
    × ((debug : Bool) (packet : TowerResponse ℕ ℕ)
        → receive_response debug packet called.client.remote
            (receive_error connection_reset called.client)
          ≡ panic unwrap_none)
receive_error-then_panics_example = receive_error-then_panics connection_reset called.client
