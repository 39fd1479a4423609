-- ===== src/ClientLib/Examples/Sessions.antt =====
-- The theorems about the client library, each at a concrete client.
use mbus.Base.{List, arith, ◌≡◌, refl, true, none, some, [], ◌∷◌, inr, done, ok, fail}
use mbus.Buffer.{create, reset}
use mbus.ClientLib.{
  MbusClient, connecting, connected, disconnected, notify_registered, success, canceled,
  notify_connectionfd, fd_destroy, notify_result,
}
use mbus.ClientLib.Options.{mbus_client_create, normal_options}
use mbus.ClientLib.Defaults.{IsNormal, normal_options-IsNormal}
use mbus.ClientLib.Api.{call_connect, call_register, perform}
use mbus.ClientLib.Invariant.{Sound}
use mbus.ClientLib.Invariant.Reach.{created, called, Reachable-Sound}
use mbus.ClientLib.Refused.{perform-refused}
use mbus.Json.{
  get_int_value, get_string_value, get_object, walk, skip_slashes, split_slash, descend,
}
use mbus.ClientLib.Requests.{
  request_get_payload, request_get_sequence, request_get_type, request_get_identifier,
}
use mbus.ClientLib.Responses.{response_status}
use mbus.ClientLib.Receive.{handle_result}
use mbus.ClientLib.Answers.{handle_result-registered}
use mbus.ClientLib.Timers.{get_run_timeout, check_timers}
use mbus.ClientLib.Wakes.{InRange, WakesForAll, get_run_timeout-IsTimely}
use mbus.ClientLib.Stuck.{Round, run_rounds, IsStuck, reconnected, reconnected-IsStuck}
use mbus.ClientLib.Reset.{payload_string, client_reset}
use mbus.ClientLib.Ends.{Halts, IsEmptied}
use mbus.ClientLib.Ends.Reset.{client_reset-Halts}
use mbus.ClientLib.Ends.Timers.{IsAny, check_timers-Halts}
use mbus.ClientLib.Outcomes.{calling, registering}
use mbus.ClientLib.Outcomes.Blank.{none_left, and_rest, client_reset-blank}
use mbus.Server.Examples.World.{Value, cj, find_member, same_codes}
use mbus.ClientLib.Examples.Desk.{
  rt, no_options, usual_options, desk, creating_request, unanswered, adder, first_request,
  registering_request, status_request, answer_with, no_dial, quiet_poll,
}

normal_options-IsNormal_example : IsNormal usual_options
unfolding normal_options
normal_options-IsNormal_example = normal_options-IsNormal no_options usual_options refl

perform-refused_example :
    perform rt (call_register "add") (desk disconnected none [] [])
    ≡ (desk disconnected none [] [], fail)
perform-refused_example =
    perform-refused rt (call_register "add") (desk disconnected none [] []) refl tt

Reachable-Sound_example : Sound cj (perform rt call_connect (desk disconnected none [] [])).0
unfolding mbus_client_create create
Reachable-Sound_example =
    Reachable-Sound rt (perform rt call_connect (desk disconnected none [] [])).0 (
      called (desk disconnected none [] []) 5000 call_connect
        (created no_options (desk disconnected none [] []) refl))

handle_result-registered_example :
    handle_result rt
      (desk connected (some 3) [] (first_request ∷ registering_request ∷ []))
      (answer_with 0)
    ≡ done (record (desk connected (some 3) [] (first_request ∷ [])) {
      routines = adder ∷ [];
      notices = notify_registered (some "add") success ∷ [];
    })
unfolding request_get_sequence response_status get_int_value get_object walk skip_slashes
    split_slash descend find_member same_codes
handle_result-registered_example =
    handle_result-registered rt (answer_with 0)
      (desk connected (some 3) [] (first_request ∷ registering_request ∷ [])) (first_request ∷ [])
      registering_request [] adder refl (refl, tt) refl refl refl refl

get_run_timeout-IsTimely_example :
    InRange (get_run_timeout 5000 (desk connected (some 3) [] (status_request ∷ [])))
    × (connected ≡ connected
        → WakesForAll 5000
            (get_run_timeout 5000 (desk connected (some 3) [] (status_request ∷ [])))
            (desk connected (some 3) [] (status_request ∷ [])))
get_run_timeout-IsTimely_example =
    get_run_timeout-IsTimely 5000 (desk connected (some 3) [] (status_request ∷ [])) refl refl tt
      (refl, tt)

abbrev established : MbusClient Value
established = record (desk connected (some 3) [] []) { socket_connected = true }

-- Three rounds: two read the reasons of the two calls, and the third finds nothing.
abbrev quiet_rounds : List Round
quiet_rounds =
    let r : Round = record { before = 5000; dial = no_dial; poll = quiet_poll } in r ∷ r ∷ r ∷ []

reconnected-IsStuck_example :
    (c' : MbusClient Value) × (run_rounds rt quiet_rounds (reconnected rt established)
      ≡ done (c', ok))
    × IsStuck c'
    × (c'.notices ≡ (reconnected rt established).notices)
reconnected-IsStuck_example = reconnected-IsStuck rt quiet_rounds established refl (record {
  socket = (3, refl);
  established = refl;
  requests = refl;
  pendings = refl;
  nothing_arrived = omega arith;
})

client_reset-blank_example :
    client_reset rt (desk connected (some 3) (status_request ∷ []) (registering_request ∷ []))
    ≡ done (record (desk connected none [] []) {
      notices =
          notify_connectionfd fd_destroy
          ∷ notify_result none status_request.json none canceled
          ∷ notify_registered (some "add") canceled
          ∷ [];
    })
unfolding payload_string request_get_payload request_get_type request_get_identifier
    get_string_value get_object walk skip_slashes split_slash descend find_member same_codes reset
client_reset-blank_example =
    client_reset-blank rt (desk connected (some 3) (status_request ∷ []) (registering_request ∷ []))
      (λ st. notify_result none status_request.json none st ∷ [])
      (λ st. notify_registered (some "add") st ∷ [])
      (and_rest status_request [] (λ st. notify_result none status_request.json none st ∷ [])
        (λ st. [])
        (calling status_request "command.status" (refl, refl)
          (refl, (refl, (refl, (refl, (refl, tt))))) refl)
        none_left)
      (and_rest registering_request [] (λ st. notify_registered (some "add") st ∷ []) (λ st. [])
        (registering registering_request (refl, refl) (inr (adder, refl))) none_left)

-- A command.create is canceled, so that the reset begins another within its round.
client_reset-Halts_example :
    Halts
      (IsEmptied rt)
      (client_reset rt (desk connecting (some 3) (creating_request ∷ []) (status_request ∷ [])))
client_reset-Halts_example =
    client_reset-Halts rt (desk connecting (some 3) (creating_request ∷ []) (status_request ∷ []))

-- A pong is missed, which is one more than the threshold.
check_timers-Halts_example : Halts (IsAny rt) (check_timers rt 2 unanswered)
check_timers-Halts_example = check_timers-Halts rt 0 unanswered
