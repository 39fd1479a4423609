-- ===== src/Server/Examples/Rooms.antt =====
-- The theorems about the handlers, the identifiers and the notifications at concrete inputs.
use mbus.Base.{
  ◌≡◌, refl, true, none, some, List, [], ◌∷◌, ◌++◌, eq_iff, All, done, Returns, ok, fail, ◌⊎◌,
}
use mbus.Base.Int.{pos}
use mbus.Json.{get_object, get_string_value, walk, skip_slashes, split_slash, descend}
use mbus.Method.{
  Method, type_command, request_type, request_destination, request_identifier, request_payload,
}
use mbus.Client.{Client}
use mbus.Server.{Server, server_identifier, find_client_by_identifier, source_of, client_at}
use mbus.Server.Dispatch.{handle_methods}
use mbus.Server.Create.{choose_identifier, handle_command_create}
use mbus.Server.Calls.{resolve}
use mbus.Server.Calls.Matching.{Fits, HasNames, IsFirst, answered, resolve-IsFirst}
use mbus.Server.Events.{route}
use mbus.Server.Events.Delivery.{delivered}
use mbus.Server.Keeps.{has_handle}
use mbus.Server.CallHandlers.{has_names}
use mbus.Server.CreateHandler.{CanName}
use mbus.Server.Safety.{IsTame, AreSent, AreTame, IsDone, handle_methods-IsDone}
use mbus.Server.Names.{taken, distinct, names, is_receiver, route-map}
use mbus.Server.Names.Unique.{create-IsUnique, create-wrong_password}
use mbus.Server.Presence.{disconnect}
use mbus.Server.Presence.Departure.{IsForgotten, disconnect-IsForgotten}
use mbus.Server.Examples.World.{
  Value, no_members, find_member, same_codes, request_of, named, subscribe_all, cj, env, anna, bert,
  stranger, method_from, house,
}

abbrev subscription : Method Value
subscription = method_from 1 subscribe_all

subscription-IsTame : IsTame env subscription
unfolding request_type request_destination request_identifier get_string_value get_object walk
    skip_slashes split_slash descend find_member same_codes
subscription-IsTame = record {
  type = type_command;
  typed = refl;
  addressed = record {
    destination = server_identifier;
    identifier = "command.subscribe";
    to = refl;
    calls = refl;
  };
  named = λ q. absurd (cc ((eq_iff "command.subscribe" "command.create").1 q));
  keeps_commands = λ q. cc ((eq_iff "command.subscribe" "command.unregister").1 q);
}

-- The first client waits for an answer of the second.
abbrev waiting : Method Value
waiting = method_from 1 (request_of type_command "bert" "add" no_members)

abbrev caller : Client Value
caller = record anna { waits = waiting ∷ [] }

abbrev waiting_house : Server Value
waiting_house = record (house (subscription ∷ [])) { clients = caller ∷ bert ∷ stranger ∷ [] }

handle_methods-IsDone_example :
    Returns (IsDone env waiting_house) (handle_methods env waiting_house)
unfolding AreSent AreTame has_handle has_names request_destination request_identifier
    get_string_value get_object walk skip_slashes split_slash descend find_member same_codes
handle_methods-IsDone_example =
    handle_methods-IsDone env waiting_house ((refl, tt), (tt, (tt, tt))) ((1, refl, refl), tt)
      (subscription-IsTame, tt)

abbrev creation : Method Value
creation = method_from 3 (
    request_of type_command server_identifier "command.create"
      (named "identifier" "carl" (named "password" "guess" no_members)))

creation-CanName : CanName env (house []) creation
unfolding CanName choose_identifier request_payload get_string_value get_object walk skip_slashes
    split_slash descend find_member same_codes
creation-CanName = ("carl", refl)

create-IsUnique_example :
    Returns
      (λ r. distinct (names r.0.clients) ≡ true)
      (handle_command_create env (house []) creation)
unfolding has_handle distinct taken
create-IsUnique_example =
    create-IsUnique env (house []) creation (record { handle = 3; source = refl; alive = refl })
      creation-CanName refl

create-wrong_password_example :
    (t : Server Value) × (handle_command_create env (house []) creation ≡ done (t, creation, fail))
    × (find_client_by_identifier t.clients "carl"
        ≡ some (record stranger { identifier = some "carl" }))
unfolding choose_identifier request_payload get_string_value get_object walk skip_slashes
    split_slash descend find_member same_codes source_of client_at find_client_by_identifier
create-wrong_password_example =
    create-wrong_password env (house []) creation stranger "carl" "secret" refl refl refl refl refl
      refl

route-map_example : route cj (house []) "anna" "bert" "tick" none ≡ (
  record (house []) { clients = anna ∷ delivered cj "anna" "tick" none bert ∷ stranger ∷ [] },
  ok,
)
unfolding distinct taken is_receiver
route-map_example = route-map cj (house []) "anna" "bert" "tick" none refl

waiting-HasNames : HasNames env waiting
unfolding request_destination request_identifier get_string_value get_object walk skip_slashes
    split_slash descend find_member same_codes
waiting-HasNames = record { callee = ("bert", refl); command = ("add", refl) }

resolve-IsFirst_example :
    ((resolve env caller (pos 7) "bert" "add" (pos 0) none ≡ done caller)
      × All (λ k. ¬ (Fits env (pos 7) "bert" "add" k)) caller.waits)
    ⊎ ((w : Method Value) × (others : List (Method Value)) × IsFirst env caller.waits
          (pos 7)
          "bert"
          "add"
          w
          others
        × (resolve env caller (pos 7) "bert" "add" (pos 0) none
            ≡ done (record caller {
              waits = others;
              results =
                  caller.results ++ (record w { result = answered env w.result (pos 0) none } ∷ []);
            })))
resolve-IsFirst_example =
    resolve-IsFirst env caller (pos 7) "bert" "add" (pos 0) none (waiting-HasNames, tt)

abbrev quiet : Client Value
quiet = record bert { connection = none }

abbrev left_behind : Server Value
left_behind = record (house (subscription ∷ [])) { clients = caller ∷ quiet ∷ [] }

disconnect-IsForgotten_example :
    Returns (λ r. IsForgotten env (some "bert") 2 r.0) (disconnect env left_behind quiet)
unfolding request_type request_destination get_string_value get_object walk skip_slashes split_slash
    descend find_member same_codes
disconnect-IsForgotten_example =
    disconnect-IsForgotten env left_behind quiet ((type_command, refl), tt)
      ((("bert", refl), tt), (tt, tt))
