-- ===== src/Server/Status.antt =====
-- server_handle_command_status and server_handle_command_client: what the server knows of its
-- clients, as JSON.
use mbus.Base.{Option, none, some, List, [], ◌∷◌, String, done, ok, fail}
use mbus.Method.{Method, set_result_payload}
use mbus.Client.{Client, Subscription}
use mbus.Server.{Server, Env, find_client_by_identifier}
use mbus.Server.Events.{add_string}
use mbus.Server.Commands.{Handled, argument}

module _ {J : Type 0} (e : Env J) where
  open e use {cj, address, port}

  unfoldable pub subscriptions_json : J → List Subscription → J
  subscriptions_json array [] = array
  subscriptions_json array (s ∷ ss) =
      subscriptions_json
        (cj.add_item_to_array array (
          add_string cj (add_string cj cj.create_object "source" (some s.source)) "identifier"
            (some s.event)))
        ss

  unfoldable pub commands_json : J → List String → J
  commands_json array [] = array
  commands_json array (c ∷ cs) =
      commands_json
        (cj.add_item_to_array array (add_string cj cj.create_object "identifier" (some c))) cs

  unfoldable pub client_json : Client J → J
  unfolding subscriptions_json commands_json
  client_json c =
      cj.add_item_to_object
        (cj.add_item_to_object
          (cj.add_item_to_object
            (add_string cj (add_string cj cj.create_object "source" c.identifier) "address"
              (address c.connection))
            "port" (cj.create_number (port c.connection)))
          "subscriptions" (subscriptions_json cj.create_array c.subscriptions))
        "commands" (commands_json cj.create_array c.commands)

  unfoldable pub clients_json : J → List (Client J) → J
  unfolding client_json
  clients_json array [] = array
  clients_json array (c ∷ cs) = clients_json (cj.add_item_to_array array (client_json c)) cs

  unfoldable pub handle_command_status : Server J → Method J → Handled J
  unfolding clients_json
  handle_command_status s m =
      done (s, set_result_payload cj m (some (clients_json cj.create_array s.clients)), ok)

  unfoldable pub describe : Server J → Method J → Option (Client J) → Handled J
  unfolding client_json
  describe s m none = done (s, m, fail)
  describe s m (some c) = done (s, set_result_payload cj m (some (client_json c)), ok)

  unfoldable pub client_named : Server J → Method J → Option String → Handled J
  unfolding describe
  client_named s m none = done (s, m, fail)
  client_named s m (some source) = describe s m (find_client_by_identifier s.clients source)

  unfoldable pub handle_command_client : Server J → Method J → Handled J
  unfolding client_named
  handle_command_client s m = client_named s m (argument e m "source")
