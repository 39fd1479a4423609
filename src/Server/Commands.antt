-- ===== src/Server/Commands.antt =====
-- The handlers server_handle_command_* for subscriptions, commands, events, the list of clients
-- and the closing of a connection.
--
-- A handler returns the server, the method, whose result it may set, and its return code.
use mbus.Base.{
  Bool, true, false, Option, none, some, List, [], ◌∷◌, String, str_eq, if◌then◌else◌, Exec, done,
  ◌>>=◌, Rc, ok, fail,
}
use mbus.Json.{codes, get_object, get_string_value}
use mbus.Method.{
  Method, tag_destination, tag_identifier, tag_payload, request_payload, set_result_payload,
}
use mbus.Client.{
  Client, close_comand, client_set_connection, client_add_subscription, client_del_subscription,
  client_add_command, client_del_command,
}
use mbus.Server.{Server, Env, server_identifier, is_named, source_of, put_client}
use mbus.Server.Events.{
  send_event_to, send_event_subscribed, send_event_unsubscribed, send_event_registered,
  send_event_unregistered,
}

abbrev pub Handled : Type 0 → Type 0
Handled J = Exec (Server J × Method J × Rc)

module _ {J : Type 0} where
  -- `if (rc != 0) goto bail; rc = send_event(...)`, on the server with the client written back.
  abbrev pub and_then :
      Server J → Method J → Client J × Rc → (Server J → Client J → Server J × Rc) → Handled J
  and_then s m (c, fail) next = done (record s { clients = put_client c s.clients }, m, fail)
  and_then s m (c, ok) next =
      let (s', rc) = next (record s { clients = put_client c s.clients }) c in done (s', m, rc)

module _ {J : Type 0} (e : Env J) where
  open e use {cj, now}

  -- A member of the request's payload.
  abbrev pub argument : Method J → String → Option String
  argument m name = get_string_value cj (request_payload cj m) name none

  unfoldable pub subscribe : Server J → Method J → Option String → Option String → Handled J
  subscribe s m none event = done (s, m, fail)
  subscribe s m (some source) none = done (s, m, fail)
  subscribe s m (some source) (some event) = source_of s.clients m.source >>= λ c.
      and_then s m (client_add_subscription c source event)
        (λ s' c'. send_event_subscribed cj now s' c'.identifier source event)

  unfoldable pub handle_command_subscribe : Server J → Method J → Handled J
  unfolding subscribe
  handle_command_subscribe s m = subscribe s m (argument m "source") (argument m "event")

  unfoldable pub unsubscribe : Server J → Method J → Option String → Option String → Handled J
  unsubscribe s m none event = done (s, m, fail)
  unsubscribe s m (some source) none = done (s, m, fail)
  unsubscribe s m (some source) (some event) = source_of s.clients m.source >>= λ c.
      and_then s m (client_del_subscription c source event)
        (λ s' c'. send_event_unsubscribed cj now s' c'.identifier source event)

  unfoldable pub handle_command_unsubscribe : Server J → Method J → Handled J
  unfolding unsubscribe
  handle_command_unsubscribe s m = unsubscribe s m (argument m "source") (argument m "event")

  unfoldable pub register : Server J → Method J → Option String → Handled J
  register s m none = done (s, m, fail)
  register s m (some command) = source_of s.clients m.source >>= λ c.
      and_then s m (client_add_command c command)
        (λ s' c'. send_event_registered cj now s' c'.identifier command)

  unfoldable pub handle_command_register : Server J → Method J → Handled J
  unfolding register
  handle_command_register s m = register s m (argument m "command")

  unfoldable pub unregister : Server J → Method J → Option String → Handled J
  unregister s m none = done (s, m, fail)
  unregister s m (some command) = source_of s.clients m.source >>= λ c.
      client_del_command c command >>= λ removed.
      and_then s m removed (λ s' c'. send_event_unregistered cj now s' c'.identifier command)

  unfoldable pub handle_command_unregister : Server J → Method J → Handled J
  unfolding unregister
  handle_command_unregister s m = unregister s m (argument m "command")

  -- The return code of the sending is logged and dropped.
  unfoldable pub event_with :
      Server J → Method J → Option String → Option String → Option J → Handled J
  event_with s m none identifier payload = done (s, m, fail)
  event_with s m (some destination) none payload = done (s, m, fail)
  event_with s m (some destination) (some identifier) none = done (s, m, fail)
  event_with s m (some destination) (some identifier) (some payload) =
      source_of s.clients m.source >>= λ c. done (
        (send_event_to cj now s c.identifier (some destination) (some identifier) (some payload)).0,
        m,
        ok,
      )

  unfoldable pub handle_command_event : Server J → Method J → Handled J
  unfolding event_with
  handle_command_event s m =
      event_with s m (argument m tag_destination) (argument m tag_identifier)
        (get_object cj (request_payload cj m) (codes tag_payload))

  -- The identifiers of the clients that have one, in a JSON array.
  unfoldable pub add_identifiers : J → List (Client J) → J
  add_identifiers array [] = array
  add_identifiers array (c ∷ cs) =
      add_identifiers
        (elim c.identifier [
          | none ↦ array
          | some name ↦ cj.add_item_to_array array (cj.create_string name)
        ])
        cs

  unfoldable pub handle_command_clients : Server J → Method J → Handled J
  unfolding add_identifiers
  handle_command_clients s m =
      done (s, set_result_payload cj m (some (add_identifiers cj.create_array s.clients)), ok)

module _ {J : Type 0} where
  -- The first client of that name loses its connection; `false` if there is none.
  unfoldable pub close_named : String → List (Client J) → List (Client J) × Bool
  close_named source [] = ([], false)
  close_named source (c ∷ cs) =
      let rest = close_named source cs in
      if is_named c.identifier source
      then ((client_set_connection c none close_comand).0 ∷ cs, true)
      else (c ∷ rest.0, rest.1)

  unfoldable pub closed : Server J → Method J → List (Client J) × Bool → Handled J
  closed s m (cs, true) = done (record s { clients = cs }, m, ok)
  closed s m (cs, false) = done (s, m, fail)

  unfoldable pub close : Server J → Method J → Option String → Handled J
  unfolding closed
  close s m none = done (s, m, fail)
  close s m (some source) =
      if str_eq source server_identifier
      then done (record s { running = false }, m, ok)
      else closed s m (close_named source s.clients)

module _ {J : Type 0} (e : Env J) where
  unfoldable pub handle_command_close : Server J → Method J → Handled J
  unfolding close
  handle_command_close s m = close s m (argument e m "source")
