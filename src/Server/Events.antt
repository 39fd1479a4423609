-- ===== src/Server/Events.antt =====
-- server_send_event_to and the notifications that the server sends through it.
pub mod Delivery
use mbus.Base.{
  ℕ, suc, ◌+◌, ◌%◌, ◌^◌, Bool, true, false, ◌&&◌, ◌||◌, Option, none, some, List, [], ◌∷◌, String,
  str_eq, leb, if◌then◌else◌, Rc, ok, fail,
}
use mbus.Base.Int.{ℤ, pos}
use mbus.Json.{CJson}
use mbus.Method.{
  Method, type_event, sequence_start, sequence_end, event_source_all, event_identifier_all,
  event_destination_all, event_destination_subscribers, create_response,
}
use mbus.Client.{Client, Subscription, CloseCode, close_code_string, client_push_event}
use mbus.Server.{
  Server, server_identifier, event_ping, event_pong, event_connected, event_disconnected,
  event_subscribed, event_unsubscribed, event_registered, event_unregistered, is_named,
  find_client_by_identifier, put_client,
}

-- The event matches the first part of the subscription, and the second.
abbrev pub matches_subscription : Subscription → String → String → Bool
matches_subscription s source identifier =
    (str_eq s.source event_source_all || str_eq s.source source)
    && (str_eq s.event event_identifier_all || str_eq s.event identifier)

unfoldable pub is_subscribed : List Subscription → String → String → Bool
is_subscribed [] source identifier = false
is_subscribed (s ∷ ss) source identifier =
    if matches_subscription s source identifier then true else is_subscribed ss source identifier

unfoldable pub next_sequence : ℕ → ℕ
next_sequence n = if leb sequence_end (n + 1) then sequence_start else n + 1

module _ {J : Type 0} where
  unfoldable pub keep_going :
      Client J × Rc → List (Client J) → List (Client J) × Rc → List (Client J) × Rc
  keep_going (c, ok) cs rest = (c ∷ rest.0, rest.1)
  keep_going (c, fail) cs rest = (c ∷ cs, fail)

  -- A loop over the clients that a failure leaves by `goto bail`.
  unfoldable pub for_each : (Client J → Client J × Rc) → List (Client J) → List (Client J) × Rc
  unfolding keep_going
  for_each body [] = ([], ok)
  for_each body (c ∷ cs) = keep_going (body c) cs (for_each body cs)

  -- A loop that ends behind the first client which passes the test.
  unfoldable pub for_first :
      (Client J → Bool) → (Client J → Client J × Rc) → List (Client J) → List (Client J) × Rc
  for_first test body [] = ([], ok)
  for_first test body (c ∷ cs) =
      let rest = for_first test body cs in
      let (c', rc) = body c in if test c then (c' ∷ cs, rc) else (c ∷ rest.0, rest.1)

module _ {J : Type 0} (cj : CJson J) where
  open cj use {create_object, create_string, create_number, add_item_to_object}

  -- Create the event under the client's next sequence number, and push it.
  unfoldable pub deliver : String → String → Option J → Client J → Client J × Rc
  deliver source identifier payload c =
      elim (create_response cj type_event (some source) (some identifier) (pos c.esequence)
        payload) [
          | none ↦ (c, fail)
          | some m ↦ (client_push_event (record c { esequence = next_sequence c.esequence }) m, ok)
        ]

  unfoldable pub send_to_all : String → String → Option J → List (Client J) → List (Client J) × Rc
  send_to_all source identifier payload = for_each (λ c. elim c.identifier [
    | none ↦ (c, ok)
    | some name ↦ if str_eq name source then (c, ok) else deliver source identifier payload c
  ])

  unfoldable pub send_to_subscribers :
      String → String → Option J → List (Client J) → List (Client J) × Rc
  send_to_subscribers source identifier payload = for_each (λ c.
      if is_subscribed c.subscriptions source identifier
      then deliver source identifier payload c
      else (c, ok))

  unfoldable pub send_to_one :
      String → String → String → Option J → List (Client J) → List (Client J) × Rc
  send_to_one source destination identifier payload =
      for_first (λ c. is_named c.identifier destination) (deliver source identifier payload)

  abbrev with_clients : Server J → List (Client J) × Rc → Server J × Rc
  with_clients s (cs, rc) = (record s { clients = cs }, rc)

  -- The branches for a destination that is not the server.
  unfoldable pub route : Server J → String → String → String → Option J → Server J × Rc
  route s source destination identifier payload =
      if str_eq destination event_destination_all
      then with_clients s (send_to_all source identifier payload s.clients)
      else if str_eq destination event_destination_subscribers
      then with_clients s (send_to_subscribers source identifier payload s.clients)
      else with_clients s (send_to_one source destination identifier payload s.clients)

  -- The recursive call that answers a ping: its identifier is not a ping's, so with the server for
  -- destination it does nothing.
  unfoldable pub send_pong : Server J → String → Server J × Rc
  send_pong s source =
      if str_eq source server_identifier
      then (s, ok)
      else route s server_identifier source event_pong none

  -- `client->ping_recv_tsms = mbus_clock_monotonic();`
  unfoldable pub note_ping : ℕ → String → List (Client J) → List (Client J)
  note_ping now source cs = elim (find_client_by_identifier cs source) [
    | none ↦ cs
    | some c ↦ put_client (record c { ping = record (c.ping) { recv_tsms = now } }) cs
  ]

  send_event : ℕ → Server J → String → String → String → Option J → Server J × Rc
  send_event now s source destination identifier payload =
      if str_eq destination server_identifier
      then if str_eq identifier event_ping
        then send_pong (record s { clients = note_ping now source s.clients }) source
        else (s, ok)
      else route s source destination identifier payload

  -- `now` is the clock; a NULL among the three names is refused.
  unfoldable pub send_event_to :
      ℕ → Server J → Option String → Option String → Option String → Option J → Server J × Rc
  unfolding send_event
  send_event_to now s none destination identifier payload = (s, fail)
  send_event_to now s (some source) none identifier payload = (s, fail)
  send_event_to now s (some source) (some destination) none payload = (s, fail)
  send_event_to now s (some source) (some destination) (some identifier) payload =
      send_event now s source destination identifier payload

  -- mbus_json_add_string_to_object_cs, whose refusal of NULL nobody looks at.
  abbrev pub add_string : J → String → Option String → J
  add_string json name none = json
  add_string json name (some s) = add_item_to_object json name (create_string s)

  notify : ℕ → Server J → String → J → Server J × Rc
  notify now s identifier payload =
      send_event_to now s (some server_identifier) (some event_destination_subscribers)
        (some identifier) (some payload)

  -- `address` and `port` are what the socket calls say of the client's connection.
  unfoldable pub send_event_connected :
      ℕ → Server J → Option String → Option String → ℤ → Server J × Rc
  unfolding notify
  send_event_connected now s identifier address port = notify now s event_connected (
      add_item_to_object
        (add_string (add_string create_object "source" identifier) "address" address) "port"
        (create_number port))

  unfoldable pub send_event_disconnected : ℕ → Server J → Option String → CloseCode → Server J × Rc
  unfolding notify
  send_event_disconnected now s none code = (s, fail)
  send_event_disconnected now s (some source) code = notify now s event_disconnected (
      add_string (add_string create_object "source" (some source)) "reason"
        (some (close_code_string code)))

  -- The two that name a subscription differ in the identifier of the event alone.
  notify_subscription : ℕ → Server J → String → Option String → String → String → Server J × Rc
  unfolding notify
  notify_subscription now s event none destination identifier = (s, fail)
  notify_subscription now s event (some source) destination identifier = notify now s event (
      add_string
        (add_string (add_string create_object "source" (some source)) "destination"
          (some destination))
        "identifier" (some identifier))

  unfoldable pub send_event_subscribed :
      ℕ → Server J → Option String → String → String → Server J × Rc
  unfolding notify_subscription
  send_event_subscribed now s source destination identifier =
      notify_subscription now s event_subscribed source destination identifier

  unfoldable pub send_event_unsubscribed :
      ℕ → Server J → Option String → String → String → Server J × Rc
  unfolding notify_subscription
  send_event_unsubscribed now s source destination identifier =
      notify_subscription now s event_unsubscribed source destination identifier

  notify_command : ℕ → Server J → String → Option String → String → Server J × Rc
  unfolding notify
  notify_command now s event none identifier = (s, fail)
  notify_command now s event (some source) identifier =
      notify now s event (
        add_string (add_string create_object "source" (some source)) "identifier" (some identifier))

  unfoldable pub send_event_registered : ℕ → Server J → Option String → String → Server J × Rc
  unfolding notify_command
  send_event_registered now s source identifier =
      notify_command now s event_registered source identifier

  unfoldable pub send_event_unregistered : ℕ → Server J → Option String → String → Server J × Rc
  unfolding notify_command
  send_event_unregistered now s source identifier =
      notify_command now s event_unregistered source identifier
