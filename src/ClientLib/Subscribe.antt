-- ===== src/ClientLib/Subscribe.antt =====
-- mbus_client_subscribe_with_options_unlocked and mbus_client_unsubscribe_with_options_unlocked of
-- src/client/client.c.
use mbus.Base.{ℕ, ◌&&◌, Option, none, some, List, [], ◌∷◌, String, str_eq, if◌then◌else◌, Rc, fail}
use mbus.Base.Int.{ℤ}
use mbus.Method.{event_source_all}
use mbus.Server.{server_identifier}
use mbus.ClientLib.{
  Runtime, MbusClient, LocalSubscription, Callback, on_subscribe, on_unsubscribe,
  subscription_context,
}
use mbus.ClientLib.Requests.{is_connected, or_default}
use mbus.ClientLib.Commands.{command_with_options}

pub record SubscribeOptions : Type 0 where
  pub source : Option String
  pub event : Option String
  pub callback : Option ℕ
  pub context : ℕ
  pub timeout : ℤ

pub record UnsubscribeOptions : Type 0 where
  pub source : Option String
  pub event : Option String
  pub timeout : ℤ

-- TAILQ_FOREACH up to the first match.
unfoldable pub find_subscription :
    List LocalSubscription → String → String → Option LocalSubscription
find_subscription [] source event = none
find_subscription (s ∷ ss) source event =
    let rest = find_subscription ss source event in
    if str_eq s.source source && str_eq s.identifier event then some s else rest

abbrev pub source_or_all : Option String → String
source_or_all none = event_source_all
source_or_all (some source) = source

module _ {J : Type 0} (rt : Runtime J) where
  open rt use {cj}

  unfoldable pub subscription_payload : String → String → J
  subscription_payload source event =
      cj.add_item_to_object
        (cj.add_item_to_object cj.create_object "source" (cj.create_string source)) "event"
        (cj.create_string event)

  -- The command that either function queues.
  unfoldable pub subscription_command :
      MbusClient J → String → String → String → Callback → LocalSubscription → ℤ → MbusClient J × Rc
  unfolding subscription_payload
  subscription_command c command source event callback subscription timeout =
      command_with_options rt c (record {
        destination = some server_identifier;
        command = some command;
        payload = some (subscription_payload source event);
        callback = callback;
        context = subscription_context subscription;
        timeout = timeout;
      })

  unfoldable pub subscribe_to :
      MbusClient J → SubscribeOptions → String → String → MbusClient J × Rc
  unfolding subscription_command or_default
  subscribe_to c options source event = elim (find_subscription c.subscriptions source event) [
    | some subscription ↦ (c, fail)
    | none ↦
        subscription_command c "command.subscribe" source event on_subscribe
          (record {
            source = source;
            identifier = event;
            callback = options.callback;
            context = options.context;
          })
          (or_default options.timeout c.options.subscribe_timeout)
  ]

  unfoldable pub subscribe_with_options : MbusClient J → SubscribeOptions → MbusClient J × Rc
  unfolding subscribe_to
  subscribe_with_options c options =
      if is_connected c.state
      then elim options.event [
        | none ↦ (c, fail)
        | some event ↦ subscribe_to c options (source_or_all options.source) event
      ]
      else (c, fail)

  unfoldable pub unsubscribe_from :
      MbusClient J → UnsubscribeOptions → String → String → MbusClient J × Rc
  unfolding subscription_command or_default
  unsubscribe_from c options source event = elim (find_subscription c.subscriptions source event) [
    | none ↦ (c, fail)
    | some subscription ↦
        subscription_command c "command.unsubscribe" source event on_unsubscribe subscription
          (or_default options.timeout c.options.subscribe_timeout)
  ]

  unfoldable pub unsubscribe_with_options : MbusClient J → UnsubscribeOptions → MbusClient J × Rc
  unfolding unsubscribe_from
  unsubscribe_with_options c options =
      if is_connected c.state
      then elim options.event [
        | none ↦ (c, fail)
        | some event ↦ unsubscribe_from c options (source_or_all options.source) event
      ]
      else (c, fail)
