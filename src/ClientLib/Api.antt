-- ===== src/ClientLib/Api.antt =====
-- The calls of src/client/client.h that a program makes between two runs, with the short forms that
-- take the default options; mbus_client_destroy; the accessors of messages.
use mbus.Base.{ℕ, Option, none, some, List, [], ◌∷◌, String, Exec, Rc, ok}
use mbus.Base.Int.{ℤ, pos}
use mbus.Json.{codes, get_object, get_string_value}
use mbus.Method.{tag_source, tag_destination, tag_identifier, tag_payload}
use mbus.ClientLib.{
  Runtime, MbusClient, Callback, on_nothing, on_user, user_context, at_most_once, unknown_state,
  connecting, connected, disconnecting, disconnected, notify_disconnect, disconnect_canceled,
}
use mbus.ClientLib.Requests.{note}
use mbus.ClientLib.Commands.{
  command_with_options, client_command, client_connect, client_disconnect,
}
use mbus.ClientLib.Subscribe.{
  SubscribeOptions, UnsubscribeOptions, subscribe_with_options, unsubscribe_with_options,
}
use mbus.ClientLib.Register.{
  RegisterOptions, UnregisterOptions, register_with_options, unregister_with_options,
}
use mbus.ClientLib.Publish.{PublishOptions, publish_with_options}
use mbus.ClientLib.Reset.{client_reset}

-- A callback of the program, or NULL.
abbrev pub user_callback : Option ℕ → Callback
user_callback none = on_nothing
user_callback (some f) = on_user f

unfoldable pub subscribe_options_default : String → SubscribeOptions
subscribe_options_default event = record {
  source = none;
  event = some event;
  callback = none;
  context = 0;
  timeout = pos 0;
}

unfoldable pub unsubscribe_options_default : String → UnsubscribeOptions
unsubscribe_options_default event = record { source = none; event = some event; timeout = pos 0 }

unfoldable pub register_options_default : String → RegisterOptions
register_options_default command = record {
  command = some command;
  callback = none;
  context = 0;
  timeout = pos 0;
}

unfoldable pub unregister_options_default : String → UnregisterOptions
unregister_options_default command = record { command = some command; timeout = pos 0 }

module _ {J : Type 0} where
  unfoldable pub publish_options_default : String → Option J → PublishOptions J
  publish_options_default event payload = record {
    destination = none;
    event = some event;
    payload = payload;
    qos = at_most_once;
    timeout = pos 0;
  }

  unfoldable pub set_connect_interval : MbusClient J → ℤ → MbusClient J
  set_connect_interval c interval = record c {
    options = record (c.options) { connect_interval = interval };
  }

-- A command has its destination, its name, its payload, its callback with a context and its timeout.
pub data Call (J : Type 0) : Type 0 where
  call_connect : Call J
  call_disconnect : Call J
  call_set_connect_interval : ℤ → Call J
  call_subscribe : String → Call J
  call_subscribe_with_options : SubscribeOptions → Call J
  call_unsubscribe : String → Call J
  call_unsubscribe_with_options : UnsubscribeOptions → Call J
  call_publish : String → Option J → Call J
  call_publish_with_options : PublishOptions J → Call J
  call_register : String → Call J
  call_register_with_options : RegisterOptions → Call J
  call_unregister : String → Call J
  call_unregister_with_options : UnregisterOptions → Call J
  call_command : String → String → Option J → Option ℕ → ℕ → Call J
  call_command_with_options : Option String → Option String → Option J → Option ℕ → ℕ → ℤ → Call J

module _ {J : Type 0} (rt : Runtime J) where
  open rt use {cj}

  unfoldable pub perform : Call J → MbusClient J → MbusClient J × Rc
  unfolding client_connect client_disconnect set_connect_interval subscribe_options_default
      unsubscribe_options_default publish_options_default register_options_default
      unregister_options_default subscribe_with_options unsubscribe_with_options
      publish_with_options register_with_options unregister_with_options client_command
      command_with_options
  perform call_connect c = (client_connect c, ok)
  perform call_disconnect c = (client_disconnect c, ok)
  perform (call_set_connect_interval interval) c = (set_connect_interval c interval, ok)
  perform (call_subscribe event) c = subscribe_with_options rt c (subscribe_options_default event)
  perform (call_subscribe_with_options options) c = subscribe_with_options rt c options
  perform (call_unsubscribe event) c =
      unsubscribe_with_options rt c (unsubscribe_options_default event)
  perform (call_unsubscribe_with_options options) c = unsubscribe_with_options rt c options
  perform (call_publish event payload) c =
      publish_with_options rt c (publish_options_default event payload)
  perform (call_publish_with_options options) c = publish_with_options rt c options
  perform (call_register command) c = register_with_options rt c (register_options_default command)
  perform (call_register_with_options options) c = register_with_options rt c options
  perform (call_unregister command) c =
      unregister_with_options rt c (unregister_options_default command)
  perform (call_unregister_with_options options) c = unregister_with_options rt c options
  perform (call_command destination command payload callback context) c =
      client_command rt c destination command payload (user_callback callback)
        (user_context context)
  perform (call_command_with_options destination command payload callback context timeout) c =
      command_with_options rt c (record {
        destination = destination;
        command = command;
        payload = payload;
        callback = user_callback callback;
        context = user_context context;
        timeout = timeout;
      })

  -- The calls in their order.
  unfoldable pub perform_all : List (Call J) → MbusClient J → MbusClient J
  unfolding perform
  perform_all [] c = c
  perform_all (call ∷ calls) c = perform_all calls (perform call c).0

  -- What is heard of a client that is destroyed; its memory is not modelled.
  unfoldable pub mbus_client_destroy : MbusClient J → Exec (MbusClient J)
  unfolding note
  mbus_client_destroy c = elim c.state [
    | connecting ↦ client_reset rt (note c (notify_disconnect disconnect_canceled))
    | connected ↦ client_reset rt (note c (notify_disconnect disconnect_canceled))
    | disconnecting ↦ client_reset rt (note c (notify_disconnect disconnect_canceled))
    | disconnected ↦ client_reset rt c
    | unknown_state ↦ client_reset rt c
  ]

  unfoldable pub message_source : J → Option String
  message_source json = get_string_value cj (some json) tag_source none

  unfoldable pub message_destination : J → Option String
  message_destination json = get_string_value cj (some json) tag_destination none

  unfoldable pub message_identifier : J → Option String
  message_identifier json = get_string_value cj (some json) tag_identifier none

  unfoldable pub message_payload : Option J → Option J
  message_payload json = get_object cj json (codes tag_payload)
