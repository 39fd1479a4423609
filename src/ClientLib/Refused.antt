-- ===== src/ClientLib/Refused.antt =====
-- The calls of src/client/client.c that want a connection, on a client that has none.
use mbus.Base.{◌≡◌, refl, false, Option, none, some, String, str_eq, fail}
use mbus.Base.Int.{ℤ, pos}
use mbus.ClientLib.{Runtime, MbusClient, Callback, Context, user_context}
use mbus.ClientLib.Requests.{is_connected}
use mbus.ClientLib.Commands.{
  CommandOptions, may_command, queue_command, command_with_options, client_command,
}
use mbus.ClientLib.Subscribe.{subscribe_with_options, unsubscribe_with_options}
use mbus.ClientLib.Register.{register_with_options, unregister_with_options}
use mbus.ClientLib.Publish.{publish_with_options}
use mbus.ClientLib.Api.{
  user_callback, Call, call_connect, call_disconnect, call_set_connect_interval, call_subscribe,
  call_subscribe_with_options, call_unsubscribe, call_unsubscribe_with_options, call_publish,
  call_publish_with_options, call_register, call_register_with_options, call_unregister,
  call_unregister_with_options, call_command, call_command_with_options, perform,
}

abbrev pub NotCreate : Option String → Type 0
NotCreate none = Unit
NotCreate (some command) = str_eq command "command.create" ≡ false

module _ {J : Type 0} where
  -- All calls but those for the connection itself; command.create has its own state.
  abbrev pub NeedsConnection : Call J → Type 0
  NeedsConnection call_connect = ⊥
  NeedsConnection call_disconnect = ⊥
  NeedsConnection (call_set_connect_interval interval) = ⊥
  NeedsConnection (call_subscribe event) = Unit
  NeedsConnection (call_subscribe_with_options o) = Unit
  NeedsConnection (call_unsubscribe event) = Unit
  NeedsConnection (call_unsubscribe_with_options o) = Unit
  NeedsConnection (call_publish event payload) = Unit
  NeedsConnection (call_publish_with_options o) = Unit
  NeedsConnection (call_register command) = Unit
  NeedsConnection (call_register_with_options o) = Unit
  NeedsConnection (call_unregister command) = Unit
  NeedsConnection (call_unregister_with_options o) = Unit
  NeedsConnection (call_command destination command payload callback n) = NotCreate (some command)
  NeedsConnection (call_command_with_options destination command payload callback n timeout) =
      NotCreate command

module _ {J : Type 0} (rt : Runtime J) where
  queue_command-refused :
      (c : MbusClient J) (o : CommandOptions J) (destination command : String)
      → is_connected c.state ≡ false
      → NotCreate (some command)
      → queue_command rt c o destination command ≡ (c, fail)
  unfolding queue_command may_command
  queue_command-refused c o destination command q n = rw (n, q) refl

  command_refused :
      (c : MbusClient J) (destination command : Option String) (payload : Option J)
      (callback : Callback) (target : Context) (timeout : ℤ)
      → is_connected c.state ≡ false
      → NotCreate command
      → command_with_options rt c (record {
        destination = destination;
        command = command;
        payload = payload;
        callback = callback;
        context = target;
        timeout = timeout;
      })
        ≡ (c, fail)
  unfolding command_with_options
  command_refused c none command payload callback target timeout q n = refl
  command_refused c (some d) none payload callback target timeout q n = refl
  command_refused c (some d) (some command) payload callback target timeout q n =
      queue_command-refused c
        (record {
          destination = some d;
          command = some command;
          payload = payload;
          callback = callback;
          context = target;
          timeout = timeout;
        })
        d command q n

  -- On a client that is not connected, each call but those that connect, disconnect or set the
  -- interval of attempts fails and changes nothing; so does every command but command.create.
  pub perform-refused :
      (call : Call J) (c : MbusClient J)
      → is_connected c.state ≡ false
      → NeedsConnection call
      → perform rt call c ≡ (c, fail)
  unfolding perform subscribe_with_options unsubscribe_with_options publish_with_options
      register_with_options unregister_with_options client_command
  perform-refused call_connect c q n = elim n [ ]
  perform-refused call_disconnect c q n = elim n [ ]
  perform-refused (call_set_connect_interval interval) c q n = elim n [ ]
  perform-refused (call_subscribe event) c q n = rw q refl
  perform-refused (call_subscribe_with_options o) c q n = rw q refl
  perform-refused (call_unsubscribe event) c q n = rw q refl
  perform-refused (call_unsubscribe_with_options o) c q n = rw q refl
  perform-refused (call_publish event payload) c q n = rw q refl
  perform-refused (call_publish_with_options o) c q n = rw q refl
  perform-refused (call_register command) c q n = rw q refl
  perform-refused (call_register_with_options o) c q n = rw q refl
  perform-refused (call_unregister command) c q n = rw q refl
  perform-refused (call_unregister_with_options o) c q n = rw q refl
  perform-refused (call_command destination command payload callback k) c q n =
      command_refused c (some destination) (some command) payload (user_callback callback)
        (user_context k) (pos 0) q n
  perform-refused (call_command_with_options destination command payload callback k timeout) c q n =
      command_refused c destination command payload (user_callback callback) (user_context k)
        timeout q n
