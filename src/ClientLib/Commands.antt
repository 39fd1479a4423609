-- ===== src/ClientLib/Commands.antt =====
-- mbus_client_command_with_options_unlocked and mbus_client_command_unlocked of
-- src/client/client.c; mbus_client_connect and mbus_client_disconnect.
--
-- The defaults that the code writes into the caller's options are computed in place.
use mbus.Base.{Bool, Option, none, some, [], ◌∷◌, ◌++◌, String, str_eq, if◌then◌else◌, Rc, ok, fail}
use mbus.Base.Int.{ℤ, pos}
use mbus.Method.{type_command}
use mbus.ClientLib.{
  Runtime, MbusClient, Callback, Context, ClientState, unknown_state, connecting, connected,
  disconnecting, disconnected, wakeup_connect, wakeup_disconnect, Wakeup,
}
use mbus.ClientLib.Requests.{is_connected, is_connecting, or_default, queue_request, request_create}

pub record CommandOptions (J : Type 0) : Type 0 where
  pub destination : Option String
  pub command : Option String
  pub payload : Option J
  pub callback : Callback
  pub context : Context
  pub timeout : ℤ

-- The state in which a command may be queued.
unfoldable pub may_command : ClientState → String → Bool
may_command state command =
    if str_eq command "command.create" then is_connecting state else is_connected state

module _ {J : Type 0} (rt : Runtime J) where
  -- The part with a destination and a command.
  unfoldable pub queue_command :
      MbusClient J → CommandOptions J → String → String → MbusClient J × Rc
  unfolding queue_request or_default may_command
  queue_command c options destination command =
      if may_command c.state command
      then elim (request_create rt type_command destination command c.sequence options.payload
          options.callback options.context (or_default options.timeout c.options.command_timeout)) [
            | none ↦ (c, fail)
            | some r ↦ (queue_request c r, ok)
          ]
      else (c, fail)

  unfoldable pub command_with_options : MbusClient J → CommandOptions J → MbusClient J × Rc
  unfolding queue_command
  command_with_options c options = elim options.destination [
    | none ↦ (c, fail)
    | some destination ↦ elim options.command [
      | none ↦ (c, fail)
      | some command ↦ queue_command c options destination command
    ]
  ]

  unfoldable pub client_command :
      MbusClient J → String → String → Option J → Callback → Context → MbusClient J × Rc
  unfolding command_with_options
  client_command c destination command payload callback context = command_with_options c (record {
    destination = some destination;
    command = some command;
    payload = payload;
    callback = callback;
    context = context;
    timeout = pos 0;
  })

module _ {J : Type 0} where
  -- The pipe takes the reason.
  unfoldable pub wakeup : MbusClient J → Wakeup → MbusClient J
  wakeup c reason = record c { wakeups = c.wakeups ++ (reason ∷ []) }

  unfoldable pub client_connect : MbusClient J → MbusClient J
  unfolding wakeup
  client_connect c = elim c.state [
    | connected ↦ c
    | connecting ↦ c
    | unknown_state ↦ wakeup (record c { state = connecting }) wakeup_connect
    | disconnecting ↦ wakeup (record c { state = connecting }) wakeup_connect
    | disconnected ↦ wakeup (record c { state = connecting }) wakeup_connect
  ]

  unfoldable pub client_disconnect : MbusClient J → MbusClient J
  unfolding wakeup
  client_disconnect c = elim c.state [
    | disconnected ↦ c
    | connected ↦ wakeup (record c { state = disconnecting }) wakeup_disconnect
    | connecting ↦ wakeup (record c { state = disconnecting }) wakeup_disconnect
    | unknown_state ↦ wakeup (record c { state = disconnecting }) wakeup_disconnect
    | disconnecting ↦ wakeup (record c { state = disconnecting }) wakeup_disconnect
  ]
