-- ===== src/ClientLib/Register.antt =====
-- mbus_client_register_with_options_unlocked and mbus_client_unregister_with_options_unlocked of
-- src/client/client.c.
use mbus.Base.{ℕ, Option, none, some, List, [], ◌∷◌, String, str_eq, if◌then◌else◌, Rc, fail}
use mbus.Base.Int.{ℤ}
use mbus.Server.{server_identifier}
use mbus.ClientLib.{
  Runtime, MbusClient, LocalRoutine, Callback, on_register, on_unregister, routine_context,
}
use mbus.ClientLib.Requests.{is_connected, or_default}
use mbus.ClientLib.Commands.{command_with_options}

pub record RegisterOptions : Type 0 where
  pub command : Option String
  pub callback : Option ℕ
  pub context : ℕ
  pub timeout : ℤ

pub record UnregisterOptions : Type 0 where
  pub command : Option String
  pub timeout : ℤ

-- TAILQ_FOREACH up to the first match.
unfoldable pub find_routine : List LocalRoutine → String → Option LocalRoutine
find_routine [] command = none
find_routine (r ∷ rs) command =
    let rest = find_routine rs command in if str_eq r.identifier command then some r else rest

module _ {J : Type 0} (rt : Runtime J) where
  open rt use {cj}

  -- The command that either function queues.
  unfoldable pub routine_command :
      MbusClient J → String → String → Callback → LocalRoutine → ℤ → MbusClient J × Rc
  routine_command c name command callback routine timeout = command_with_options rt c (record {
    destination = some server_identifier;
    command = some name;
    payload = some (cj.add_item_to_object cj.create_object "command" (cj.create_string command));
    callback = callback;
    context = routine_context routine;
    timeout = timeout;
  })

  unfoldable pub register_command : MbusClient J → RegisterOptions → String → MbusClient J × Rc
  unfolding routine_command or_default
  register_command c options command = elim (find_routine c.routines command) [
    | some routine ↦ (c, fail)
    | none ↦
        routine_command c "command.register" command on_register
          (record { identifier = command; callback = options.callback; context = options.context })
          (or_default options.timeout c.options.register_timeout)
  ]

  unfoldable pub register_with_options : MbusClient J → RegisterOptions → MbusClient J × Rc
  unfolding register_command
  register_with_options c options =
      if is_connected c.state
      then elim options.command [
        | none ↦ (c, fail)
        | some command ↦ register_command c options command
      ]
      else (c, fail)

  unfoldable pub unregister_command : MbusClient J → UnregisterOptions → String → MbusClient J × Rc
  unfolding routine_command or_default
  unregister_command c options command = elim (find_routine c.routines command) [
    | none ↦ (c, fail)
    | some routine ↦
        routine_command c "command.unregister" command on_unregister routine
          (or_default options.timeout c.options.register_timeout)
  ]

  unfoldable pub unregister_with_options : MbusClient J → UnregisterOptions → MbusClient J × Rc
  unfolding unregister_command
  unregister_with_options c options =
      if is_connected c.state
      then elim options.command [
        | none ↦ (c, fail)
        | some command ↦ unregister_command c options command
      ]
      else (c, fail)
