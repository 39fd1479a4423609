-- ===== src/Server/Dispatch.antt =====
-- server_handle_methods, which executes what has been received, and server_handle_method, which
-- queues it.
use mbus.Base.{
  ℕ, Option, none, some, List, [], ◌∷◌, ◌++◌, String, str_eq, if◌then◌else◌, Exec, done, fault,
  ◌>>=◌, Rc, ok, fail,
}
use mbus.Base.Int.{ℤ, pos, minus_one}
use mbus.Method.{
  Method, type_command, type_event, request_type, request_destination, request_identifier,
  request_payload, set_result_code, create_request,
}
use mbus.Client.{client_push_result, client_push_wait}
use mbus.Server.{Server, Env, server_identifier, is_named, strcmp, source_of, put_client}
use mbus.Server.Events.{send_event_to}
use mbus.Server.Commands.{
  Handled, handle_command_subscribe, handle_command_unsubscribe, handle_command_register,
  handle_command_unregister, handle_command_event, handle_command_clients, handle_command_close,
}
use mbus.Server.Calls.{handle_command_call, handle_command_result}
use mbus.Server.Create.{handle_command_create}
use mbus.Server.Status.{handle_command_status, handle_command_client}

abbrev pub rc_code : Rc → ℤ
rc_code ok = pos 0
rc_code fail = minus_one

module _ {J : Type 0} (e : Env J) where
  open e use {cj, now}

  -- The chain of strcmp on the command's identifier.
  unfoldable pub execute : String → Server J → Method J → Handled J
  execute identifier s m =
      if str_eq identifier "command.create"
      then handle_command_create e s m
      else if str_eq identifier "command.subscribe"
      then handle_command_subscribe e s m
      else if str_eq identifier "command.unsubscribe"
      then handle_command_unsubscribe e s m
      else if str_eq identifier "command.register"
      then handle_command_register e s m
      else if str_eq identifier "command.unregister"
      then handle_command_unregister e s m
      else if str_eq identifier "command.result"
      then handle_command_result e s m
      else if str_eq identifier "command.event"
      then handle_command_event e s m
      else if str_eq identifier "command.status"
      then handle_command_status e s m
      else if str_eq identifier "command.client"
      then handle_command_client e s m
      else if str_eq identifier "command.clients"
      then handle_command_clients e s m
      else if str_eq identifier "command.close"
      then handle_command_close e s m
      else done (s, m, fail)

  unfoldable pub push_result_to : Server J → Method J → Rc → Exec (Server J)
  push_result_to s m rc = source_of s.clients m.source >>= λ c. done (record s {
    clients = put_client (client_push_result c (set_result_code cj m (rc_code rc))) s.clients;
  })

  unfoldable pub push_wait_to : Server J → Method J → Exec (Server J)
  push_wait_to s m = source_of s.clients m.source >>= λ c.
      done (record s { clients = put_client (client_push_wait c m) s.clients })

  -- A command of the server is answered at once.
  unfoldable pub respond : Server J × Method J × Rc → Exec (Server J)
  unfolding push_result_to
  respond (s, m, rc) = push_result_to s m rc

  -- A call waits, unless it failed.
  unfoldable pub respond_call : Server J × Method J × Rc → Exec (Server J)
  unfolding push_result_to push_wait_to
  respond_call (s, m, fail) = push_result_to s m fail
  respond_call (s, m, ok) = push_wait_to s m

  -- strcmp of a NULL name is a fault; a request that was accepted has a destination and an identifier.
  unfoldable pub handle_command :
      Server J → Method J → Option String → Option String → Exec (Server J)
  unfolding respond respond_call
  handle_command s m none identifier = fault
  handle_command s m (some destination) none = fault
  handle_command s m (some destination) (some identifier) =
      if str_eq destination server_identifier
      then (execute identifier s m >>= λ r. respond r)
      else (handle_command_call e s m >>= λ r. respond_call r)

  unfoldable pub handle_event : Server J → Method J → Exec (Server J)
  handle_event s m = source_of s.clients m.source >>= λ c.
      done
        (send_event_to cj now s c.identifier (request_destination cj m) (request_identifier cj m)
          (request_payload cj m)).0

  -- A method of another type would be lost; server_handle_method queues none.
  unfoldable pub handle_one : Server J → Method J → Exec (Server J)
  handle_one s m =
      let type = request_type cj m in
      strcmp type type_command >>= λ command.
      if command
      then handle_command s m (request_destination cj m) (request_identifier cj m)
      else (strcmp type type_event >>= λ event. if event then handle_event s m else done s)

  -- Each round takes the head of the queue off before it executes it.
  unfoldable pub handle_queue : List (Method J) → Server J → Exec (Server J)
  handle_queue [] s = done s
  handle_queue (m ∷ ms) s = handle_one (record s { methods = ms }) m >>= λ s'. handle_queue ms s'

  unfoldable pub handle_methods : Server J → Exec (Server J)
  handle_methods s = handle_queue s.methods s

  -- A received text becomes a queued method.
  unfoldable pub enqueue : Server J → Option (Method J) → Server J × Rc
  enqueue s none = (s, fail)
  enqueue s (some m) =
      if is_named (request_type cj m) type_command
      then (record s { methods = s.methods ++ (m ∷ []) }, ok)
      else if is_named (request_type cj m) type_event
      then (record s { methods = s.methods ++ (m ∷ []) }, ok)
      else (s, fail)

  unfoldable pub handle_method : Server J → ℕ → List ℕ → Server J × Rc
  unfolding enqueue
  handle_method s client string = enqueue s (create_request cj client string)
