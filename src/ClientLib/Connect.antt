-- ===== src/ClientLib/Connect.antt =====
-- mbus_client_command_create_request and mbus_client_run_connect of src/client/client.c.
--
-- The results of the socket calls are the record `Dial`.
use mbus.Base.{
  ℕ, true, Option, none, some, String, if◌then◌else◌, Exec, done, fault, ◌>>=◌, Rc, ok, fail,
}
use mbus.Base.Int.{is_le_zero}
use mbus.Server.{server_identifier}
use mbus.ClientLib.{
  Runtime, MbusClient, on_create, no_context, ConnectStatus, connect_internal_error,
  invalid_protocol, connection_refused, server_unavailable, notify_connect, notify_disconnect,
  disconnect_canceled, notify_connectionfd, fd_create, fd_events, ClientOptions,
}
use mbus.ClientLib.Requests.{note, retry_state}
use mbus.ClientLib.Options.{server_defaults}
use mbus.ClientLib.Commands.{client_command}
use mbus.ClientLib.Reset.{client_reset}

-- What mbus_socket_connect returns: 0, -EINPROGRESS, -EAGAIN, -ECONNREFUSED, -ENOENT, another.
pub data ConnectRc : Type 0 where
  connect_done : ConnectRc
  in_progress : ConnectRc
  try_again : ConnectRc
  refused : ConnectRc
  no_entry : ConnectRc
  other_error : ConnectRc

pub record Dial : Type 0 where
  pub socket : Option ℕ
  pub reuseaddr : Rc
  pub blocking : Rc
  pub connect : ConnectRc

module _ {J : Type 0} (rt : Runtime J) where
  open rt use {cj, zlib}

  add_option : J → String → Option String → J
  add_option payload name none = payload
  add_option payload name (some value) = cj.add_item_to_object payload name (cj.create_string value)

  add_ping : ClientOptions → J → J
  add_ping o payload =
      if is_le_zero o.ping_interval
      then payload
      else cj.add_item_to_object payload "ping" (
          cj.add_item_to_object
            (cj.add_item_to_object
              (cj.add_item_to_object cj.create_object "interval" (cj.create_number o.ping_interval))
              "timeout" (cj.create_number o.ping_timeout))
            "threshold" (cj.create_number o.ping_threshold))

  compressions : J
  compressions =
      let plain = cj.add_item_to_array cj.create_array (cj.create_string "none") in
      if zlib.enabled then cj.add_item_to_array plain (cj.create_string "zlib") else plain

  unfoldable pub create_payload : ClientOptions → J
  unfolding add_option add_ping compressions
  create_payload o =
      cj.add_item_to_object
        (add_ping o (
          add_option (add_option cj.create_object "identifier" o.identifier) "password" o.password))
        "compressions" compressions

  unfoldable pub command_create_request : MbusClient J → MbusClient J × Rc
  unfolding create_payload
  command_create_request c =
      client_command rt c server_identifier "command.create" (some (create_payload c.options))
        on_create no_context

  -- `bail`
  unfoldable pub connect_failed : MbusClient J → ConnectStatus → Exec (MbusClient J × Rc)
  unfolding note
  connect_failed c status =
      client_reset rt (note c (notify_connect status)) >>= λ c'. done (c', fail)

  unfoldable pub note_socket : MbusClient J → MbusClient J
  unfolding note
  note_socket c = elim c.socket [ none ↦ c | some fd ↦ note c (notify_connectionfd fd_events) ]

  -- No further attempt is made where the interval is not positive.
  unfoldable pub note_given_up : MbusClient J → MbusClient J
  unfolding note
  note_given_up c =
      if is_le_zero c.options.connect_interval
      then note c (notify_disconnect disconnect_canceled)
      else c

  -- A connection that was refused at once: the call succeeds, and is tried again or given up.
  unfoldable pub connect_refused : MbusClient J → ConnectStatus → Exec (MbusClient J × Rc)
  unfolding note retry_state note_given_up note_socket
  connect_refused c status = client_reset rt (note c (notify_connect status)) >>= λ c'.
      done (note_socket (note_given_up (record c' { state = retry_state c'.options })), ok)

  unfoldable pub connect_request : MbusClient J × Rc → Exec (MbusClient J × Rc)
  unfolding connect_failed note_socket
  connect_request (c, fail) = connect_failed c connect_internal_error
  connect_request (c, ok) = done (note_socket c, ok)

  unfoldable pub connect_socket : MbusClient J → ConnectRc → Exec (MbusClient J × Rc)
  unfolding connect_failed connect_refused connect_request note_socket command_create_request
  connect_socket c connect_done =
      connect_request (command_create_request (record c { socket_connected = true }))
  connect_socket c in_progress = done (note_socket c, ok)
  connect_socket c try_again = connect_refused c connection_refused
  connect_socket c refused = connect_refused c connection_refused
  connect_socket c no_entry = connect_refused c server_unavailable
  connect_socket c other_error = connect_failed c connect_internal_error

  unfoldable pub open_socket : Dial → MbusClient J → Exec (MbusClient J × Rc)
  unfolding connect_failed connect_socket note
  open_socket d c = elim d.socket [
    | none ↦ connect_failed c connect_internal_error
    | some fd ↦
        let opened = note (record c { socket = some fd }) (notify_connectionfd fd_create) in
        elim d.reuseaddr [
          | fail ↦ connect_failed opened connect_internal_error
          | ok ↦ elim d.blocking [
            | fail ↦ connect_failed opened connect_internal_error
            | ok ↦ connect_socket opened d.connect
          ]
        ]
  ]

  -- The options with the defaults of the protocol, or none for another protocol.
  unfoldable pub with_options :
      Dial → MbusClient J → Option ClientOptions → Exec (MbusClient J × Rc)
  unfolding connect_failed open_socket
  with_options d c none = connect_failed c invalid_protocol
  with_options d c (some options) = open_socket d (record c { options = options })

  -- The protocol of the options is never NULL after mbus_client_create.
  unfoldable pub with_protocol : Dial → MbusClient J → Option String → Exec (MbusClient J × Rc)
  unfolding with_options
  with_protocol d c none = fault
  with_protocol d c (some protocol) = with_options d c (server_defaults c.options protocol)

  unfoldable pub run_connect : Dial → MbusClient J → Exec (MbusClient J × Rc)
  unfolding with_protocol
  run_connect d c = client_reset rt c >>= λ c'. with_protocol d c' c'.options.server_protocol
