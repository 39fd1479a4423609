-- ===== src/ClientLib/Invariant/Dialing.antt =====
-- The attempt to connect keeps the invariant of a client of src/client/client.c.
use mbus.Base.{true, Option, none, some, inl, inr, Option-cases, Rc, ok, fail, arith, String}
use mbus.Base.Int.{pos}
use mbus.Server.{server_identifier}
use mbus.ClientLib.{
  Runtime, MbusClient, ConnectStatus, on_create, no_context, connect_internal_error,
  connection_refused, server_unavailable, invalid_protocol, notify_connect, notify_connectionfd,
  fd_create, ClientOptions,
}
use mbus.ClientLib.Requests.{note, retry_state}
use mbus.ClientLib.Options.{server_defaults}
use mbus.ClientLib.Commands.{client_command}
use mbus.ClientLib.Reset.{client_reset}
use mbus.ClientLib.Connect.{
  ConnectRc, connect_done, in_progress, try_again, refused, no_entry, other_error, Dial,
  create_payload, command_create_request, connect_failed, note_socket, note_given_up,
  connect_refused, connect_request, connect_socket, open_socket, with_options, with_protocol,
  run_connect,
}
use mbus.ClientLib.Invariant.{Holds, bind_Holds, Sound, state-Sound, retry_state_known}
use mbus.ClientLib.Invariant.Resets.{client_reset-Sound}
use mbus.ClientLib.Invariant.Calls.{command_with_options-Sound}
use mbus.ClientLib.Invariant.Receiving.{SoundRc}

module _ {J : Type 0} (rt : Runtime J) where
  pub create_request-Sound :
      (c : MbusClient J) → Sound rt.cj c → SoundRc rt (command_create_request rt c)
  unfolding command_create_request client_command
  create_request-Sound c s =
      command_with_options-Sound rt c
        (record {
          destination = some server_identifier;
          command = some "command.create";
          payload = some (create_payload rt c.options);
          callback = on_create;
          context = no_context;
          timeout = pos 0;
        })
        tt s

  connect_failed-Sound :
      (c : MbusClient J) (st : ConnectStatus)
      → Sound rt.cj c
      → Holds (SoundRc rt) (connect_failed rt c st)
  unfolding connect_failed note
  connect_failed-Sound c st s =
      bind_Holds (Sound rt.cj) (SoundRc rt) (client_reset rt (note c (notify_connect st))) _
        (client_reset-Sound rt (note c (notify_connect st)) s) (λ c' s'. s')

  note_socket-Sound : (c : MbusClient J) → Sound rt.cj c → Sound rt.cj (note_socket rt c)
  unfolding note_socket note
  note_socket-Sound c s = elim (Option-cases c.socket) [
    | inl n ↦ rw (n, note_socket) s
    | inr (fd, e) ↦ rw (e, note_socket) s
  ]

  pub note_given_up-Sound : (c : MbusClient J) → Sound rt.cj c → Sound rt.cj (note_given_up rt c)
  unfolding note_given_up note
  note_given_up-Sound c s = ground arith

  -- The state after a connection that failed, and the note of giving up.
  pub given_up-Sound :
      (c : MbusClient J)
      → Sound rt.cj c
      → Sound rt.cj (note_given_up rt (record c { state = retry_state c.options }))
  given_up-Sound c s =
      note_given_up-Sound (record c { state = retry_state c.options })
        (state-Sound rt c.state (retry_state c.options) c.sequence c.requests c.pendings
          (retry_state_known rt c.options) s)

  connect_refused-Sound :
      (c : MbusClient J) (st : ConnectStatus)
      → Sound rt.cj c
      → Holds (SoundRc rt) (connect_refused rt c st)
  unfolding connect_refused note
  connect_refused-Sound c st s =
      bind_Holds (Sound rt.cj) (SoundRc rt) (client_reset rt (note c (notify_connect st))) _
        (client_reset-Sound rt (note c (notify_connect st)) s)
        (λ c' s'. note_socket-Sound _ (given_up-Sound c' s'))

  connect_request-Sound :
      (r : MbusClient J × Rc) → SoundRc rt r → Holds (SoundRc rt) (connect_request rt r)
  unfolding connect_request
  connect_request-Sound (c, fail) s = connect_failed-Sound c connect_internal_error s
  connect_request-Sound (c, ok) s = note_socket-Sound c s

  connect_socket-Sound :
      (c : MbusClient J) (r : ConnectRc)
      → Sound rt.cj c
      → Holds (SoundRc rt) (connect_socket rt c r)
  unfolding connect_socket
  connect_socket-Sound c connect_done s =
      connect_request-Sound (command_create_request rt (record c { socket_connected = true }))
        (create_request-Sound (record c { socket_connected = true }) s)
  connect_socket-Sound c in_progress s = note_socket-Sound c s
  connect_socket-Sound c try_again s = connect_refused-Sound c connection_refused s
  connect_socket-Sound c refused s = connect_refused-Sound c connection_refused s
  connect_socket-Sound c no_entry s = connect_refused-Sound c server_unavailable s
  connect_socket-Sound c other_error s = connect_failed-Sound c connect_internal_error s

  open_socket-Sound :
      (d : Dial) (c : MbusClient J) → Sound rt.cj c → Holds (SoundRc rt) (open_socket rt d c)
  unfolding open_socket note
  open_socket-Sound d c s = elim (Option-cases d.socket) [
    | inl n ↦ rw (n, open_socket) (connect_failed-Sound c connect_internal_error s)
    | inr (fd, e) ↦
        let opened = note (record c { socket = some fd }) (notify_connectionfd fd_create) in
        rw (e, open_socket)
          (ground (
            arith,
            connect_failed-Sound opened connect_internal_error s,
            connect_socket-Sound opened d.connect s,
          ))
  ]

  with_options-Sound :
      (d : Dial) (c : MbusClient J) (o : Option ClientOptions)
      → Sound rt.cj c
      → Holds (SoundRc rt) (with_options rt d c o)
  unfolding with_options
  with_options-Sound d c none s = connect_failed-Sound c invalid_protocol s
  with_options-Sound d c (some o) s = open_socket-Sound d (record c { options = o }) s

  with_protocol-Sound :
      (d : Dial) (c : MbusClient J) (p : Option String)
      → Sound rt.cj c
      → Holds (SoundRc rt) (with_protocol rt d c p)
  unfolding with_protocol
  with_protocol-Sound d c none s = tt
  with_protocol-Sound d c (some p) s = with_options-Sound d c (server_defaults c.options p) s

  pub run_connect-Sound :
      (d : Dial) (c : MbusClient J) → Sound rt.cj c → Holds (SoundRc rt) (run_connect rt d c)
  unfolding run_connect
  run_connect-Sound d c s =
      bind_Holds (Sound rt.cj) (SoundRc rt) (client_reset rt c) _ (client_reset-Sound rt c s)
        (λ c' s'. with_protocol-Sound d c' c'.options.server_protocol s')
