-- ===== src/ClientLib/Receive.antt =====
-- mbus_client_handle_result, mbus_client_handle_event and mbus_client_handle_command of
-- src/client/client.c, and the loop of mbus_client_run over the input buffer.
use mbus.Base.{
  ℕ, zero, suc, ◌+◌, Bool, true, false, ◌&&◌, ◌||◌, Option, none, some, List, [], ◌∷◌, String,
  str_eq, ltb, if◌then◌else◌, Exec, done, spin, ◌>>=◌, Rc, ok, fail,
}
use mbus.Base.Int.{ℤ, minus_one, eq_int}
use mbus.Buffer.{Buffer, shift, u32}
use mbus.Frame.{Frame, incomplete, undecodable, message, next_frame}
use mbus.Json.{get_string_value, get_int_value}
use mbus.Method.{
  type_command, type_event, type_result, event_source_all, event_identifier_all, tag_type,
  tag_source, tag_destination, tag_identifier, tag_sequence, tag_payload, tag_status,
}
use mbus.Server.{server_identifier, event_pong}
use mbus.ClientLib.{
  Runtime, MbusClient, Request, LocalRoutine, LocalSubscription, on_nothing, no_context, success,
  notify_message, notify_routine,
}
use mbus.ClientLib.Requests.{note, request_get_sequence}
use mbus.ClientLib.Commands.{client_command}
use mbus.ClientLib.Responses.{client_notify_command}
use mbus.ClientLib.Reset.{client_reset}

-- The callback of a subscription or a routine with its context, or `none` for that of the options.
abbrev callback_of : Option ℕ → ℕ → Option (ℕ × ℕ)
callback_of none context = none
callback_of (some f) context = some (f, context)

unfoldable pub takes_event : LocalSubscription → String → String → Bool
takes_event s source identifier =
    (str_eq s.source event_source_all || str_eq s.source source)
    && (str_eq s.identifier event_identifier_all || str_eq s.identifier identifier)

-- The first subscription that takes the event decides.
unfoldable pub event_callback : List LocalSubscription → String → String → Option (ℕ × ℕ)
unfolding takes_event
event_callback [] source identifier = none
event_callback (s ∷ ss) source identifier =
    let rest = event_callback ss source identifier in
    if takes_event s source identifier then callback_of s.callback s.context else rest

unfoldable pub routine_callback : List LocalRoutine → String → Option (ℕ × ℕ)
routine_callback [] identifier = none
routine_callback (r ∷ rs) identifier =
    let rest = routine_callback rs identifier in
    if str_eq r.identifier identifier then callback_of r.callback r.context else rest

module _ {J : Type 0} (rt : Runtime J) where
  open rt use {cj, zlib, now, serve}

  -- The first pending request with the sequence number, and the others.
  abbrev pub behind_found :
      Request J → Option (Request J × List (Request J)) → Option (Request J × List (Request J))
  behind_found r none = none
  behind_found r (some (found, others)) = some (found, r ∷ others)

  unfoldable pub take_pending : List (Request J) → ℤ → Option (Request J × List (Request J))
  take_pending [] sequence = none
  take_pending (r ∷ rs) sequence =
      let rest = behind_found r (take_pending rs sequence) in
      if eq_int (request_get_sequence rt r) sequence then some (r, rs) else rest

  unfoldable pub handle_result : MbusClient J → J → Exec (MbusClient J)
  unfolding take_pending
  handle_result c json =
      elim (take_pending c.pendings (get_int_value cj (some json) tag_sequence minus_one)) [
        | none ↦ done c
        | some (r, others) ↦
            client_notify_command rt (client_reset rt) (record c { pendings = others }) r
              (some json) success
      ]

  unfoldable pub is_pong : String → String → Bool
  is_pong source identifier = str_eq server_identifier source && str_eq event_pong identifier

  unfoldable pub take_pong : MbusClient J → MbusClient J
  take_pong c = record c { ping_wait_pong = false; pong_recv_tsms = now; pong_missed_count = 0 }

  -- The source and the identifier of a message; both must be there.
  unfoldable pub message_sender : J → Option (String × String)
  message_sender json = elim (get_string_value cj (some json) tag_source none) [
    | none ↦ none
    | some source ↦ elim (get_string_value cj (some json) tag_identifier none) [
      | none ↦ none
      | some identifier ↦ some (source, identifier)
    ]
  ]

  unfoldable pub client_handle_event : MbusClient J → J → MbusClient J × Rc
  unfolding message_sender is_pong take_pong event_callback note
  client_handle_event c json = elim (message_sender json) [
    | none ↦ (c, fail)
    | some (source, identifier) ↦
        if is_pong source identifier
        then (take_pong c, ok)
        else (note c (notify_message (event_callback c.subscriptions source identifier) json), ok)
  ]

  unfoldable pub result_payload : J → String → String → ℤ × Option J → J
  result_payload json source identifier (status, response) =
      let head =
        cj.add_item_to_object
          (cj.add_item_to_object
            (cj.add_item_to_object
              (cj.add_item_to_object cj.create_object tag_destination (cj.create_string source))
              tag_identifier (cj.create_string identifier))
            tag_sequence (cj.create_number (get_int_value cj (some json) tag_sequence minus_one)))
          tag_status (cj.create_number status) in
      elim response [
        | none ↦ head
        | some p ↦ cj.add_item_to_object head tag_payload (cj.duplicate p)
      ]

  -- The routine runs, and its status and payload go back in a command to the server.
  unfoldable pub run_routine : MbusClient J → J → String → String → MbusClient J × Rc
  unfolding routine_callback result_payload note
  run_routine c json source identifier =
      let callback = routine_callback c.routines identifier in
      client_command rt (note c (notify_routine callback json)) server_identifier "command.result"
        (some (result_payload json source identifier (serve callback json))) on_nothing no_context

  unfoldable pub client_handle_command : MbusClient J → J → MbusClient J × Rc
  unfolding message_sender is_pong take_pong run_routine
  client_handle_command c json = elim (message_sender json) [
    | none ↦ (c, fail)
    | some (source, identifier) ↦
        if is_pong source identifier
        then (take_pong c, ok)
        else run_routine c json source identifier
  ]

  -- The message by its type; `fail` is `goto incoming_bail`.
  unfoldable pub handle_message : MbusClient J → J → Exec (MbusClient J × Rc)
  unfolding handle_result client_handle_event client_handle_command
  handle_message c json = elim (get_string_value cj (some json) tag_type none) [
    | none ↦ done (c, fail)
    | some type ↦
        if str_eq type type_result
        then (handle_result c json >>= λ c'. done (c', ok))
        else if str_eq type type_event
        then done (client_handle_event c json)
        else if str_eq type type_command
        then done (client_handle_command c json)
        else done (c, fail)
  ]

  unfoldable pub handle_text : MbusClient J → List ℕ → Exec (MbusClient J × Rc)
  unfolding handle_message
  handle_text c text = elim (cj.parse text) [
    | none ↦ done (c, fail)
    | some json ↦ handle_message c json
  ]

  unfoldable pub handle_shifted :
      MbusClient J → List ℕ → Buffer × Rc → Exec (MbusClient J × Rc × Bool)
  unfolding handle_text
  handle_shifted c text (b, fail) = done (record c { incoming = b }, fail, false)
  handle_shifted c text (b, ok) =
      handle_text (record c { incoming = b }) text >>= λ h. done (h.0, h.1, true)

  -- A message is off the buffer before it is handled; the last part says whether the loop goes on.
  unfoldable pub take_frame : MbusClient J → Frame → Exec (MbusClient J × Rc × Bool)
  unfolding handle_shifted
  take_frame c incomplete = done (c, ok, false)
  take_frame c undecodable = done (c, fail, false)
  take_frame c (message text n) = shift c.incoming (u32 (4 + n)) >>= handle_shifted c text

  unfoldable pub go_on :
      (MbusClient J → Exec (MbusClient J × Rc))
      → MbusClient J × Rc × Bool
      → Exec (MbusClient J × Rc)
  go_on next (c, fail, more) = done (c, fail)
  go_on next (c, ok, false) = done (c, ok)
  go_on next (c, ok, true) = next c

  -- `while (mbus_buffer_get_length(client->incoming) >= 4)`: a round that goes on takes bytes off.
  unfoldable pub incoming_loop : ℕ → MbusClient J → Exec (MbusClient J × Rc)
  unfolding take_frame go_on
  incoming_loop zero c = spin
  incoming_loop (suc fuel) c =
      if ltb c.incoming.length 4
      then done (c, ok)
      else (next_frame zlib c.compression c.incoming >>= λ f.
          take_frame c f >>= go_on (λ c'. incoming_loop fuel c'))

  unfoldable pub handle_incoming : MbusClient J → Exec (MbusClient J × Rc)
  unfolding incoming_loop
  handle_incoming c = incoming_loop (suc c.incoming.length) c
