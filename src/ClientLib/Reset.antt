-- ===== src/ClientLib/Reset.antt =====
-- mbus_client_reset of src/client/client.c, and what becomes of a request that is taken out before
-- it has an answer: the same code stands in mbus_client_reset, where the status is `canceled`, and
-- in mbus_client_run, where it is `timed_out`.
use mbus.Base.{
  ℕ, zero, suc, ◌+◌, false, Option, none, some, List, [], ◌∷◌, String, length, Exec, done, fault,
  spin, ◌>>=◌,
}
use mbus.Base.Int.{pos}
use mbus.Buffer.{reset}
use mbus.Compress.{method_none}
use mbus.Json.{get_string_value}
use mbus.Method.{type_command, type_event, sequence_start}
use mbus.Server.{server_identifier, event_ping}
use mbus.ClientLib.{
  Runtime, MbusClient, Request, LocalRoutine, LocalSubscription, Context, no_context,
  routine_context, subscription_context, RequestStatus, canceled, notify_publish, notify_subscribe,
  notify_unsubscribe, notify_registered, notify_unregistered, notify_connectionfd, fd_destroy,
}
use mbus.ClientLib.Requests.{
  strcmp_case, note, request_get_type, request_get_destination, request_get_identifier,
  request_get_payload,
}
use mbus.ClientLib.Responses.{client_notify_command}

-- subscription_destroy and routine_destroy of a context.
abbrev pub destroy_subscription {ℓ} : {A : Type ℓ} → Context → A → Exec A
destroy_subscription no_context a = done a
destroy_subscription (subscription_context s) a = done a
destroy_subscription _ a = fault

abbrev pub destroy_routine {ℓ} : {A : Type ℓ} → Context → A → Exec A
destroy_routine no_context a = done a
destroy_routine (routine_context r) a = done a
destroy_routine _ a = fault

module _ {J : Type 0} (rt : Runtime J) where
  open rt use {cj}

  -- A member of the payload of a request.
  unfoldable pub payload_string : Request J → String → Option String
  payload_string r name = get_string_value cj (request_get_payload rt r) name none

  -- An event is reported unless it goes to the server or has the name of a ping.
  unfoldable pub conclude_event : MbusClient J → Request J → RequestStatus → Exec (MbusClient J)
  unfolding strcmp_case note
  conclude_event c r status =
      strcmp_case (request_get_destination rt r) server_identifier (done c) (
        strcmp_case (request_get_identifier rt r) event_ping (done c)
          (done (note c (notify_publish (some r.json) status))))

  module _ (again : MbusClient J → Exec (MbusClient J)) where
    unfoldable pub conclude_command : MbusClient J → Request J → RequestStatus → Exec (MbusClient J)
    unfolding strcmp_case note payload_string
    conclude_command c r status =
        let identifier = request_get_identifier rt r in
        strcmp_case identifier "command.event"
          (done (note c (notify_publish (request_get_payload rt r) status)))
          (strcmp_case identifier "command.subscribe"
            (destroy_subscription r.context (
              note c
                (notify_subscribe (payload_string r "source") (payload_string r "event") status)))
            (strcmp_case identifier "command.unsubscribe"
              (done (
                note c (
                  notify_unsubscribe (payload_string r "source") (payload_string r "event")
                    status)))
              (strcmp_case identifier "command.register"
                (destroy_routine r.context
                  (note c (notify_registered (payload_string r "command") status)))
                (strcmp_case identifier "command.unregister"
                  (done (note c (notify_unregistered (payload_string r "command") status)))
                  (client_notify_command rt again c r none status)))))

    unfoldable pub conclude : MbusClient J → Request J → RequestStatus → Exec (MbusClient J)
    unfolding strcmp_case conclude_event conclude_command
    conclude c r status =
        strcmp_case (request_get_type rt r) type_event (conclude_event c r status)
          (strcmp_case (request_get_type rt r) type_command (conclude_command c r status) (done c))

    -- The round on `r`, where TAILQ_FOREACH_SAFE has saved the request behind it: if the list has
    -- been emptied meanwhile, that one was destroyed, and the next round is a fault.
    unfoldable pub still :
        List (Request J) → List (Request J) → Exec (MbusClient J) → Exec (MbusClient J)
    still [] left next = next
    still (n ∷ saved) [] next = fault
    still (n ∷ saved) (l ∷ left) next = next

    unfoldable pub cancel_requests : List (Request J) → MbusClient J → Exec (MbusClient J)
    unfolding conclude still
    cancel_requests [] c = done c
    cancel_requests (r ∷ rest) c = conclude (record c { requests = rest }) r canceled >>= λ c'.
        still rest c'.requests (cancel_requests rest c')

    unfoldable pub cancel_pendings : List (Request J) → MbusClient J → Exec (MbusClient J)
    unfolding conclude still
    cancel_pendings [] c = done c
    cancel_pendings (r ∷ rest) c = conclude (record c { pendings = rest }) r canceled >>= λ c'.
        still rest c'.pendings (cancel_pendings rest c')

  unfoldable pub drop_routines : List LocalRoutine → MbusClient J → MbusClient J
  unfolding note
  drop_routines [] c = c
  drop_routines (r ∷ rest) c =
      drop_routines rest
        (note (record c { routines = rest }) (notify_unregistered (some r.identifier) canceled))

  unfoldable pub drop_subscriptions : List LocalSubscription → MbusClient J → MbusClient J
  unfolding note
  drop_subscriptions [] c = c
  drop_subscriptions (s ∷ rest) c = drop_subscriptions rest (
      note (record c { subscriptions = rest })
        (notify_unsubscribe (some s.source) (some s.identifier) canceled))

  -- Nothing is heard where there is no socket.
  unfoldable pub note_destroy : Option ℕ → MbusClient J → MbusClient J
  unfolding note
  note_destroy none c = c
  note_destroy (some fd) c = note c (notify_connectionfd fd_destroy)

  -- The socket and the buffers.
  unfoldable pub close_socket : MbusClient J → MbusClient J
  unfolding note_destroy
  close_socket c = record (note_destroy c.socket c) {
    socket = none;
    incoming = reset c.incoming;
    outgoing = reset c.outgoing;
  }

  unfoldable pub clear_fields : MbusClient J → MbusClient J
  clear_fields c = record c {
    identifier = none;
    ping_interval = pos 0;
    ping_timeout = pos 0;
    ping_threshold = pos 0;
    ping_send_tsms = 0;
    pong_recv_tsms = 0;
    ping_wait_pong = false;
    pong_missed_count = 0;
    sequence = sequence_start;
    compression = method_none;
    socket_connected = false;
  }

  -- The routines, the subscriptions and the fields.
  unfoldable pub forget : MbusClient J → MbusClient J
  unfolding drop_routines drop_subscriptions clear_fields
  forget c =
      let c' = drop_routines c.routines c in clear_fields (drop_subscriptions c'.subscriptions c')

  -- A reset within a reset has at least one request less, so their number is fuel enough.
  unfoldable pub reset_within : ℕ → MbusClient J → Exec (MbusClient J)
  unfolding cancel_requests cancel_pendings close_socket forget
  reset_within zero c = spin
  reset_within (suc fuel) c =
      cancel_requests (reset_within fuel) c.requests (close_socket c) >>= λ c'.
      cancel_pendings (reset_within fuel) c'.pendings c' >>= λ c''. done (forget c'')

  unfoldable pub client_reset : MbusClient J → Exec (MbusClient J)
  unfolding reset_within
  client_reset c = reset_within (suc (length c.requests + length c.pendings)) c
