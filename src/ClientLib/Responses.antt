-- ===== src/ClientLib/Responses.antt =====
-- The callbacks that src/client/client.c gives its own commands, mbus_client_command_*_response,
-- and mbus_client_notify_command, which calls the callback of a request.
--
-- mbus_client_reset is an argument here, since it calls mbus_client_notify_command in turn. A
-- context of another type than the callback expects is a fault, and so is a read of a routine or
-- subscription that was destroyed.
use mbus.Base.{
  Bool, true, false, Option, none, some, List, [], ◌∷◌, ◌++◌, String, str_eq, ◌&&◌, if◌then◌else◌,
  Exec, done, fault, ◌>>=◌,
}
use mbus.Base.Int.{ℤ, pos, minus_one, eq_int}
use mbus.Compress.{method_value}
use mbus.Json.{codes, get_object, get_string_value, get_int_value}
use mbus.Method.{tag_payload, tag_status}
use mbus.ClientLib.{
  Runtime, MbusClient, Request, LocalRoutine, LocalSubscription, Callback, on_nothing, on_register,
  on_unregister, on_subscribe, on_unsubscribe, on_event, on_create, on_user, Context, no_context,
  routine_context, subscription_context, RequestStatus, success, internal_error, timed_out,
  canceled, ConnectStatus, connect_success, connect_internal_error, connect_timeout,
  connect_canceled, server_error, notify_publish, notify_subscribe, notify_unsubscribe,
  notify_registered, notify_unregistered, notify_result, notify_connect, connected,
}
use mbus.ClientLib.Requests.{note, retry_state, request_get_payload}

-- TAILQ_REMOVE of the routine or subscription that was found when its command was queued.
unfoldable pub remove_routine : List LocalRoutine → String → List LocalRoutine
remove_routine [] identifier = []
remove_routine (r ∷ rs) identifier =
    let rest = remove_routine rs identifier in
    if str_eq r.identifier identifier then rs else r ∷ rest

unfoldable pub remove_local : List LocalSubscription → String → String → List LocalSubscription
remove_local [] source event = []
remove_local (s ∷ ss) source event =
    let rest = remove_local ss source event in
    if str_eq s.source source && str_eq s.identifier event then ss else s ∷ rest

module _ {J : Type 0} (rt : Runtime J) where
  open rt use {cj, zlib}

  unfoldable pub response_status : Option J → ℤ
  response_status response = get_int_value cj response tag_status minus_one

  -- The status that the program hears of.
  unfoldable pub cstatus : RequestStatus → Option J → RequestStatus
  unfolding response_status
  cstatus success response =
      if eq_int (response_status response) (pos 0) then success else internal_error
  cstatus internal_error response = internal_error
  cstatus timed_out response = timed_out
  cstatus canceled response = canceled

  abbrev pub is_success : RequestStatus → Bool
  is_success success = true
  is_success _ = false

  -- What routine_get_identifier returns after routine_destroy.
  abbrev pub destroyed : Context → Exec (Option String)
  destroyed no_context = done none
  destroyed _ = fault

  unfoldable pub command_register_response :
      MbusClient J → Context → Option J → RequestStatus → Exec (MbusClient J)
  unfolding cstatus note
  command_register_response c context response status =
      let st = cstatus status response in
      if is_success st
      then elim context [
        | routine_context r ↦ done (
            note (record c { routines = c.routines ++ (r ∷ []) })
              (notify_registered (some r.identifier) st))
        | _ ↦ fault
      ]
      else destroyed context >>= λ name. done (note c (notify_registered name st))

  unfoldable pub command_unregister_response :
      MbusClient J → Context → Option J → RequestStatus → Exec (MbusClient J)
  unfolding cstatus note remove_routine
  command_unregister_response c context response status =
      let st = cstatus status response in
      elim context [
        | routine_context r ↦
            if is_success st
            then (destroyed (routine_context r) >>= λ name. done (
                note (record c { routines = remove_routine c.routines r.identifier })
                  (notify_unregistered name st)))
            else done (note c (notify_unregistered (some r.identifier) st))
        | no_context ↦ if is_success st then fault else done (note c (notify_unregistered none st))
        | _ ↦ fault
      ]

  unfoldable pub command_subscribe_response :
      MbusClient J → Context → Option J → RequestStatus → Exec (MbusClient J)
  unfolding cstatus note
  command_subscribe_response c context response status =
      let st = cstatus status response in
      if is_success st
      then elim context [
        | subscription_context s ↦ done (
            note (record c { subscriptions = c.subscriptions ++ (s ∷ []) })
              (notify_subscribe (some s.source) (some s.identifier) st))
        | _ ↦ fault
      ]
      else destroyed context >>= λ name. done (note c (notify_subscribe name name st))

  unfoldable pub command_unsubscribe_response :
      MbusClient J → Context → Option J → RequestStatus → Exec (MbusClient J)
  unfolding cstatus note remove_local
  command_unsubscribe_response c context response status =
      let st = cstatus status response in
      elim context [
        | subscription_context s ↦
            if is_success st
            then (destroyed (subscription_context s) >>= λ name. done (
                note
                  (record c { subscriptions = remove_local c.subscriptions s.source s.identifier })
                  (notify_unsubscribe name name st)))
            else done (note c (notify_unsubscribe (some s.source) (some s.identifier) st))
        | no_context ↦
            if is_success st then fault else done (note c (notify_unsubscribe none none st))
        | _ ↦ fault
      ]

  unfoldable pub command_event_response :
      MbusClient J → Request J → Option J → RequestStatus → MbusClient J
  unfolding cstatus note
  command_event_response c r response status =
      note c (notify_publish (request_get_payload rt r) (cstatus status response))

  -- The fields that the answer to command.create sets.
  unfoldable pub take_created : MbusClient J → J → String → MbusClient J
  take_created c response identifier = record c {
    identifier = some identifier;
    compression =
        method_value zlib (get_string_value cj (some response) "compression" (some "none"));
    ping_interval = get_int_value cj (some response) "ping/interval" minus_one;
    ping_timeout = get_int_value cj (some response) "ping/timeout" minus_one;
    ping_threshold = get_int_value cj (some response) "ping/threshold" minus_one;
    state = connected;
  }

  abbrev pub connect_status : RequestStatus → ConnectStatus
  connect_status success = connect_success
  connect_status internal_error = connect_internal_error
  connect_status timed_out = connect_timeout
  connect_status canceled = connect_canceled

  module _ (reset : MbusClient J → Exec (MbusClient J)) where
    -- The call of notify_connect, and `bail`.
    unfoldable pub create_failed : MbusClient J → ConnectStatus → Exec (MbusClient J)
    unfolding note retry_state
    create_failed c status = reset (note c (notify_connect status)) >>= λ c'.
        done (record c' { state = retry_state c'.options })

    -- The answer with the status 0.
    unfoldable pub create_answered : MbusClient J → Option J → Exec (MbusClient J)
    unfolding create_failed take_created note
    create_answered c response = elim (get_object cj response (codes tag_payload)) [
      | none ↦ create_failed c server_error
      | some payload ↦ elim (get_string_value cj (some payload) "identifier" none) [
        | none ↦ create_failed c server_error
        | some identifier ↦
            done (note (take_created c payload identifier) (notify_connect connect_success))
      ]
    ]

    unfoldable pub command_create_response :
        MbusClient J → Option J → RequestStatus → Exec (MbusClient J)
    unfolding create_failed create_answered response_status
    command_create_response c response status =
        if is_success status
        then (if eq_int (response_status response) (pos 0)
            then create_answered c response
            else create_failed c server_error)
        else create_failed c (connect_status status)

    -- The call of a callback, NULL being that of the options.
    unfoldable pub call_back :
        Callback → MbusClient J → Request J → Option J → RequestStatus → Exec (MbusClient J)
    unfolding command_register_response command_unregister_response command_subscribe_response
        command_unsubscribe_response command_event_response command_create_response note
    call_back on_nothing c r response status =
        done (note c (notify_result none r.json response status))
    call_back (on_user f) c r response status =
        done (note c (notify_result (some (f, r.context)) r.json response status))
    call_back on_register c r response status =
        command_register_response c r.context response status
    call_back on_unregister c r response status =
        command_unregister_response c r.context response status
    call_back on_subscribe c r response status =
        command_subscribe_response c r.context response status
    call_back on_unsubscribe c r response status =
        command_unsubscribe_response c r.context response status
    call_back on_event c r response status = done (command_event_response c r response status)
    call_back on_create c r response status = command_create_response c response status

    -- mbus_client_notify_command.
    unfoldable pub client_notify_command :
        MbusClient J → Request J → Option J → RequestStatus → Exec (MbusClient J)
    unfolding call_back
    client_notify_command c r response status = call_back r.callback c r response status
