-- ===== src/ClientLib/Ends.antt =====
-- About what src/client/client.c does with a request that mbus_client_reset has taken out, the reset
-- included that the callback of mbus_client_command_create begins in turn.
pub mod Reset
pub mod Timers
use mbus.Base.{
  ℕ, zero, suc, ◌+◌, ◌≤◌, ◌<◌, ◌≡◌, refl, Bool, true, false, Option, none, some, List, [], ◌∷◌,
  ◌++◌, length, Option-cases, inl, inr, Exec, done, fault, spin, ◌>>=◌, if◌then◌else◌, arith,
}
use mbus.Base.Int.{eq_int, pos}
use mbus.Json.{codes, get_object, get_string_value}
use mbus.Method.{tag_payload}
use mbus.ClientLib.{
  Runtime, MbusClient, Request, LocalRoutine, LocalSubscription, Context, Callback, on_nothing,
  on_register, on_unregister, on_subscribe, on_unsubscribe, on_event, on_create, on_user,
  RequestStatus, canceled, ConnectStatus, server_error, notify_connect,
}
use mbus.ClientLib.Requests.{strcmp_case, note}
use mbus.ClientLib.Responses.{
  response_status, take_created, is_success, command_register_response, command_unregister_response,
  command_subscribe_response, command_unsubscribe_response, command_event_response, create_failed,
  create_answered, command_create_response, call_back, client_notify_command, connect_status,
}
use mbus.ClientLib.Reset.{
  conclude_event, conclude_command, conclude, still, cancel_requests, cancel_pendings,
  drop_routines, drop_subscriptions, note_destroy, close_socket, clear_fields, forget, reset_within,
  client_reset,
}

-- The run ends, and a value that it ends with has the property.
abbrev pub Halts {ℓ} : {A : Type ℓ} → (A → Type 0) → Exec A → Type 0
Halts P (done a) = P a
Halts P fault = Unit
Halts P spin = ⊥

pub bind_Halts {ℓ κ} :
    {A : Type ℓ} {B : Type κ} (P : A → Type 0) (Q : B → Type 0) (x : Exec A) (f : A → Exec B)
    → Halts P x
    → ((a : A) → P a → Halts Q (f a))
    → Halts Q (x >>= f)
bind_Halts P Q (done a) f h k = k a h
bind_Halts P Q fault f h k = tt
bind_Halts P Q spin f h k = elim h [ ]

pub if_Halts {ℓ} :
    {A : Type ℓ} (P : A → Type 0) (b : Bool) (x y : Exec A)
    → Halts P x
    → Halts P y
    → Halts P (if b then x else y)
if_Halts P true x y h k = h
if_Halts P false x y h k = k

module _ {J : Type 0} (rt : Runtime J) where
  abbrev pub queued : MbusClient J → ℕ
  queued c = length c.requests + length c.pendings

  -- Neither list is longer than it was, and there is no socket if there was none.
  abbrev pub Shrunk : MbusClient J → MbusClient J → Type 0
  Shrunk c c' =
      (length c'.requests ≤ length c.requests)
      × (length c'.pendings ≤ length c.pendings)
      × (c.socket ≡ none → c'.socket ≡ none)

  -- Nothing is queued, nothing waits for an answer, and there is no socket.
  abbrev pub IsEmptied : MbusClient J → Type 0
  IsEmptied c = (length c.requests ≡ 0) × (length c.pendings ≡ 0) × (c.socket ≡ none)

  register_response-Shrunk :
      (c : MbusClient J) (target : Context) (response : Option J) (st : RequestStatus)
      → Halts (Shrunk c) (command_register_response rt c target response st)
  unfolding command_register_response note
  register_response-Shrunk c target response st = ground arith

  unregister_response-Shrunk :
      (c : MbusClient J) (target : Context) (response : Option J) (st : RequestStatus)
      → Halts (Shrunk c) (command_unregister_response rt c target response st)
  unfolding command_unregister_response note
  unregister_response-Shrunk c target response st = ground arith

  subscribe_response-Shrunk :
      (c : MbusClient J) (target : Context) (response : Option J) (st : RequestStatus)
      → Halts (Shrunk c) (command_subscribe_response rt c target response st)
  unfolding command_subscribe_response note
  subscribe_response-Shrunk c target response st = ground arith

  unsubscribe_response-Shrunk :
      (c : MbusClient J) (target : Context) (response : Option J) (st : RequestStatus)
      → Halts (Shrunk c) (command_unsubscribe_response rt c target response st)
  unfolding command_unsubscribe_response note
  unsubscribe_response-Shrunk c target response st = ground arith

  -- The run ends on every client with fewer requests than `n`.
  abbrev pub EndsBelow : ℕ → (MbusClient J → Exec (MbusClient J)) → Type 0
  EndsBelow n f = (c : MbusClient J) → queued c < n → Halts IsEmptied (f c)

  module _ (n : ℕ) (again : MbusClient J → Exec (MbusClient J)) (ends : EndsBelow n again) where
    create_failed-Shrunk :
        (c : MbusClient J) (st : ConnectStatus)
        → queued c < n
        → Halts (Shrunk c) (create_failed rt again c st)
    unfolding create_failed note
    create_failed-Shrunk c st h =
        bind_Halts IsEmptied (Shrunk c) (again (note c (notify_connect st))) _
          (ends (note c (notify_connect st)) h) (λ c' e. (omega arith, omega arith, λ _. e.2))

    create_answered-Shrunk :
        (c : MbusClient J) (response : Option J)
        → queued c < n
        → Halts (Shrunk c) (create_answered rt again c response)
    unfolding create_answered take_created note
    create_answered-Shrunk c response h =
        elim (Option-cases (get_object rt.cj response (codes tag_payload))) [
          | inl e ↦ rw (e, create_answered) (create_failed-Shrunk c server_error h)
          | inr (payload, e) ↦
              elim (Option-cases (get_string_value rt.cj (some payload) "identifier" none)) [
                | inl f ↦ rw (e, f, create_answered) (create_failed-Shrunk c server_error h)
                | inr (name, f) ↦ rw (e, f, create_answered) (omega arith, omega arith, λ e. e)
              ]
        ]

    create_response-Shrunk :
        (c : MbusClient J) (response : Option J) (st : RequestStatus)
        → queued c < n
        → Halts (Shrunk c) (command_create_response rt again c response st)
    unfolding command_create_response
    create_response-Shrunk c response st h =
        if_Halts (Shrunk c) (is_success rt st) _ _
          (if_Halts (Shrunk c) (eq_int (response_status rt response) (pos 0)) _ _
            (create_answered-Shrunk c response h) (create_failed-Shrunk c server_error h))
          (create_failed-Shrunk c (connect_status rt st) h)

    call_back-Shrunk :
        (b : Callback) (c : MbusClient J) (r : Request J) (response : Option J) (st : RequestStatus)
        → queued c < n
        → Halts (Shrunk c) (call_back rt again b c r response st)
    unfolding call_back command_event_response note
    call_back-Shrunk on_nothing c r response st h = (omega arith, omega arith, λ e. e)
    call_back-Shrunk (on_user f) c r response st h = (omega arith, omega arith, λ e. e)
    call_back-Shrunk on_register c r response st h =
        register_response-Shrunk c r.context response st
    call_back-Shrunk on_unregister c r response st h =
        unregister_response-Shrunk c r.context response st
    call_back-Shrunk on_subscribe c r response st h =
        subscribe_response-Shrunk c r.context response st
    call_back-Shrunk on_unsubscribe c r response st h =
        unsubscribe_response-Shrunk c r.context response st
    call_back-Shrunk on_event c r response st h = (omega arith, omega arith, λ e. e)
    call_back-Shrunk on_create c r response st h = create_response-Shrunk c response st h

    conclude_event-Shrunk :
        (c : MbusClient J) (r : Request J) (st : RequestStatus)
        → Halts (Shrunk c) (conclude_event rt c r st)
    unfolding conclude_event note strcmp_case
    conclude_event-Shrunk c r st = ground arith

    conclude_command-Shrunk :
        (c : MbusClient J) (r : Request J) (st : RequestStatus)
        → queued c < n
        → Halts (Shrunk c) (conclude_command rt again c r st)
    unfolding conclude_command client_notify_command note strcmp_case
    conclude_command-Shrunk c r st h = ground (arith, call_back-Shrunk r.callback c r none st h)

    pub conclude-Shrunk :
        (c : MbusClient J) (r : Request J) (st : RequestStatus)
        → queued c < n
        → Halts (Shrunk c) (conclude rt again c r st)
    unfolding conclude strcmp_case
    conclude-Shrunk c r st h =
        ground (arith, conclude_event-Shrunk c r st, conclude_command-Shrunk c r st h)
