-- ===== src/ClientLib/Invariant.antt =====
-- The invariant of `struct mbus_client` of src/client/client.c, and mbus_client_reset.
pub mod Resets
pub mod Calls
pub mod Receiving
pub mod Waiting
pub mod Dialing
pub mod Rounds
pub mod Reach
use mbus.Base.{
  ℕ, zero, suc, ◌+◌, ◌≤◌, ◌<◌, ◌≡◌, ◌≢◌, refl, Bool, true, false, Option, none, some, List, [], ◌∷◌,
  ◌++◌, inl, inr, String, str_eq, length, if◌then◌else◌, Bool-cases, Option-cases, All, Exec, done,
  fault, spin, ◌>>=◌, Rc, ok, fail, arith,
}
use mbus.Base.Int.{is_neg, is_le_zero, eq_int, pos}
use mbus.Json.{CJson, codes, get_object, get_string_value}
use mbus.Method.{sequence_start, sequence_end, type_event, type_command, tag_payload}
use mbus.Server.{server_identifier, event_ping}
use mbus.ClientLib.{
  Runtime, MbusClient, Request, Callback, on_nothing, on_register, on_unregister, on_subscribe,
  on_unsubscribe, on_event, on_create, on_user, Context, no_context, user_context, routine_context,
  subscription_context, LocalRoutine, LocalSubscription, ClientState, unknown_state, connected,
  RequestStatus, success, ConnectStatus, server_error, notify_connect, canceled, ClientOptions,
}
use mbus.ClientLib.Requests.{
  note, retry_state, strcmp_case, request_get_type, request_get_destination, request_get_identifier,
}
use mbus.ClientLib.Responses.{
  cstatus, response_status, take_created, is_success, command_register_response,
  command_unregister_response, command_subscribe_response, command_unsubscribe_response,
  command_event_response, create_failed, create_answered, command_create_response, call_back,
  client_notify_command, connect_status,
}
use mbus.ClientLib.Reset.{
  destroy_subscription, destroy_routine, conclude_event, conclude_command, conclude,
  cancel_requests, cancel_pendings, drop_routines, drop_subscriptions, close_socket, clear_fields,
  forget, reset_within, client_reset, still,
}

-- The property of every value that a run ends with.
abbrev pub Holds {ℓ} : {A : Type ℓ} → (A → Type 0) → Exec A → Type 0
Holds P (done a) = P a
Holds P fault = Unit
Holds P spin = Unit

pub bind_Holds {ℓ κ} :
    {A : Type ℓ} {B : Type κ} (P : A → Type 0) (Q : B → Type 0) (x : Exec A) (f : A → Exec B)
    → Holds P x
    → ((a : A) → P a → Holds Q (f a))
    → Holds Q (x >>= f)
bind_Holds P Q (done a) f h k = k a h
bind_Holds P Q fault f h k = tt
bind_Holds P Q spin f h k = tt

-- Nothing is claimed of the value.
pub any_Holds {ℓ} : {A : Type ℓ} (x : Exec A) → Holds (λ _. Unit) x
any_Holds (done a) = tt
any_Holds fault = tt
any_Holds spin = tt

pub if_Holds {ℓ} :
    {A : Type ℓ} (P : A → Type 0) (b : Bool) (x y : Exec A)
    → Holds P x
    → Holds P y
    → Holds P (if b then x else y)
if_Holds P true x y h k = h
if_Holds P false x y h k = k

-- The library's callbacks have contexts of their types.
abbrev pub Fits : Callback → Context → Type 0
Fits on_register target = (r : LocalRoutine) × (target ≡ routine_context r)
Fits on_unregister target = (r : LocalRoutine) × (target ≡ routine_context r)
Fits on_subscribe target = (s : LocalSubscription) × (target ≡ subscription_context s)
Fits on_unsubscribe target = (s : LocalSubscription) × (target ≡ subscription_context s)
Fits on_event target = Unit
Fits on_create target = Unit
Fits on_nothing target = Unit
Fits (on_user f) target = Unit

module _ {J : Type 0} (cj : CJson J) where
  pub record IsWell (r : Request J) : Type 0 where
    pub fits : Fits r.callback r.context
    pub timeout : is_neg r.timeout ≡ false
    pub printed : cj.print_unformatted r.json ≡ some r.string

  pub record SoundAt (state : ClientState) (sequence : ℕ) (queued waiting : List (Request J))
      : Type 0 where
    pub known : state ≢ unknown_state
    pub low : sequence_start ≤ sequence
    pub high : sequence < sequence_end
    pub requests : All IsWell queued
    pub pendings : All IsWell waiting

  abbrev pub Sound : MbusClient J → Type 0
  Sound c = SoundAt c.state c.sequence c.requests c.pendings

module _ {J : Type 0} (rt : Runtime J) where
  open rt use {cj}

  pub state-Sound :
      (st st' : ClientState) (n : ℕ) (q p : List (Request J))
      → st' ≢ unknown_state
      → SoundAt cj st n q p
      → SoundAt cj st' n q p
  state-Sound st st' n q p k s = record {
    known = k;
    low = s.low;
    high = s.high;
    requests = s.requests;
    pendings = s.pendings;
  }

  pub requests-Sound :
      (st : ClientState) (n : ℕ) (q q' p : List (Request J))
      → All (IsWell cj) q'
      → SoundAt cj st n q p
      → SoundAt cj st n q' p
  requests-Sound st n q q' p h s = record {
    known = s.known;
    low = s.low;
    high = s.high;
    requests = h;
    pendings = s.pendings;
  }

  pub pendings-Sound :
      (st : ClientState) (n : ℕ) (q p p' : List (Request J))
      → All (IsWell cj) p'
      → SoundAt cj st n q p
      → SoundAt cj st n q p'
  pendings-Sound st n q p p' h s = record {
    known = s.known;
    low = s.low;
    high = s.high;
    requests = s.requests;
    pendings = h;
  }

  pub retry_state_known : (o : ClientOptions) → retry_state o ≢ unknown_state
  unfolding retry_state
  retry_state_known o = ground arith

  register_response-Sound :
      (c : MbusClient J) (target : Context) (response : Option J) (st : RequestStatus)
      → Sound cj c
      → Holds (Sound cj) (command_register_response rt c target response st)
  unfolding command_register_response note
  register_response-Sound c target response st s = ground arith

  unregister_response-Sound :
      (c : MbusClient J) (target : Context) (response : Option J) (st : RequestStatus)
      → Sound cj c
      → Holds (Sound cj) (command_unregister_response rt c target response st)
  unfolding command_unregister_response note
  unregister_response-Sound c target response st s = ground arith

  subscribe_response-Sound :
      (c : MbusClient J) (target : Context) (response : Option J) (st : RequestStatus)
      → Sound cj c
      → Holds (Sound cj) (command_subscribe_response rt c target response st)
  unfolding command_subscribe_response note
  subscribe_response-Sound c target response st s = ground arith

  unsubscribe_response-Sound :
      (c : MbusClient J) (target : Context) (response : Option J) (st : RequestStatus)
      → Sound cj c
      → Holds (Sound cj) (command_unsubscribe_response rt c target response st)
  unfolding command_unsubscribe_response note
  unsubscribe_response-Sound c target response st s = ground arith

  abbrev pub KeepsSound : (MbusClient J → Exec (MbusClient J)) → Type 0
  KeepsSound f = (c : MbusClient J) → Sound cj c → Holds (Sound cj) (f c)

  module _ (again : MbusClient J → Exec (MbusClient J)) (keeps : KeepsSound again) where
    create_failed-Sound :
        (c : MbusClient J) (st : ConnectStatus)
        → Sound cj c
        → Holds (Sound cj) (create_failed rt again c st)
    unfolding create_failed note
    create_failed-Sound c st s =
        bind_Holds (Sound cj) (Sound cj) (again (note c (notify_connect st)))
          (λ c'. done (record c' { state = retry_state c'.options }))
          (keeps (note c (notify_connect st)) s)
          (λ c' s'.
            state-Sound c'.state (retry_state c'.options) _ _ _ (retry_state_known c'.options) s')

    create_answered-Sound :
        (c : MbusClient J) (response : Option J)
        → Sound cj c
        → Holds (Sound cj) (create_answered rt again c response)
    unfolding create_answered take_created note
    create_answered-Sound c response s =
        elim (Option-cases (get_object rt.cj response (codes tag_payload))) [
          | inl n ↦ rw (n, create_answered) (create_failed-Sound c server_error s)
          | inr (payload, e) ↦
              elim (Option-cases (get_string_value rt.cj (some payload) "identifier" none)) [
                | inl n ↦ rw (e, n, create_answered) (create_failed-Sound c server_error s)
                | inr (name, f) ↦
                    rw (e, f, create_answered)
                      (state-Sound c.state connected _ _ _ (λ h. absurd (ground (arith, h))) s)
              ]
        ]

    create_response-Sound :
        (c : MbusClient J) (response : Option J) (st : RequestStatus)
        → Sound cj c
        → Holds (Sound cj) (command_create_response rt again c response st)
    unfolding command_create_response
    create_response-Sound c response st s =
        if_Holds (Sound cj) (is_success rt st) _ _
          (if_Holds (Sound cj) (eq_int (response_status rt response) (pos 0)) _ _
            (create_answered-Sound c response s) (create_failed-Sound c server_error s))
          (create_failed-Sound c (connect_status rt st) s)

    call_back-Sound :
        (b : Callback) (c : MbusClient J) (r : Request J) (response : Option J) (st : RequestStatus)
        → Sound cj c
        → Holds (Sound cj) (call_back rt again b c r response st)
    unfolding call_back command_event_response note
    call_back-Sound on_nothing c r response st s = s
    call_back-Sound (on_user f) c r response st s = s
    call_back-Sound on_register c r response st s =
        register_response-Sound c r.context response st s
    call_back-Sound on_unregister c r response st s =
        unregister_response-Sound c r.context response st s
    call_back-Sound on_subscribe c r response st s =
        subscribe_response-Sound c r.context response st s
    call_back-Sound on_unsubscribe c r response st s =
        unsubscribe_response-Sound c r.context response st s
    call_back-Sound on_event c r response st s = s
    call_back-Sound on_create c r response st s = create_response-Sound c response st s

    pub client_notify_command-Sound :
        (c : MbusClient J) (r : Request J) (response : Option J) (st : RequestStatus)
        → Sound cj c
        → Holds (Sound cj) (client_notify_command rt again c r response st)
    unfolding client_notify_command
    client_notify_command-Sound c r response st s = call_back-Sound r.callback c r response st s

    pub conclude_event-Sound :
        (c : MbusClient J) (r : Request J) (st : RequestStatus)
        → Sound cj c
        → Holds (Sound cj) (conclude_event rt c r st)
    unfolding conclude_event note strcmp_case
    conclude_event-Sound c r st s = ground arith

    conclude_command-Sound :
        (c : MbusClient J) (r : Request J) (st : RequestStatus)
        → Sound cj c
        → Holds (Sound cj) (conclude_command rt again c r st)
    unfolding conclude_command note strcmp_case
    conclude_command-Sound c r st s = ground (arith, client_notify_command-Sound c r none st s)

    pub conclude-Sound :
        (c : MbusClient J) (r : Request J) (st : RequestStatus)
        → Sound cj c
        → Holds (Sound cj) (conclude rt again c r st)
    unfolding conclude strcmp_case
    conclude-Sound c r st s =
        ground (arith, conclude_event-Sound c r st s, conclude_command-Sound c r st s)
