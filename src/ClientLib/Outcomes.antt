-- ===== src/ClientLib/Outcomes.antt =====
-- What a program hears of a request of src/client/client.c that ends with a status.
pub mod Blank
use mbus.Base.{
  ℕ, ◌+◌, ◌≡◌, refl, sym, ap, ◌∙◌, false, Option, none, some, List, [], ◌∷◌, ◌++◌, ◌⊎◌, append-nil,
  append_assoc, length, String, str_eq, inl, inr, map, Exec, done, ◌>>=◌, All,
}
use mbus.Base.Int.{pos}
use mbus.Buffer.{reset}
use mbus.Compress.{method_none}
use mbus.Method.{type_event, type_command, sequence_start}
use mbus.Server.{server_identifier, event_ping}
use mbus.ClientLib.{
  Runtime, MbusClient, Request, LocalRoutine, LocalSubscription, on_nothing, on_user, Context,
  no_context, routine_context, subscription_context, RequestStatus, canceled, Notice,
  notify_publish, notify_subscribe, notify_unsubscribe, notify_registered, notify_unregistered,
  notify_result, notify_connectionfd, fd_destroy,
}
use mbus.ClientLib.Requests.{
  strcmp_case, note, request_get_type, request_get_destination, request_get_identifier,
  request_get_payload,
}
use mbus.ClientLib.Responses.{client_notify_command, call_back}
use mbus.ClientLib.Reset.{
  payload_string, conclude_event, conclude_command, conclude, still, cancel_requests,
  cancel_pendings, drop_routines, drop_subscriptions, note_destroy, close_socket, clear_fields,
  forget, reset_within, client_reset,
}

-- The commands that the library itself tells apart.
abbrev pub own_commands : List String
own_commands =
    "command.event" ∷ "command.subscribe" ∷ "command.unsubscribe" ∷ "command.register"
    ∷ "command.unregister" ∷ []

module _ {J : Type 0} (rt : Runtime J) where
  -- A context that subscription_destroy or routine_destroy may have.
  abbrev pub MayDestroySubscription : Context → Type 0
  MayDestroySubscription target =
      (target ≡ no_context) ⊎ ((s : LocalSubscription) × (target ≡ subscription_context s))

  abbrev pub MayDestroyRoutine : Context → Type 0
  MayDestroyRoutine target =
      (target ≡ no_context) ⊎ ((x : LocalRoutine) × (target ≡ routine_context x))

  abbrev pub IsEvent : Request J → Type 0
  IsEvent r = request_get_type rt r ≡ some type_event

  abbrev pub IsCommand : Request J → String → Type 0
  IsCommand r name =
      (request_get_type rt r ≡ some type_command) × (request_get_identifier rt r ≡ some name)

  -- The calls of the program's callbacks for a request that ends with a status: an event is
  -- reported unless it goes to the server or is named as a ping; a confirmed event, a subscription
  -- and a registration as such; another command, with a callback of the program or none, by the
  -- status alone.
  pub data Reports : Request J → (RequestStatus → List (Notice J)) → Type 0 where
    to_server :
        (r : Request J)
        → IsEvent r
        → request_get_destination rt r ≡ some server_identifier
        → Reports r (λ st. [])
    published :
        (r : Request J) (destination identifier : String)
        → IsEvent r
        → request_get_destination rt r ≡ some destination
        → str_eq destination server_identifier ≡ false
        → request_get_identifier rt r ≡ some identifier
        → str_eq identifier event_ping ≡ false
        → Reports r (λ st. notify_publish (some r.json) st ∷ [])
    confirmed :
        (r : Request J)
        → IsCommand r "command.event"
        → Reports r (λ st. notify_publish (request_get_payload rt r) st ∷ [])
    subscribing :
        (r : Request J)
        → IsCommand r "command.subscribe"
        → MayDestroySubscription r.context
        → Reports r (λ st.
          notify_subscribe (payload_string rt r "source") (payload_string rt r "event") st ∷ [])
    unsubscribing :
        (r : Request J)
        → IsCommand r "command.unsubscribe"
        → Reports r (λ st.
          notify_unsubscribe (payload_string rt r "source") (payload_string rt r "event") st ∷ [])
    registering :
        (r : Request J)
        → IsCommand r "command.register"
        → MayDestroyRoutine r.context
        → Reports r (λ st. notify_registered (payload_string rt r "command") st ∷ [])
    unregistering :
        (r : Request J)
        → IsCommand r "command.unregister"
        → Reports r (λ st. notify_unregistered (payload_string rt r "command") st ∷ [])
    calling :
        (r : Request J) (name : String)
        → IsCommand r name
        → All (λ own. str_eq name own ≡ false) own_commands
        → r.callback ≡ on_nothing
        → Reports r (λ st. notify_result none r.json none st ∷ [])
    calling_back :
        (r : Request J) (name : String) (f : ℕ)
        → IsCommand r name
        → All (λ own. str_eq name own ≡ false) own_commands
        → r.callback ≡ on_user f
        → Reports r (λ st. notify_result (some (f, r.context)) r.json none st ∷ [])

  -- The notices are added to those of the client.
  abbrev pub heard : MbusClient J → List (Notice J) → MbusClient J
  heard c ns = record c { notices = c.notices ++ ns }

  module _ (again : MbusClient J → Exec (MbusClient J)) where
    -- The code does for each request what the table says.
    pub conclude-Reports :
        (r : Request J) (f : RequestStatus → List (Notice J)) (c : MbusClient J)
        (st : RequestStatus)
        → Reports r f
        → conclude rt again c r st ≡ done (heard c (f st))
    unfolding conclude conclude_event conclude_command strcmp_case client_notify_command call_back
        note
    conclude-Reports r f c st (to_server _ t d) =
        rw (t, d) (ap (λ ns. done (record c { notices = ns })) (sym (append-nil c.notices)))
    conclude-Reports r f c st (published _ destination identifier t d n i p) =
        rw (t, d, n, i, p) refl
    conclude-Reports r f c st (confirmed _ k) = rw (k.0, k.1) refl
    conclude-Reports r f c st (subscribing _ k m) = elim m [
      | inl e ↦ rw (k.0, k.1, e) refl
      | inr (x, e) ↦ rw (k.0, k.1, e) refl
    ]
    conclude-Reports r f c st (unsubscribing _ k) = rw (k.0, k.1) refl
    conclude-Reports r f c st (registering _ k m) = elim m [
      | inl e ↦ rw (k.0, k.1, e) refl
      | inr (x, e) ↦ rw (k.0, k.1, e) refl
    ]
    conclude-Reports r f c st (unregistering _ k) = rw (k.0, k.1) refl
    conclude-Reports r f c st (calling _ name k o b) =
        rw (k.0, k.1, o.0, o.1.0, o.1.1.0, o.1.1.1.0, o.1.1.1.1.0, b) refl
    conclude-Reports r f c st (calling_back _ name g k o b) =
        rw (k.0, k.1, o.0, o.1.0, o.1.1.0, o.1.1.1.0, o.1.1.1.1.0, b) refl

  pub heard-none : (c : MbusClient J) → heard c [] ≡ c
  heard-none c = ap (λ ns. record c { notices = ns }) (append-nil c.notices)

  pub heard-heard :
      (c : MbusClient J) (a b : List (Notice J)) → heard (heard c a) b ≡ heard c (a ++ b)
  heard-heard c a b = ap (λ ns. record c { notices = ns }) (append_assoc c.notices a b)
