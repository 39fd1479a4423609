-- ===== src/ClientLib/Ends/Reset.antt =====
-- About mbus_client_reset of src/client/client.c, which the callback of mbus_client_command_create
-- calls in turn from the round over its own lists.
use mbus.Base.{
  ℕ, zero, suc, ◌+◌, ◌≤◌, ◌≡◌, refl, Option, none, some, List, [], ◌∷◌, length, Exec, arith,
}
use mbus.ClientLib.{Runtime, MbusClient, Request, LocalRoutine, LocalSubscription, canceled}
use mbus.ClientLib.Requests.{note}
use mbus.ClientLib.Reset.{
  conclude, still, cancel_requests, cancel_pendings, drop_routines, drop_subscriptions,
  note_destroy, close_socket, clear_fields, forget, reset_within, client_reset,
}
use mbus.ClientLib.Ends.{Halts, bind_Halts, queued, Shrunk, IsEmptied, EndsBelow, conclude-Shrunk}

module _ {J : Type 0} (rt : Runtime J) where
  module _ (n : ℕ) (again : MbusClient J → Exec (MbusClient J)) (ends : EndsBelow rt n again) where
    still-Halts :
        (P : MbusClient J → Type 0) (saved left : List (Request J)) (x : Exec (MbusClient J))
        → Halts P x
        → Halts P (still rt again saved left x)
    unfolding still
    still-Halts P [] left x h = h
    still-Halts P (r ∷ saved) [] x h = tt
    still-Halts P (r ∷ saved) (l ∷ left) x h = h

    cancel_requests-Unqueued :
        (m : ℕ) (q : List (Request J)) (c : MbusClient J)
        → length c.requests ≤ length q
        → length q + length c.pendings ≤ n
        → length c.pendings ≤ m
        → c.socket ≡ none
        → Halts
            (λ c'. (length c'.requests ≡ 0) × (length c'.pendings ≤ m) × (c'.socket ≡ none))
            (cancel_requests rt again q c)
    unfolding cancel_requests
    cancel_requests-Unqueued m [] c h k l e = (omega arith, omega arith, e)
    cancel_requests-Unqueued m (r ∷ rest) c h k l e =
        let c0 : MbusClient J = record c { requests = rest } in
        bind_Halts (Shrunk rt c0) _ (conclude rt again c0 r canceled) _
          (conclude-Shrunk rt n again ends c0 r canceled (omega arith))
          (λ c' s.
            still-Halts _ rest c'.requests _ (
              cancel_requests-Unqueued m rest c' (omega arith) (omega arith) (omega arith) (s.2 e)))

    cancel_pendings-IsEmptied :
        (p : List (Request J)) (c : MbusClient J)
        → length c.requests ≡ 0
        → length c.pendings ≤ length p
        → length p ≤ n
        → c.socket ≡ none
        → Halts (IsEmptied rt) (cancel_pendings rt again p c)
    unfolding cancel_pendings
    cancel_pendings-IsEmptied [] c e h k f = (omega arith, omega arith, f)
    cancel_pendings-IsEmptied (r ∷ rest) c e h k f =
        let c0 : MbusClient J = record c { pendings = rest } in
        bind_Halts (Shrunk rt c0) _ (conclude rt again c0 r canceled) _
          (conclude-Shrunk rt n again ends c0 r canceled (omega arith))
          (λ c' s.
            still-Halts _ rest c'.pendings _
              (cancel_pendings-IsEmptied rest c' (omega arith) (omega arith) (omega arith) (s.2 f)))

  drop_routines-IsEmptied :
      (rs : List LocalRoutine) (c : MbusClient J)
      → IsEmptied rt c
      → IsEmptied rt (drop_routines rt rs c)
  unfolding drop_routines note
  drop_routines-IsEmptied [] c e = e
  drop_routines-IsEmptied (r ∷ rs) c e = drop_routines-IsEmptied rs _ e

  drop_subscriptions-IsEmptied :
      (ss : List LocalSubscription) (c : MbusClient J)
      → IsEmptied rt c
      → IsEmptied rt (drop_subscriptions rt ss c)
  unfolding drop_subscriptions note
  drop_subscriptions-IsEmptied [] c e = e
  drop_subscriptions-IsEmptied (s ∷ ss) c e = drop_subscriptions-IsEmptied ss _ e

  forget-IsEmptied : (c : MbusClient J) → IsEmptied rt c → IsEmptied rt (forget rt c)
  unfolding forget clear_fields
  forget-IsEmptied c e =
      let c' = drop_routines rt c.routines c in
      drop_subscriptions-IsEmptied c'.subscriptions c' (drop_routines-IsEmptied c.routines c e)

  note_destroy-queued :
      (o : Option ℕ) (c : MbusClient J)
      → ((note_destroy rt o c).requests ≡ c.requests)
        × ((note_destroy rt o c).pendings ≡ c.pendings)
  unfolding note_destroy note
  note_destroy-queued none c = (refl, refl)
  note_destroy-queued (some fd) c = (refl, refl)

  close_socket-lem :
      (c : MbusClient J)
      → (length (close_socket rt c).requests ≤ length c.requests)
        × (length (close_socket rt c).pendings ≤ length c.pendings)
        × ((close_socket rt c).socket ≡ none)
  unfolding close_socket
  close_socket-lem c =
      let e = note_destroy-queued c.socket c in
      (rw (e.0) (omega arith), rw (e.1) (omega arith), refl)

  reset_within-EndsBelow : (fuel : ℕ) → EndsBelow rt fuel (reset_within rt fuel)
  unfolding reset_within
  reset_within-EndsBelow zero c h = absurd (ground (arith, h))
  reset_within-EndsBelow (suc fuel) c h =
      let again = reset_within rt fuel in
      let ends = reset_within-EndsBelow fuel in
      let closed = close_socket rt c in
      let s = close_socket-lem c in
      bind_Halts _ (IsEmptied rt) (cancel_requests rt again c.requests closed) _
        (cancel_requests-Unqueued fuel again ends (length c.pendings) c.requests closed s.0
          (omega arith) s.1 s.2)
        (λ c' e.
          bind_Halts (IsEmptied rt) (IsEmptied rt) (cancel_pendings rt again c'.pendings c') _
            (cancel_pendings-IsEmptied fuel again ends c'.pendings c' e.0 (omega arith)
              (omega arith) e.2)
            (λ c'' e'. forget-IsEmptied c'' e'))

  -- On every client, whatever is queued in it and waits, a reset ends, the resets that it begins in
  -- turn included: it runs into undefined behaviour, or it leaves no queued
  -- request, no waiting request and no socket.
  pub client_reset-Halts : (c : MbusClient J) → Halts (IsEmptied rt) (client_reset rt c)
  unfolding client_reset
  client_reset-Halts c = reset_within-EndsBelow (suc (queued rt c)) c (omega arith)
