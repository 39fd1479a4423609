-- ===== src/ClientLib/Invariant/Resets.antt =====
-- mbus_client_reset of src/client/client.c keeps the invariant of a client.
use mbus.Base.{ℕ, zero, suc, ◌+◌, Option, none, some, List, [], ◌∷◌, length, All, Exec, arith}
use mbus.ClientLib.{Runtime, MbusClient, Request, LocalRoutine, LocalSubscription, canceled}
use mbus.ClientLib.Requests.{note}
use mbus.ClientLib.Reset.{
  conclude, cancel_requests, cancel_pendings, drop_routines, drop_subscriptions, note_destroy,
  close_socket, clear_fields, forget, reset_within, client_reset, still,
}
use mbus.ClientLib.Invariant.{
  Holds, bind_Holds, IsWell, Sound, requests-Sound, pendings-Sound, KeepsSound, conclude-Sound,
}

module _ {J : Type 0} (rt : Runtime J) where
  module _ (again : MbusClient J → Exec (MbusClient J)) (keeps : KeepsSound rt again) where
    still-Sound :
        (saved left : List (Request J)) (x : Exec (MbusClient J))
        → Holds (Sound rt.cj) x
        → Holds (Sound rt.cj) (still rt again saved left x)
    unfolding still
    still-Sound saved left x h = ground arith

    cancel_requests-Sound :
        (q : List (Request J)) (c : MbusClient J)
        → All (IsWell rt.cj) q
        → Sound rt.cj c
        → Holds (Sound rt.cj) (cancel_requests rt again q c)
    unfolding cancel_requests
    cancel_requests-Sound [] c h s = s
    cancel_requests-Sound (r ∷ rest) c h s =
        bind_Holds (Sound rt.cj) (Sound rt.cj)
          (conclude rt again (record c { requests = rest }) r canceled) _
          (conclude-Sound rt again keeps (record c { requests = rest }) r canceled
            (requests-Sound rt c.state c.sequence c.requests rest c.pendings h.1 s))
          (λ c' s'. still-Sound rest c'.requests _ (cancel_requests-Sound rest c' h.1 s'))

    cancel_pendings-Sound :
        (p : List (Request J)) (c : MbusClient J)
        → All (IsWell rt.cj) p
        → Sound rt.cj c
        → Holds (Sound rt.cj) (cancel_pendings rt again p c)
    unfolding cancel_pendings
    cancel_pendings-Sound [] c h s = s
    cancel_pendings-Sound (r ∷ rest) c h s =
        bind_Holds (Sound rt.cj) (Sound rt.cj)
          (conclude rt again (record c { pendings = rest }) r canceled) _
          (conclude-Sound rt again keeps (record c { pendings = rest }) r canceled
            (pendings-Sound rt c.state c.sequence c.requests c.pendings rest h.1 s))
          (λ c' s'. still-Sound rest c'.pendings _ (cancel_pendings-Sound rest c' h.1 s'))

  drop_routines-Sound :
      (rs : List LocalRoutine) (c : MbusClient J)
      → Sound rt.cj c
      → Sound rt.cj (drop_routines rt rs c)
  unfolding drop_routines note
  drop_routines-Sound [] c s = s
  drop_routines-Sound (r ∷ rs) c s = drop_routines-Sound rs _ s

  drop_subscriptions-Sound :
      (ss : List LocalSubscription) (c : MbusClient J)
      → Sound rt.cj c
      → Sound rt.cj (drop_subscriptions rt ss c)
  unfolding drop_subscriptions note
  drop_subscriptions-Sound [] c s = s
  drop_subscriptions-Sound (x ∷ ss) c s = drop_subscriptions-Sound ss _ s

  clear_fields-Sound : (c : MbusClient J) → Sound rt.cj c → Sound rt.cj (clear_fields rt c)
  unfolding clear_fields
  clear_fields-Sound c s = record {
    known = s.known;
    low = omega arith;
    high = omega arith;
    requests = s.requests;
    pendings = s.pendings;
  }

  forget-Sound : (c : MbusClient J) → Sound rt.cj c → Sound rt.cj (forget rt c)
  unfolding forget
  forget-Sound c s =
      let c' = drop_routines rt c.routines c in
      clear_fields-Sound (drop_subscriptions rt c'.subscriptions c')
        (drop_subscriptions-Sound c'.subscriptions c' (drop_routines-Sound c.routines c s))

  note_destroy-Sound :
      (o : Option ℕ) (c : MbusClient J) → Sound rt.cj c → Sound rt.cj (note_destroy rt o c)
  unfolding note_destroy note
  note_destroy-Sound none c s = s
  note_destroy-Sound (some fd) c s = s

  close_socket-Sound : (c : MbusClient J) → Sound rt.cj c → Sound rt.cj (close_socket rt c)
  unfolding close_socket
  close_socket-Sound c s = note_destroy-Sound c.socket c s

  reset_within-Sound : (fuel : ℕ) → KeepsSound rt (reset_within rt fuel)
  unfolding reset_within
  reset_within-Sound zero c s = tt
  reset_within-Sound (suc fuel) c s =
      let again = reset_within rt fuel in
      let keeps = reset_within-Sound fuel in
      bind_Holds (Sound rt.cj) (Sound rt.cj)
        (cancel_requests rt again c.requests (close_socket rt c)) _
        (cancel_requests-Sound again keeps c.requests (close_socket rt c) s.requests
          (close_socket-Sound c s))
        (λ c' s'.
          bind_Holds (Sound rt.cj) (Sound rt.cj) (cancel_pendings rt again c'.pendings c') _
            (cancel_pendings-Sound again keeps c'.pendings c' s'.pendings s')
            (λ c'' s''. forget-Sound c'' s''))

  pub client_reset-Sound : KeepsSound rt (client_reset rt)
  unfolding client_reset
  client_reset-Sound c s = reset_within-Sound (suc (length c.requests + length c.pendings)) c s
