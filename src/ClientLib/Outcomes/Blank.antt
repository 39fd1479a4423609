-- ===== src/ClientLib/Outcomes/Blank.antt =====
-- What a program hears of a reset, and what mbus_client_reset of src/client/client.c leaves.
use mbus.Base.{
  ℕ, ◌+◌, ◌≡◌, refl, sym, ap, ◌∙◌, false, Option, none, some, List, [], ◌∷◌, ◌++◌, length, map,
  Exec, done, ◌>>=◌,
}
use mbus.Base.Int.{pos}
use mbus.Buffer.{reset}
use mbus.Compress.{method_none}
use mbus.Method.{sequence_start}
use mbus.ClientLib.{
  Runtime, MbusClient, Request, LocalRoutine, LocalSubscription, RequestStatus, canceled, Notice,
  notify_unsubscribe, notify_unregistered, notify_connectionfd, fd_destroy,
}
use mbus.ClientLib.Requests.{note}
use mbus.ClientLib.Reset.{
  still, cancel_requests, cancel_pendings, drop_routines, drop_subscriptions, note_destroy,
  close_socket, clear_fields, forget, reset_within, client_reset,
}
use mbus.ClientLib.Outcomes.{Reports, heard, heard-none, heard-heard, conclude-Reports}

module _ {J : Type 0} (rt : Runtime J) where
  -- The reports of a queue, in its order.
  pub data ReportsAll : List (Request J) → (RequestStatus → List (Notice J)) → Type 0 where
    none_left : ReportsAll [] (λ st. [])
    and_rest :
        (r : Request J) (rs : List (Request J)) (f g : RequestStatus → List (Notice J))
        → Reports rt r f
        → ReportsAll rs g
        → ReportsAll (r ∷ rs) (λ st. f st ++ g st)

  module _ (again : MbusClient J → Exec (MbusClient J)) where
    still-same : (q : List (Request J)) (x : Exec (MbusClient J)) → still rt again q q x ≡ x
    unfolding still
    still-same [] x = refl
    still-same (r ∷ q) x = refl

    cancel_requests-ReportsAll :
        (q : List (Request J)) (f : RequestStatus → List (Notice J)) (c : MbusClient J)
        → ReportsAll q f
        → cancel_requests rt again q (record c { requests = q })
          ≡ done (heard rt (record c { requests = [] }) (f canceled))
    unfolding cancel_requests
    cancel_requests-ReportsAll _ _ c none_left =
        ap done (sym (heard-none rt (record c { requests = [] })))
    cancel_requests-ReportsAll _ _ c (and_rest r rs f g h k) =
        ap (λ x. x >>= λ c'. still rt again rs c'.requests (cancel_requests rt again rs c'))
          (conclude-Reports rt again r f (record c { requests = rs }) canceled h)
        ∙ (still-same rs _
            ∙ (cancel_requests-ReportsAll rs g (heard rt c (f canceled)) k
                ∙ ap done (heard-heard rt (record c { requests = [] }) (f canceled) (g canceled))))

    cancel_pendings-ReportsAll :
        (q : List (Request J)) (f : RequestStatus → List (Notice J)) (c : MbusClient J)
        → ReportsAll q f
        → cancel_pendings rt again q (record c { pendings = q })
          ≡ done (heard rt (record c { pendings = [] }) (f canceled))
    unfolding cancel_pendings
    cancel_pendings-ReportsAll _ _ c none_left =
        ap done (sym (heard-none rt (record c { pendings = [] })))
    cancel_pendings-ReportsAll _ _ c (and_rest r rs f g h k) =
        ap (λ x. x >>= λ c'. still rt again rs c'.pendings (cancel_pendings rt again rs c'))
          (conclude-Reports rt again r f (record c { pendings = rs }) canceled h)
        ∙ (still-same rs _
            ∙ (cancel_pendings-ReportsAll rs g (heard rt c (f canceled)) k
                ∙ ap done (heard-heard rt (record c { pendings = [] }) (f canceled) (g canceled))))

  abbrev pub unregistrations : List LocalRoutine → List (Notice J)
  unregistrations rs = map (λ r. notify_unregistered (some r.identifier) canceled) rs

  abbrev pub unsubscriptions : List LocalSubscription → List (Notice J)
  unsubscriptions ss = map (λ s. notify_unsubscribe (some s.source) (some s.identifier) canceled) ss

  drop_routines-lem :
      (rs : List LocalRoutine) (c : MbusClient J)
      → drop_routines rt rs (record c { routines = rs })
        ≡ heard rt (record c { routines = [] }) (unregistrations rs)
  unfolding drop_routines note
  drop_routines-lem [] c = sym (heard-none rt (record c { routines = [] }))
  drop_routines-lem (r ∷ rs) c =
      drop_routines-lem rs (heard rt c (notify_unregistered (some r.identifier) canceled ∷ []))
      ∙ heard-heard rt (record c { routines = [] })
          (notify_unregistered (some r.identifier) canceled ∷ []) (unregistrations rs)

  drop_subscriptions-lem :
      (ss : List LocalSubscription) (c : MbusClient J)
      → drop_subscriptions rt ss (record c { subscriptions = ss })
        ≡ heard rt (record c { subscriptions = [] }) (unsubscriptions ss)
  unfolding drop_subscriptions note
  drop_subscriptions-lem [] c = sym (heard-none rt (record c { subscriptions = [] }))
  drop_subscriptions-lem (s ∷ ss) c =
      drop_subscriptions-lem ss
        (heard rt c (notify_unsubscribe (some s.source) (some s.identifier) canceled ∷ []))
      ∙ heard-heard rt (record c { subscriptions = [] })
          (notify_unsubscribe (some s.source) (some s.identifier) canceled ∷ [])
          (unsubscriptions ss)

  abbrev pub socket_closed : Option ℕ → List (Notice J)
  socket_closed none = []
  socket_closed (some fd) = notify_connectionfd fd_destroy ∷ []

  -- A client without a connection and without anything that belonged to it.
  abbrev pub blank : MbusClient J → List (Notice J) → MbusClient J
  blank c ns = record c {
    socket = none;
    requests = [];
    pendings = [];
    routines = [];
    subscriptions = [];
    incoming = reset c.incoming;
    outgoing = reset c.outgoing;
    identifier = none;
    ping_interval = pos 0;
    ping_timeout = pos 0;
    ping_threshold = pos 0;
    ping_send_tsms = 0;
    pong_recv_tsms = 0;
    ping_wait_pong = false;
    pong_missed_count = 0;
    sequence = sequence_start;
    compression = method_none;
    socket_connected = false;
    notices = ns;
  }

  abbrev shut_down : MbusClient J → MbusClient J
  shut_down c = record c {
    socket = none;
    incoming = reset c.incoming;
    outgoing = reset c.outgoing;
    notices = c.notices ++ socket_closed c.socket;
  }

  note_destroy-heard :
      (o : Option ℕ) (c : MbusClient J) → note_destroy rt o c ≡ heard rt c (socket_closed o)
  unfolding note_destroy note
  note_destroy-heard none c = sym (heard-none rt c)
  note_destroy-heard (some fd) c = refl

  close_socket-shut_down : (c : MbusClient J) → close_socket rt c ≡ shut_down c
  unfolding close_socket
  close_socket-shut_down c =
      let shut : MbusClient J → MbusClient J =
        λ x. record x { socket = none; incoming = reset c.incoming; outgoing = reset c.outgoing } in
      ap shut (note_destroy-heard c.socket c)

  abbrev pub endings : MbusClient J → List (Notice J)
  endings c = unregistrations c.routines ++ unsubscriptions c.subscriptions

  -- The end of a reset, on a client whose queues are empty.
  forget-lem :
      (c : MbusClient J)
      → forget rt c
        ≡ clear_fields rt
            (record c { routines = []; subscriptions = []; notices = c.notices ++ endings c })
  unfolding forget
  forget-lem c =
      let bare : MbusClient J =
        heard rt (record c { routines = [] }) (unregistrations c.routines) in
      ap (λ x. clear_fields rt (drop_subscriptions rt x.subscriptions x))
        (drop_routines-lem c.routines c)
      ∙ (ap (clear_fields rt) (drop_subscriptions-lem c.subscriptions bare)
          ∙ ap (clear_fields rt) (
              heard-heard rt (record c { routines = []; subscriptions = [] })
                (unregistrations c.routines) (unsubscriptions c.subscriptions)))

  -- What is heard of a reset: of the socket, of the queued requests, of those that wait, of the
  -- routines and of the subscriptions.
  abbrev pub reset_notices :
      MbusClient J
      → (RequestStatus → List (Notice J))
      → (RequestStatus → List (Notice J))
      → List (Notice J)
  reset_notices c f g =
      (((c.notices ++ socket_closed c.socket) ++ f canceled) ++ g canceled) ++ endings c

  -- A reset of a client whose queued and waiting requests have reports ends: the client is blank, and
  -- the program has heard of the socket, then of each queued request and each waiting request as
  -- canceled, once and in their order, and of each routine and each subscription as given up.
  pub client_reset-blank :
      (c : MbusClient J) (f g : RequestStatus → List (Notice J))
      → ReportsAll c.requests f
      → ReportsAll c.pendings g
      → client_reset rt c ≡ done (blank c (reset_notices c f g))
  unfolding client_reset reset_within clear_fields
  client_reset-blank c f g h k =
      let again = reset_within rt (length c.requests + length c.pendings) in
      let waiting : MbusClient J = heard rt (record (shut_down c) { requests = [] }) (f canceled) in
      let emptied : MbusClient J = heard rt (record waiting { pendings = [] }) (g canceled) in
      ap
        (λ x. cancel_requests rt again c.requests x >>= λ c'.
          cancel_pendings rt again c'.pendings c' >>= λ c''. done (forget rt c''))
        (close_socket-shut_down c)
      ∙ (ap
            (λ x.
              x >>= λ c'. cancel_pendings rt again c'.pendings c' >>= λ c''. done (forget rt c''))
            (cancel_requests-ReportsAll again c.requests f (shut_down c) h)
          ∙ (ap (λ x. x >>= λ c''. done (forget rt c''))
                (cancel_pendings-ReportsAll again c.pendings g waiting k)
              ∙ ap done (forget-lem emptied)))
