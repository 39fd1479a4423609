-- ===== src/Server/Presence/Departure.antt =====
-- What the disconnection of a client, in mbus_server_run_timeout of src/server/server.c, does to the
-- calls and the methods of others.
use mbus.Base.{
  Returns, ◌==◌, ℕ, ◌≡◌, refl, sym, ap, subst, true, false, Option, none, some, List, [], ◌∷◌, All,
  map, String, arith, Bool-cases, inl, inr,
}
use mbus.Method.{Method, type_event, request_type, request_destination}
use mbus.Client.{Client, CloseCode, client_push_event}
use mbus.Server.{Server, Env, is_named}
use mbus.Server.Events.{
  deliver, is_subscribed, send_to_subscribers, route, send_event_to, send_event_disconnected,
}
use mbus.Server.Events.Delivery.{delivered, send_to_subscribers-map}
use mbus.Server.Presence.{
  comes_from, awaits, other_waits, fail_waits, remove_client, drop_methods, have_types,
  have_destinations, are_comparable, taken_out, disconnect,
}

module _ {J : Type 0} (e : Env J) where
  open e use {cj, now}

  -- None of the calls waits for a client of that name.
  abbrev pub AwaitsNot : Option String → List (Method J) → Type 0
  AwaitsNot name = All (λ w. awaits e name w ≡ false)

  other_waits-AwaitsNot :
      (name : Option String) (ws : List (Method J)) → AwaitsNot name (other_waits e name ws)
  unfolding other_waits
  other_waits-AwaitsNot name [] = tt
  other_waits-AwaitsNot name (w ∷ ws) = elim (Bool-cases (awaits e name w)) [
    | inl hit ↦ rw hit (other_waits-AwaitsNot name ws)
    | inr miss ↦ rw miss (miss, other_waits-AwaitsNot name ws)
  ]

  -- The calls of a method's client are gone from the queue; its events are kept.
  drop_methods-commands :
      (h : ℕ) (ms : List (Method J))
      → All
          (λ m. comes_from m.source h ≡ true → is_named (request_type cj m) type_event ≡ true)
          (drop_methods e h ms)
  unfolding drop_methods
  drop_methods-commands h [] = tt
  drop_methods-commands h (m ∷ ms) = elim (Bool-cases (comes_from m.source h)) [
    | inl hit ↦ elim (Bool-cases (is_named (request_type cj m) type_event)) [
      | inl event ↦ rw (hit, event) (λ _. event, drop_methods-commands h ms)
      | inr other ↦ rw (hit, other) (drop_methods-commands h ms)
    ]
    | inr miss ↦ rw miss (λ q. absurd (ground arith), drop_methods-commands h ms)
  ]

  delivered-waits :
      (source identifier : String) (payload : Option J) (c : Client J)
      → (delivered cj source identifier payload c).waits ≡ c.waits
  unfolding delivered deliver client_push_event
  delivered-waits source identifier payload c = ground arith

  All-map :
      (P : Client J → Type 0) (f : Client J → Client J) (cs : List (Client J))
      → ((c : Client J) → P (f c))
      → All P (map f cs)
  All-map P f [] h = tt
  All-map P f (c ∷ cs) h = (h c, All-map P f cs h)

  All-map_keep :
      (P : Client J → Type 0) (f : Client J → Client J) (cs : List (Client J))
      → ((c : Client J) → P c → P (f c))
      → All P cs
      → All P (map f cs)
  All-map_keep P f [] h all = tt
  All-map_keep P f (c ∷ cs) h (p, all) = (h c p, All-map_keep P f cs h all)

  -- What holds of a state in which nothing is left of the client.
  pub record IsForgotten (name : Option String) (h : ℕ) (s : Server J) : Type 0 where
    pub awaited : All (λ d. AwaitsNot name d.waits) s.clients
    pub queued :
        All
          (λ m. comes_from m.source h ≡ true → is_named (request_type cj m) type_event ≡ true)
          s.methods

  subscribers-AwaitsNot :
      (name : Option String) (source identifier : String) (payload : Option J)
      (cs : List (Client J))
      → All (λ d. AwaitsNot name d.waits) cs
      → All (λ d. AwaitsNot name d.waits) (send_to_subscribers cj source identifier payload cs).0
  subscribers-AwaitsNot name source identifier payload cs all =
      rw (ap (λ r. r.0) (send_to_subscribers-map cj source identifier payload cs)) (
        All-map_keep (λ d. AwaitsNot name d.waits) _ cs
          (λ c h. elim (Bool-cases (is_subscribed c.subscriptions source identifier)) [
            | inl hit ↦
                rw hit
                  (subst (AwaitsNot name) (sym (delivered-waits source identifier payload c)) h)
            | inr miss ↦ rw miss h
          ])
          all)

  event-IsForgotten :
      (name : Option String) (h : ℕ) (s : Server J) (source : Option String) (code : CloseCode)
      → IsForgotten name h s
      → IsForgotten name h (send_event_disconnected cj now s source code).0
  unfolding send_event_disconnected send_event_to route
  event-IsForgotten name h s none code f = f
  event-IsForgotten name h s (some source) code f = record {
    awaited = subscribers-AwaitsNot name _ _ _ s.clients f.awaited;
    queued = f.queued;
  }

  -- The method has a type; the call has a destination.
  abbrev pub IsTyped : Method J → Type 0
  IsTyped m = (type : String) × (request_type cj m ≡ some type)

  abbrev pub HasDestination : Method J → Type 0
  HasDestination w = (name : String) × (request_destination cj w ≡ some name)

  have_types-IsTyped : (h : ℕ) (ms : List (Method J)) → All IsTyped ms → have_types e h ms ≡ true
  unfolding have_types
  have_types-IsTyped h [] t = refl
  have_types-IsTyped h (m ∷ ms) ((type, q), ts) = ground (arith, q, have_types-IsTyped h ms ts)

  have_destinations-HasDestination :
      (name : Option String) (ws : List (Method J))
      → All HasDestination ws
      → have_destinations e name ws ≡ true
  unfolding have_destinations
  have_destinations-HasDestination none ws t = refl
  have_destinations-HasDestination (some name) [] t = refl
  have_destinations-HasDestination (some name) (w ∷ ws) ((callee, q), ts) =
      ground (arith, q, have_destinations-HasDestination (some name) ws ts)

  are_comparable-HasDestination :
      (name : Option String) (h : ℕ) (cs : List (Client J))
      → All (λ d. All HasDestination d.waits) cs
      → are_comparable e name (remove_client h cs) ≡ true
  unfolding are_comparable remove_client
  are_comparable-HasDestination name h [] t = refl
  are_comparable-HasDestination name h (c ∷ cs) (w, ws) =
      let here = have_destinations-HasDestination name c.waits w in
      let there = are_comparable-HasDestination name h cs ws in
      elim (Bool-cases (c.handle == h)) [
        | inl hit ↦ rw hit (all_comparable cs ws)
        | inr miss ↦ rw (miss, here, there) refl
      ]
    where
      all_comparable :
          (cs : List (Client J))
          → All (λ d. All HasDestination d.waits) cs
          → are_comparable e name cs ≡ true
      all_comparable [] t = refl
      all_comparable (c ∷ cs) (w, ws) =
          rw (have_destinations-HasDestination name c.waits w, all_comparable cs ws) refl

  taken_out-IsForgotten :
      (s : Server J) (c : Client J) → IsForgotten c.identifier c.handle (taken_out e s c)
  unfolding taken_out fail_waits
  taken_out-IsForgotten s c = record {
    awaited =
        All-map (λ d. AwaitsNot c.identifier d.waits) _ (remove_client c.handle s.clients)
          (λ d. other_waits-AwaitsNot c.identifier d.waits);
    queued = drop_methods-commands c.handle s.methods;
  }

  -- Where the queued methods have types and the waiting calls have destinations, a client is taken
  -- out without a comparison with NULL; afterwards, whether or not it had been announced, no call
  -- of another client waits for its identifier, and of the queued methods only events come from
  -- its address.
  pub disconnect-IsForgotten :
      (s : Server J) (c : Client J)
      → All IsTyped s.methods
      → All (λ d. All HasDestination d.waits) s.clients
      → Returns (λ r. IsForgotten c.identifier c.handle r.0) (disconnect e s c)
  unfolding disconnect
  disconnect-IsForgotten s c typed named =
      rw
        (
          have_types-IsTyped c.handle s.methods typed,
          are_comparable-HasDestination c.identifier c.handle s.clients named,
        )
        (elim (Bool-cases c.status.connected) [
          | inl announced ↦ rw announced (
              event-IsForgotten c.identifier c.handle (taken_out e s c) c.identifier
                c.connection_close_code (taken_out-IsForgotten s c))
          | inr silent ↦ rw silent (taken_out-IsForgotten s c)
        ])
