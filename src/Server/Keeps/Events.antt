-- ===== src/Server/Keeps/Events.antt =====
-- server_send_event_to of src/server/server.c: the part of the state that it leaves alone.
use mbus.Base.{
  subst, sym, str_eq, fail, ok, ℕ, ◌≡◌, refl, Bool, Option, none, some, List, [], ◌∷◌, String, Rc,
  arith, Option-cases, Bool-cases, inl, inr,
}
use mbus.Json.{CJson}
use mbus.Method.{Method, event_destination_all, event_destination_subscribers}
use mbus.Client.{Client, client_push_event}
use mbus.Server.{Server, event_ping, server_identifier, event_pong, find_client_by_identifier}
use mbus.Server.Presence.{handles}
use mbus.Server.Events.{
  keep_going, for_each, for_first, deliver, send_to_all, send_to_subscribers, send_to_one, route,
  send_pong, note_ping, send_event_to,
}
use mbus.Server.Keeps.{
  AllPass, WaitsPass, Fewer, Keeps, Keeps-refl, Keeps-trans, handles-put_client, put_client-Fewer,
  find_client_by_identifier-Known,
}

module _ {J : Type 0} where
  handles-for_each :
      (body : Client J → Client J × Rc)
      → ((c : Client J) → (body c).0.handle ≡ c.handle)
      → (cs : List (Client J)) → handles (for_each body cs).0 ≡ handles cs
  unfolding for_each
  handles-for_each body h [] = refl
  handles-for_each body h (c ∷ cs) = ground (arith, h c, handles-for_each body h cs)

  handles-for_first :
      (test : Client J → Bool) (body : Client J → Client J × Rc)
      → ((c : Client J) → (body c).0.handle ≡ c.handle)
      → (cs : List (Client J)) → handles (for_first test body cs).0 ≡ handles cs
  unfolding for_first
  handles-for_first test body h [] = refl
  handles-for_first test body h (c ∷ cs) = ground (arith, h c, handles-for_first test body h cs)

  keep_going-WaitsPass :
      (p : Method J → Bool) (r : Client J × Rc) (cs : List (Client J)) (rest : List (Client J) × Rc)
      → AllPass p r.0.waits
      → WaitsPass p cs
      → WaitsPass p rest.0
      → WaitsPass p (keep_going r cs rest).0
  unfolding keep_going
  keep_going-WaitsPass p (c, ok) cs rest x xs ys = (x, ys)
  keep_going-WaitsPass p (c, fail) cs rest x xs ys = (x, xs)

  Fewer-for_each :
      (body : Client J → Client J × Rc)
      → ((c : Client J) → (body c).0.waits ≡ c.waits)
      → (cs : List (Client J)) → Fewer cs (for_each body cs).0
  unfolding for_each
  Fewer-for_each body h [] p w = tt
  Fewer-for_each body h (c ∷ cs) p (x, xs) =
      keep_going-WaitsPass p (body c) cs (for_each body cs) (subst (AllPass p) (sym (h c)) x) xs
        (Fewer-for_each body h cs p xs)

  Fewer-for_first :
      (test : Client J → Bool) (body : Client J → Client J × Rc)
      → ((c : Client J) → (body c).0.waits ≡ c.waits)
      → (cs : List (Client J)) → Fewer cs (for_first test body cs).0
  unfolding for_first
  Fewer-for_first test body h [] p w = tt
  Fewer-for_first test body h (c ∷ cs) p (x, xs) = elim (Bool-cases (test c)) [
    | inl hit ↦ rw hit (subst (AllPass p) (sym (h c)) x, xs)
    | inr miss ↦ rw miss (x, Fewer-for_first test body h cs p xs)
  ]

module _ {J : Type 0} (cj : CJson J) where
  waits-deliver :
      (source identifier : String) (payload : Option J) (c : Client J)
      → (deliver cj source identifier payload c).0.waits ≡ c.waits
  unfolding deliver client_push_event
  waits-deliver source identifier payload c = ground arith

  route-Fewer :
      (s : Server J) (source destination identifier : String) (payload : Option J)
      → Fewer s.clients (route cj s source destination identifier payload).0.clients
  unfolding route send_to_all send_to_subscribers send_to_one
  route-Fewer s source destination identifier payload =
      elim (Bool-cases (str_eq destination event_destination_all)) [
        | inl all ↦ rw all (
            Fewer-for_each _ (λ c. ground (arith, waits-deliver source identifier payload c))
              s.clients)
        | inr not_all ↦ elim (Bool-cases (str_eq destination event_destination_subscribers)) [
          | inl some_of_them ↦
              rw (not_all, some_of_them)
                (Fewer-for_each _ (λ c. ground (arith, waits-deliver source identifier payload c))
                  s.clients)
          | inr one ↦
              rw (not_all, one)
                (Fewer-for_first _ _ (waits-deliver source identifier payload) s.clients)
        ]
      ]

  handle-deliver :
      (source identifier : String) (payload : Option J) (c : Client J)
      → (deliver cj source identifier payload c).0.handle ≡ c.handle
  unfolding deliver client_push_event
  handle-deliver source identifier payload c = ground arith

  handles-send_to_all :
      (source identifier : String) (payload : Option J) (cs : List (Client J))
      → handles (send_to_all cj source identifier payload cs).0 ≡ handles cs
  unfolding send_to_all
  handles-send_to_all source identifier payload =
      handles-for_each _ (λ c. ground (arith, handle-deliver source identifier payload c))

  handles-send_to_subscribers :
      (source identifier : String) (payload : Option J) (cs : List (Client J))
      → handles (send_to_subscribers cj source identifier payload cs).0 ≡ handles cs
  unfolding send_to_subscribers
  handles-send_to_subscribers source identifier payload =
      handles-for_each _ (λ c. ground (arith, handle-deliver source identifier payload c))

  handles-send_to_one :
      (source destination identifier : String) (payload : Option J) (cs : List (Client J))
      → handles (send_to_one cj source destination identifier payload cs).0 ≡ handles cs
  unfolding send_to_one
  handles-send_to_one source destination identifier payload =
      handles-for_first _ _ (handle-deliver source identifier payload)

  route-same :
      (s : Server J) (source destination identifier : String) (payload : Option J)
      → (handles (route cj s source destination identifier payload).0.clients ≡ handles s.clients)
        × ((route cj s source destination identifier payload).0.methods ≡ s.methods)
        × ((route cj s source destination identifier payload).0.password ≡ s.password)
  unfolding route
  route-same s source destination identifier payload = ground (
    arith,
    handles-send_to_all source identifier payload s.clients,
    handles-send_to_subscribers source identifier payload s.clients,
    handles-send_to_one source destination identifier payload s.clients,
  )

  route-Keeps :
      (s : Server J) (source destination identifier : String) (payload : Option J)
      → Keeps s (route cj s source destination identifier payload).0
  route-Keeps s source destination identifier payload =
      let same = route-same s source destination identifier payload in
      record {
        same_handles = same.0;
        same_methods = same.1;
        same_password = same.2;
        fewer_waits = route-Fewer s source destination identifier payload;
      }

  note_ping-handles :
      (now : ℕ) (source : String) (cs : List (Client J))
      → handles (note_ping cj now source cs) ≡ handles cs
  unfolding note_ping
  note_ping-handles now source cs = elim (Option-cases (find_client_by_identifier cs source)) [
    | inl missing ↦ rw (missing, note_ping)
    | inr (c, found) ↦ rw (found, note_ping) (handles-put_client _ cs)
  ]

  note_ping-Keeps :
      (now : ℕ) (source : String) (s : Server J)
      → Keeps s (record s { clients = note_ping cj now source s.clients })
  unfolding note_ping
  note_ping-Keeps now source s = record {
    same_handles = note_ping-handles now source s.clients;
    same_methods = refl;
    same_password = refl;
    fewer_waits = elim (Option-cases (find_client_by_identifier s.clients source)) [
      | inl missing ↦ rw (missing, note_ping) (λ p h. h)
      | inr (c, found) ↦
          rw (found, note_ping)
            (λ p h.
              put_client-Fewer (record c { ping = record (c.ping) { recv_tsms = now } }) s.clients p
                (find_client_by_identifier-Known s.clients source c found p h) h)
    ];
  }

  send_pong-Keeps : (s : Server J) (source : String) → Keeps s (send_pong cj s source).0
  unfolding send_pong
  send_pong-Keeps s source = elim (Bool-cases (str_eq source server_identifier)) [
    | inl own ↦ rw own (Keeps-refl s)
    | inr other ↦ rw other (route-Keeps s server_identifier source event_pong none)
  ]

  send_event-Keeps :
      (now : ℕ) (s : Server J) (source destination identifier : String) (payload : Option J)
      → Keeps s
          (send_event_to cj now s (some source) (some destination) (some identifier) payload).0
  unfolding send_event_to
  send_event-Keeps now s source destination identifier payload =
      let noted : Server J = record s { clients = note_ping cj now source s.clients } in
      elim (Bool-cases (str_eq destination server_identifier)) [
        | inr other ↦ rw other (route-Keeps s source destination identifier payload)
        | inl own ↦ elim (Bool-cases (str_eq identifier event_ping)) [
          | inl ping ↦
              rw (own, ping)
                (Keeps-trans s noted _ (note_ping-Keeps now source s)
                  (send_pong-Keeps noted source))
          | inr plain ↦ rw (own, plain) (Keeps-refl s)
        ]
      ]

  -- Sending an event changes no client's address, nor the queue of methods.
  pub send_event_to-Keeps :
      (now : ℕ) (s : Server J) (source destination identifier : Option String) (payload : Option J)
      → Keeps s (send_event_to cj now s source destination identifier payload).0
  send_event_to-Keeps now s none destination identifier payload =
      unfold send_event_to in Keeps-refl s
  send_event_to-Keeps now s (some source) none identifier payload =
      unfold send_event_to in Keeps-refl s
  send_event_to-Keeps now s (some source) (some destination) none payload =
      unfold send_event_to in Keeps-refl s
  send_event_to-Keeps now s (some source) (some destination) (some identifier) payload =
      send_event-Keeps now s source destination identifier payload
