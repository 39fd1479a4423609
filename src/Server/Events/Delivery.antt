-- ===== src/Server/Events/Delivery.antt =====
-- Who gets an event: the loops of server_send_event_to against a map over the clients.
use mbus.Base.{
  ℕ, ◌+◌, ◌++◌, leb, ◌≡◌, refl, Bool, false, not, Option, none, some, List, [], ◌∷◌, map, String,
  str_eq, if◌then◌else◌, Rc, ok, arith,
}
use mbus.Json.{CJson}
use mbus.Base.Int.{pos}
use mbus.Method.{
  Method, create_response, response, tag_type, tag_source, tag_identifier, tag_sequence,
  tag_payload, type_event, sequence_start, sequence_end,
}
use mbus.Client.{Client, client_push_event}
use mbus.Server.Events.{
  next_sequence, for_each, deliver, is_subscribed, send_to_all, send_to_subscribers,
}

-- The receivers of an event to all: every client with an identifier that is not the source's.
abbrev pub is_other : {J : Type 0} → String → Client J → Bool
is_other source c = elim c.identifier [ none ↦ false | some name ↦ not (str_eq name source) ]

module _ {J : Type 0} (cj : CJson J) where
  -- The message of an event: its type, its source, its name, its number and its payload, a copy, or
  -- an empty object where there is none; nothing is answered to it.
  abbrev pub copied : Option J → J
  copied none = cj.create_object
  copied (some p) = cj.duplicate p

  abbrev pub event_of : String → String → ℕ → Option J → Method J
  event_of source identifier number payload =
      let typed = cj.add_item_to_object cj.create_object tag_type (cj.create_string type_event) in
      let sent = cj.add_item_to_object typed tag_source (cj.create_string source) in
      let named = cj.add_item_to_object sent tag_identifier (cj.create_string identifier) in
      let numbered = cj.add_item_to_object named tag_sequence (cj.create_number (pos number)) in
      record {
        request = cj.add_item_to_object numbered tag_payload (copied payload);
        result = none;
        source = none;
      }

  -- The numbers go from the first to the last and begin again.
  abbrev pub after_number : ℕ → ℕ
  after_number n = if leb sequence_end (n + 1) then sequence_start else n + 1

  -- The client with the event at the end of its queue, under its next sequence number, and nothing
  -- else changed.
  unfoldable pub delivered : String → String → Option J → Client J → Client J
  delivered source identifier payload c = record c {
    esequence = after_number c.esequence;
    events = c.events ++ (event_of source identifier c.esequence payload ∷ []);
  }

  -- Creating an event never fails: the sequence number is not negative.
  pub deliver-ok :
      (source identifier : String) (payload : Option J) (c : Client J)
      → deliver cj source identifier payload c ≡ (delivered source identifier payload c, ok)
  unfolding delivered deliver create_response response client_push_event next_sequence
  deliver-ok source identifier none c = refl
  deliver-ok source identifier (some p) c = refl

  for_each-map :
      (body : Client J → Client J × Rc) (f : Client J → Client J)
      → ((c : Client J) → body c ≡ (f c, ok))
      → (cs : List (Client J)) → for_each body cs ≡ (map f cs, ok)
  unfolding for_each
  for_each-map body f h [] = refl
  for_each-map body f h (c ∷ cs) = ground (arith, h c, for_each-map body f h cs)

  -- Every such client gets the event once, and nothing else changes.
  pub send_to_all-map :
      (source identifier : String) (payload : Option J) (cs : List (Client J))
      → send_to_all cj source identifier payload cs
        ≡ (map (λ c. if is_other source c then delivered source identifier payload c else c) cs, ok)
  unfolding send_to_all
  send_to_all-map source identifier payload =
      for_each-map _ _ (λ c. ground (arith, deliver-ok source identifier payload c))

  -- A client gets the event once, however many of its subscriptions match.
  pub send_to_subscribers-map :
      (source identifier : String) (payload : Option J) (cs : List (Client J))
      → send_to_subscribers cj source identifier payload cs ≡ (
        map
            (λ c.
              if is_subscribed c.subscriptions source identifier
              then delivered source identifier payload c
              else c)
            cs,
        ok,
      )
  unfolding send_to_subscribers
  send_to_subscribers-map source identifier payload =
      for_each-map _ _ (λ c. ground (arith, deliver-ok source identifier payload c))
