-- ===== src/Server/Names.antt =====
-- The identifiers of the clients of src/server/server.c, and the clients that an event is routed to.
pub mod Unique
use mbus.Base.{
  ℕ, ◌≡◌, ◌∙◌, refl, sym, ap, subst, ap₂, Bool, true, false, not, ◌&&◌, Option, none, some, List,
  [], ◌∷◌, map, String, str_eq, eq_iff, ◌==◌, if◌then◌else◌, Exec, done, fault, spin, Returns, Rc,
  ok, fail, arith, Option-cases, Bool-cases, inl, inr,
}
use mbus.Json.{CJson, get_string_value}
use mbus.Method.{
  Method, event_destination_all, event_destination_subscribers, request_payload, set_result_payload,
}
use mbus.Client.{Client, client_set_identifier}
use mbus.Server.{Server, Env, is_named, find_client_by_identifier, client_at, source_of, put_client}
use mbus.Server.Events.{
  for_first, deliver, is_subscribed, send_to_all, send_to_subscribers, send_to_one, route,
}
use mbus.Server.Events.Delivery.{
  delivered, deliver-ok, is_other, send_to_all-map, send_to_subscribers-map,
}

unfoldable pub taken : List (Option String) → String → Bool
taken [] name = false
taken (n ∷ ns) name = if is_named n name then true else taken ns name

unfoldable pub distinct : List (Option String) → Bool
distinct [] = true
distinct (none ∷ ns) = distinct ns
distinct (some n ∷ ns) = not (taken ns n) && distinct ns

-- Where no two names are alike, the first of a name is the only one.
first_is_only :
    (n : Option String) (ns : List (Option String)) (name : String)
    → distinct (n ∷ ns) ≡ true
    → is_named n name ≡ true
    → taken ns name ≡ false
unfolding distinct
first_is_only none ns name h hit = cc
first_is_only (some n) ns name h hit =
    let same : n ≡ name = (eq_iff n name).0 hit in
    subst (λ k. taken ns k ≡ false) same (ground (arith, h))

distinct-tail :
    (n : Option String) (ns : List (Option String)) → distinct (n ∷ ns) ≡ true → distinct ns ≡ true
unfolding distinct
distinct-tail none ns h = h
distinct-tail (some n) ns h = ground (arith, h)

module _ {J : Type 0} where
  abbrev pub names : List (Client J) → List (Option String)
  names = map λ c. c.identifier

  pub find_client_by_identifier-taken :
      (cs : List (Client J)) (name : String)
      → find_client_by_identifier cs name ≡ none
      → taken (names cs) name ≡ false
  unfolding find_client_by_identifier taken
  find_client_by_identifier-taken [] name h = refl
  find_client_by_identifier-taken (c ∷ cs) name h = elim (Bool-cases (is_named c.identifier name)) [
    | inl hit ↦ ground (arith, hit)
    | inr miss ↦ rw miss (find_client_by_identifier-taken cs name (ground (arith, miss)))
  ]

  untaken-map :
      (test : Client J → Bool) (f : Client J → Client J) (cs : List (Client J)) (name : String)
      → ((c : Client J) → test c ≡ is_named c.identifier name)
      → taken (names cs) name ≡ false
      → map (λ c. if test c then f c else c) cs ≡ cs
  unfolding taken
  untaken-map test f [] name same h = refl
  untaken-map test f (c ∷ cs) name same h = elim (Bool-cases (is_named c.identifier name)) [
    | inl hit ↦ ground (arith, hit)
    | inr miss ↦
        ground (arith, same c, miss, untaken-map test f cs name same (ground (arith, miss)))
  ]

  for_first-map :
      (body : Client J → Client J × Rc) (f : Client J → Client J) (name : String)
      → ((c : Client J) → body c ≡ (f c, ok))
      → (cs : List (Client J)) → distinct (names cs) ≡ true
      → for_first (λ c. is_named c.identifier name) body cs
        ≡ (map (λ c. if is_named c.identifier name then f c else c) cs, ok)
  unfolding for_first
  for_first-map body f name h [] d = refl
  for_first-map body f name h (c ∷ cs) d = elim (Bool-cases (is_named c.identifier name)) [
    | inl hit ↦ ground (
      arith,
      h c,
      hit,
      untaken-map (λ k. is_named k.identifier name) f cs name (λ k. refl)
          (first_is_only c.identifier (names cs) name d hit),
    )
    | inr miss ↦
        ground (
          arith,
          h c,
          miss,
          for_first-map body f name h cs (distinct-tail c.identifier (names cs) d),
        )
  ]

-- The clients that an event is for: all others that have an identifier, those with a subscription
-- that fits, or the one of that name.
unfoldable pub is_receiver : {J : Type 0} → String → String → String → Client J → Bool
is_receiver source destination identifier c =
    if str_eq destination event_destination_all
    then is_other source c
    else if str_eq destination event_destination_subscribers
    then is_subscribed c.subscriptions source identifier
    else is_named c.identifier destination

module _ {J : Type 0} (cj : CJson J) where
  -- Where no two clients have the same identifier, routing an event succeeds, and puts the event
  -- once into the queue of each receiver of its destination and changes nothing else.
  pub route-map :
      (s : Server J) (source destination identifier : String) (payload : Option J)
      → distinct (names s.clients) ≡ true
      → route cj s source destination identifier payload ≡ (
        record s {
          clients =
              map
                (λ c.
                  if is_receiver source destination identifier c
                  then delivered cj source identifier payload c
                  else c)
                s.clients;
        },
        ok,
      )
  unfolding route is_receiver send_to_one
  route-map s source destination identifier payload d =
      elim (Bool-cases (str_eq destination event_destination_all)) [
        | inl all ↦ rw (all, send_to_all-map cj source identifier payload s.clients) refl
        | inr not_all ↦ elim (Bool-cases (str_eq destination event_destination_subscribers)) [
          | inl some_of_them ↦
              rw
                (
                  not_all,
                  some_of_them,
                  send_to_subscribers-map cj source identifier payload s.clients,
                )
                refl
          | inr one ↦
              rw
                (
                  not_all,
                  one,
                  for_first-map (deliver cj source identifier payload)
                      (delivered cj source identifier payload) destination
                      (deliver-ok cj source identifier payload) s.clients d,
                )
                refl
        ]
      ]
