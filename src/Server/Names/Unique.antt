-- ===== src/Server/Names/Unique.antt =====
-- What server_handle_command_create of src/server/server.c does to the clients' identifiers.
use mbus.Base.{
  ℕ, ◌≡◌, ◌∙◌, refl, sym, ap, subst, true, false, Option, none, some, List, [], ◌∷◌, String, str_eq,
  eq_iff, eq_refl, ◌==◌, done, Returns, Rc, fail, arith, Option-cases, Bool-cases, inl, inr,
}
use mbus.Json.{get_string_value}
use mbus.Method.{Method, request_payload, set_result_payload}
use mbus.Client.{Client, client_set_identifier}
use mbus.Server.{Server, Env, is_named, find_client_by_identifier, client_at, source_of, put_client}
use mbus.Server.Create.{
  admits, choose_identifier, set_up, enter, name_source, create_for, handle_command_create,
}
use mbus.Server.Keeps.{client_at-handle}
use mbus.Server.Handlers.{HasSource, source_step}
use mbus.Server.CreateHandler.{CanName, put-HasSource}
use mbus.Server.Names.{taken, distinct, names, find_client_by_identifier-taken}

module _ {J : Type 0} where
  -- A client keeps its name where one with the same address is written back with the same name.
  names-put_client :
      (cs : List (Client J)) (c d : Client J)
      → client_at cs c.handle ≡ some d
      → c.identifier ≡ d.identifier
      → names (put_client c cs) ≡ names cs
  unfolding put_client client_at
  names-put_client [] c d found same = refl
  names-put_client (k ∷ ks) c d found same = elim (Bool-cases (k.handle == c.handle)) [
    | inl hit ↦ ground (arith, hit)
    | inr miss ↦ ground (arith, miss, names-put_client ks c d (ground (arith, miss)) same)
  ]

  taken-put_client :
      (cs : List (Client J)) (c : Client J) (name other : String)
      → c.identifier ≡ some name
      → taken (names cs) other ≡ false
      → str_eq name other ≡ false
      → taken (names (put_client c cs)) other ≡ false
  unfolding put_client taken
  taken-put_client [] c name other q h d = refl
  taken-put_client (k ∷ ks) c name other q h d = elim (Bool-cases (is_named k.identifier other)) [
    | inl hit ↦ ground (arith, hit)
    | inr miss ↦ ground (arith, miss, taken-put_client ks c name other q (ground (arith, miss)) d)
  ]

  distinct-put_client :
      (cs : List (Client J)) (c : Client J) (name : String)
      → c.identifier ≡ some name
      → taken (names cs) name ≡ false
      → distinct (names cs) ≡ true
      → distinct (names (put_client c cs)) ≡ true
  unfolding put_client taken distinct
  distinct-put_client [] c name q free h = refl
  distinct-put_client (k ∷ ks) c name q free h = elim (Option-cases k.identifier) [
    | inl nameless ↦ ground (arith, nameless, distinct-put_client ks c name q)
    | inr (n, named) ↦ elim (Bool-cases (str_eq name n)) [
      | inl same ↦
          let q' : name ≡ n = (eq_iff name n).0 same in
          ground (arith, named, eq_refl n, subst (λ z. taken (names (k ∷ ks)) z ≡ false) q' free)
      | inr other ↦ elim (Bool-cases (k.handle == c.handle)) [
        | inl hit ↦ ground (arith, named, other, hit, q)
        | inr miss ↦ ground (
          arith,
          named,
          other,
          miss,
          distinct-put_client ks c name q,
          taken-put_client ks c name n q,
        )
      ]
    ]
  ]

  find-put_client :
      (cs : List (Client J)) (c d : Client J) (name : String)
      → client_at cs c.handle ≡ some d
      → c.identifier ≡ some name
      → taken (names cs) name ≡ false
      → find_client_by_identifier (put_client c cs) name ≡ some c
  unfolding put_client client_at find_client_by_identifier taken
  find-put_client [] c d name found q free = cc
  find-put_client (k ∷ ks) c d name found q free = elim (Bool-cases (k.handle == c.handle)) [
    | inl hit ↦ ground (arith, hit, q, eq_refl name)
    | inr miss ↦ elim (Bool-cases (is_named k.identifier name)) [
      | inl same ↦ ground (arith, same)
      | inr other ↦ ground (arith, miss, other, find-put_client ks c d name)
    ]
  ]

  client_at-put_client :
      (cs : List (Client J)) (c d : Client J)
      → client_at cs c.handle ≡ some d
      → client_at (put_client c cs) c.handle ≡ some c
  unfolding put_client client_at
  client_at-put_client [] c d found = cc
  client_at-put_client (k ∷ ks) c d found = elim (Bool-cases (k.handle == c.handle)) [
    | inl hit ↦ ground (arith, hit)
    | inr miss ↦ ground (arith, miss, client_at-put_client ks c d)
  ]

  -- The identifiers after a run.
  abbrev IsUnique : Server J × Method J × Rc → Type 0
  IsUnique r = distinct (names r.0.clients) ≡ true

  -- The client that a method came from is the one at its address.
  client_at-source :
      (cs : List (Client J)) (source : Option ℕ) (c : Client J)
      → source_of cs source ≡ done c
      → client_at cs c.handle ≡ some c
  unfolding source_of
  client_at-source cs none c found = cc
  client_at-source cs (some k) c found = elim (Option-cases (client_at cs k)) [
    | inl missing ↦ ground (arith, missing)
    | inr (d, there) ↦
        let same : d ≡ c = (ground (arith, there)) in
        subst (λ h. client_at cs h ≡ some c) (sym (client_at-handle cs k c (there ∙ ap some same)))
          (there ∙ ap some same)
  ]

  -- Writing to the client that a method came from changes no name.
  names-source :
      (cs : List (Client J)) (source : Option ℕ) (c d : Client J)
      → source_of cs source ≡ done c
      → d.handle ≡ c.handle
      → d.identifier ≡ c.identifier
      → names (put_client d cs) ≡ names cs
  names-source cs source c d found h same =
      names-put_client cs d c
        (subst (λ k. client_at cs k ≡ some c) (sym h) (client_at-source cs source c found)) same

module _ {J : Type 0} (e : Env J) where
  open e use {cj, draws}

  set_up-IsUnique :
      (s : Server J) (m : Method J) (payload : Option J) (client : Client J)
      → HasSource s m
      → client_at s.clients client.handle ≡ some client
      → distinct (names s.clients) ≡ true
      → Returns (IsUnique {J = J}) (set_up e s m payload client)
  unfolding set_up set_result_payload
  set_up-IsUnique s m payload client known there unique =
      source_step (IsUnique {J = J}) _ m _ (put-HasSource s m _ known) λ c found.
        ap distinct (
          names-source _ m.source c _ found refl refl
          ∙ names-put_client s.clients _ client there refl)
        ∙ unique

  enter-IsUnique :
      (s : Server J) (m : Method J) (payload : Option J) (client : Client J)
      → HasSource s m
      → client_at s.clients client.handle ≡ some client
      → distinct (names s.clients) ≡ true
      → Returns (IsUnique {J = J}) (enter e s m payload (some client))
  unfolding enter
  enter-IsUnique s m payload client known there unique =
      elim (Bool-cases (admits s.password (get_string_value cj payload "password" none))) [
        | inl welcome ↦ rw welcome (set_up-IsUnique s m payload client known there unique)
        | inr wrong ↦ rw wrong unique
      ]

  name_source-IsUnique :
      (s : Server J) (m : Method J) (payload : Option J) (c : Client J) (identifier : String)
      → HasSource s m
      → client_at s.clients c.handle ≡ some c
      → distinct (names s.clients) ≡ true
      → Returns (IsUnique {J = J}) (name_source e s m payload c identifier)
  unfolding name_source client_set_identifier
  name_source-IsUnique s m payload c identifier known there unique =
      elim (Option-cases (find_client_by_identifier s.clients identifier)) [
        | inr (other, used) ↦ rw (used, name_source) unique
        | inl unused ↦
            let free = find_client_by_identifier-taken s.clients identifier unused in
            let named : Client J = record c { identifier = some identifier } in
            rw (unused, name_source, find-put_client s.clients named c identifier there refl free)
              (enter-IsUnique (record s { clients = put_client named s.clients }) m payload named
                (put-HasSource s m named known) (client_at-put_client s.clients named c there)
                (distinct-put_client s.clients named identifier refl free unique))
      ]

  -- If no two clients have the same identifier then none have after command.create, whether it
  -- succeeds or fails, for a living client, if an identifier can be had.
  pub create-IsUnique :
      (s : Server J) (m : Method J)
      → HasSource s m
      → CanName e s m
      → distinct (names s.clients) ≡ true
      → Returns (λ r. distinct (names r.0.clients) ≡ true) (handle_command_create e s m)
  unfolding handle_command_create CanName
  create-IsUnique s m known (identifier, chosen) unique =
      source_step (IsUnique {J = J}) s m _ known
        (λ c found. go c (client_at-source s.clients m.source c found) c.identifier)
    where
      go :
          (c : Client J)
          → client_at s.clients c.handle ≡ some c
          → (old : Option String) → Returns (IsUnique {J = J}) (create_for e s m c old)
      go c there (some old) = unfold create_for in unique
      go c there none =
          unfold create_for in
          rw chosen (name_source-IsUnique s m _ c identifier known there unique)

  -- A living client without an identifier that sends command.create with an identifier nobody
  -- has, or one drawn for it, and no or a wrong password, to a server with a password, is
  -- refused, and has the identifier all the same.
  pub create-wrong_password :
      (s : Server J) (m : Method J) (c : Client J) (identifier password : String)
      → source_of s.clients m.source ≡ done c
      → c.identifier ≡ none
      → choose_identifier draws s.clients
          (get_string_value cj (request_payload cj m) "identifier" none)
        ≡ done identifier
      → find_client_by_identifier s.clients identifier ≡ none
      → s.password ≡ some password
      → is_named (get_string_value cj (request_payload cj m) "password" none) password ≡ false
      → (t : Server J) × (handle_command_create e s m ≡ done (t, m, fail))
        × (find_client_by_identifier t.clients identifier
            ≡ some (record c { identifier = some identifier }))
  unfolding handle_command_create create_for name_source client_set_identifier enter admits
  create-wrong_password s m c identifier password found unnamed chosen unused secret wrong =
      let there = client_at-source s.clients m.source c found in
      let named : Client J = record c { identifier = some identifier } in
      let free = find_client_by_identifier-taken s.clients identifier unused in
      let put = find-put_client s.clients named c identifier there refl free in
      (
        record s { clients = put_client named s.clients },
        rw found (
            ap (create_for e s m c) unnamed
            ∙ rw chosen (rw (unused, name_source, put, secret, wrong) refl)),
        put,
      )
