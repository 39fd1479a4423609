-- ===== src/Server/Presence.antt =====
-- The end of mbus_server_run_timeout: clients that are new are accepted and announced, and clients
-- that have lost their connection are announced, taken out and destroyed.
--
-- The loops run over the addresses of the clients, since a notification changes every client.
pub mod Departure
use mbus.Base.{
  ℕ, Bool, true, false, Option, none, some, List, [], ◌∷◌, ◌++◌, map, String, str_eq, ◌==◌,
  if◌then◌else◌, ◌&&◌, Exec, done, fault, ◌>>=◌, Rc, ok, fail,
}
use mbus.Base.Int.{ℤ, minus_one}
use mbus.Method.{Method, type_event, request_type, request_destination, set_result_code}
use mbus.Client.{Client, Status, client_push_result}
use mbus.Server.{Server, Env, is_named, has_name, client_at, put_client}
use mbus.Server.Events.{send_event_connected, send_event_disconnected}

abbrev is_null {ℓ} : {A : Type ℓ} → Option A → Bool
is_null none = true
is_null (some a) = false

abbrev pub comes_from : Option ℕ → ℕ → Bool
comes_from none h = false
comes_from (some k) h = k == h

module _ {J : Type 0} where
  abbrev pub handles : List (Client J) → List ℕ
  handles = map λ c. c.handle

  unfoldable pub accept_client : Client J → Client J
  accept_client c =
      if is_null c.connection
      then c
      else if c.status.accepted
      then c
      else record c { status = record (c.status) { accepted = true } }

  -- The three tests of the second loop.
  unfoldable pub is_arriving : Client J → Bool
  is_arriving c =
      if is_null c.connection
      then false
      else if is_null c.identifier
      then false
      else if c.status.accepted
      then (if c.status.connected then false else true)
      else false

  unfoldable pub remove_client : ℕ → List (Client J) → List (Client J)
  remove_client h [] = []
  remove_client h (c ∷ cs) = if c.handle == h then cs else c ∷ remove_client h cs

module _ {J : Type 0} (e : Env J) where
  open e use {cj, now, address, port}

  unfoldable pub announce : Server J → Client J → Server J × Rc
  announce s c =
      send_event_connected cj now
        (record s {
          clients =
              put_client (record c { status = record (c.status) { connected = true } }) s.clients;
        })
        c.identifier (address c.connection) (port c.connection)

  unfoldable pub arrive : Server J → Option (Client J) → Server J × Rc
  unfolding announce
  arrive s none = (s, ok)
  arrive s (some c) = if is_arriving c then announce s c else (s, ok)

  unfoldable pub and_continue : (Server J → Server J × Rc) → Server J × Rc → Server J × Rc
  and_continue next (s, fail) = (s, fail)
  and_continue next (s, ok) = next s

  unfoldable pub connect_clients : List ℕ → Server J → Server J × Rc
  unfolding arrive and_continue
  connect_clients [] s = (s, ok)
  connect_clients (h ∷ hs) s =
      and_continue (λ s'. connect_clients hs s') (arrive s (client_at s.clients h))

  -- A queued command of the client is dropped, an event is kept.
  unfoldable pub drop_methods : ℕ → List (Method J) → List (Method J)
  drop_methods h [] = []
  drop_methods h (m ∷ ms) =
      let rest = drop_methods h ms in
      if comes_from m.source h
      then (if is_named (request_type cj m) type_event then m ∷ rest else rest)
      else m ∷ rest

  -- The methods of the client whose types strcmp compares have one.
  unfoldable pub have_types : ℕ → List (Method J) → Bool
  have_types h [] = true
  have_types h (m ∷ ms) =
      if comes_from m.source h
      then (has_name (request_type cj m) && have_types h ms)
      else have_types h ms

  -- A client without an identifier is not compared with.
  unfoldable pub have_destinations : Option String → List (Method J) → Bool
  have_destinations none ms = true
  have_destinations (some name) [] = true
  have_destinations (some name) (m ∷ ms) =
      has_name (request_destination cj m) && have_destinations (some name) ms

  unfoldable pub are_comparable : Option String → List (Client J) → Bool
  unfolding have_destinations
  are_comparable name [] = true
  are_comparable name (c ∷ cs) = have_destinations name c.waits && are_comparable name cs

  -- The comparison, of a destination that is there.
  unfoldable pub awaits : Option String → Method J → Bool
  awaits none m = false
  awaits (some name) m = is_named (request_destination cj m) name

  -- The calls that wait for the client, and those that do not.
  unfoldable pub failed_waits : Option String → List (Method J) → List (Method J)
  unfolding awaits
  failed_waits name [] = []
  failed_waits name (m ∷ ms) =
      let rest = failed_waits name ms in
      if awaits name m then set_result_code cj m minus_one ∷ rest else rest

  unfoldable pub other_waits : Option String → List (Method J) → List (Method J)
  unfolding awaits
  other_waits name [] = []
  other_waits name (m ∷ ms) =
      let rest = other_waits name ms in if awaits name m then rest else m ∷ rest

  -- Each call that waits for the client is answered with -1.
  unfoldable pub fail_waits : Option String → Client J → Client J
  fail_waits name c = record c {
    waits = other_waits name c.waits;
    results = c.results ++ failed_waits name c.waits;
  }

  unfoldable pub taken_out : Server J → Client J → Server J
  taken_out s c = record s {
    clients = map (fail_waits c.identifier) (remove_client c.handle s.clients);
    methods = drop_methods c.handle s.methods;
  }

  -- strcmp of a NULL type or destination is a fault, wherever the loops come to it.
  unfoldable pub disconnect : Server J → Client J → Exec (Server J × Rc)
  unfolding taken_out
  disconnect s c =
      if have_types c.handle s.methods
        && are_comparable c.identifier (remove_client c.handle s.clients)
      then done (
          if c.status.connected
          then send_event_disconnected cj now (taken_out s c) c.identifier c.connection_close_code
          else (taken_out s c, ok))
      else fault

  unfoldable pub depart : Server J → Option (Client J) → Exec (Server J × Rc)
  depart s none = done (s, ok)
  depart s (some c) = if is_null c.connection then disconnect s c else done (s, ok)

  unfoldable pub and_depart :
      (Server J → Exec (Server J × Rc)) → Server J × Rc → Exec (Server J × Rc)
  and_depart next (s, fail) = done (s, fail)
  and_depart next (s, ok) = next s

  unfoldable pub disconnect_clients : List ℕ → Server J → Exec (Server J × Rc)
  unfolding depart and_depart
  disconnect_clients [] s = done (s, ok)
  disconnect_clients (h ∷ hs) s =
      depart s (client_at s.clients h) >>= and_depart (λ s'. disconnect_clients hs s')
