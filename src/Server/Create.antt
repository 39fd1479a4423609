-- ===== src/Server/Create.antt =====
-- server_handle_command_create: a connection gets its identifier, its ping settings and its
-- compression.
use mbus.Base.{
  ℕ, ◌+◌, ◌-◌, ◌%◌, ◌^◌, Bool, true, false, Option, none, some, List, [], ◌∷◌, String, str_eq,
  if◌then◌else◌, Exec, done, spin, ◌>>=◌, ok, fail,
}
use mbus.Base.Int.{ℤ, pos, minus_one, is_le_zero, le_int, to_u64}
use mbus.Json.{codes, get_object, get_string_value, get_int_value, array_strings}
use mbus.Compress.{Compression, method_none, method_zlib, Zlib, method_string}
use mbus.Method.{Method, request_payload, set_result_payload}
use mbus.Client.{Client, Ping, client_set_identifier}
use mbus.Server.{Server, Env, is_named, find_client_by_identifier, source_of, put_client}
use mbus.Server.Commands.{Handled}

-- `(mbus_clock_monotonic() - client->ping_interval)` in unsigned long long.
unfoldable pub sub_u64 : ℕ → ℕ → ℕ
sub_u64 a b = (a + 2 ^ 64 - b % 2 ^ 64) % 2 ^ 64

unfoldable pub ping_settings : ℕ → Ping → ℤ → ℤ → ℤ → Ping
ping_settings now p interval timeout threshold =
    if is_le_zero interval
    then record p {
      enabled = false;
      interval = pos 0;
      timeout = pos 0;
      threshold = pos 0;
      recv_tsms = 0;
    }
    else record p {
      enabled = true;
      interval = interval;
      timeout = if le_int timeout interval then timeout else interval;
      threshold = if is_le_zero threshold then pos 0 else threshold;
      recv_tsms = sub_u64 now (to_u64 interval);
    }

unfoldable pub offers : List (Option String) → String → Bool
offers [] name = false
offers (o ∷ os) name = if is_named o name then true else offers os name

-- The first method of `compression_methods[]` that the client offers.
unfoldable pub choose_compression : Zlib → List (Option String) → Compression
choose_compression z offered =
    if z.enabled then (if offers offered "zlib" then method_zlib else method_none) else method_none

unfoldable pub admits : Option String → Option String → Bool
admits none given = true
admits (some password) given = is_named given password

module _ {J : Type 0} where
  -- `while (1)`: the first identifier drawn that no client has.
  unfoldable pub draw_identifier : List String → List (Client J) → Exec String
  draw_identifier [] cs = spin
  draw_identifier (d ∷ ds) cs =
      let rest = draw_identifier ds cs in
      elim (find_client_by_identifier cs d) [ none ↦ done d | some c ↦ rest ]

  -- `identifier == NULL || strlen(identifier) == 0`
  unfoldable pub choose_identifier : List String → List (Client J) → Option String → Exec String
  choose_identifier draws cs none = draw_identifier draws cs
  choose_identifier draws cs (some identifier) =
      if str_eq identifier "" then draw_identifier draws cs else done identifier

module _ {J : Type 0} (e : Env J) where
  open e use {cj, zlib, now, draws}

  unfoldable pub greeting : Option String → Compression → Ping → J
  greeting identifier compression p =
      cj.add_item_to_object
        (cj.add_item_to_object
          (elim identifier [
            | none ↦ cj.create_object
            | some name ↦
                cj.add_item_to_object cj.create_object "identifier" (cj.create_string name)
          ])
          "compression" (cj.create_string (method_string zlib compression)))
        "ping"
        (cj.add_item_to_object
          (cj.add_item_to_object
            (cj.add_item_to_object cj.create_object "interval" (cj.create_number p.interval))
            "timeout" (cj.create_number p.timeout))
          "threshold" (cj.create_number p.threshold))

  -- The ping settings go to the client found by its identifier, the compression to the source.
  unfoldable pub set_up : Server J → Method J → Option J → Client J → Handled J
  unfolding greeting
  set_up s m payload client =
      let ping = get_object cj payload (codes "ping") in
      let p =
        ping_settings now client.ping (get_int_value cj ping "interval" minus_one)
          (get_int_value cj ping "timeout" minus_one)
          (get_int_value cj ping "threshold" minus_one) in
      let compression =
        choose_compression zlib (array_strings cj (get_object cj payload (codes "compressions"))) in
      let cs = put_client (record client { ping = p }) s.clients in
      source_of cs m.source >>= λ c. done (
        record s { clients = put_client (record c { compression = compression }) cs },
        set_result_payload cj m (some (greeting c.identifier compression p)),
        ok,
      )

  -- The password is looked at when the identifier has been given out.
  unfoldable pub enter : Server J → Method J → Option J → Option (Client J) → Handled J
  unfolding set_up
  enter s m payload none = done (s, m, fail)
  enter s m payload (some client) =
      if admits s.password (get_string_value cj payload "password" none)
      then set_up s m payload client
      else done (s, m, fail)

  unfoldable pub name_source : Server J → Method J → Option J → Client J → String → Handled J
  unfolding enter
  name_source s m payload c identifier = elim (find_client_by_identifier s.clients identifier) [
    | some other ↦ done (s, m, fail)
    | none ↦
        let cs = put_client (client_set_identifier c (some identifier)).0 s.clients in
        enter (record s { clients = cs }) m payload (find_client_by_identifier cs identifier)
  ]

  unfoldable pub create_for : Server J → Method J → Client J → Option String → Handled J
  unfolding name_source
  create_for s m c (some identifier) = done (s, m, fail)
  create_for s m c none =
      let payload = request_payload cj m in
      choose_identifier draws s.clients (get_string_value cj payload "identifier" none)
      >>= λ identifier. name_source s m payload c identifier

  unfoldable pub handle_command_create : Server J → Method J → Handled J
  unfolding create_for
  handle_command_create s m = source_of s.clients m.source >>= λ c. create_for s m c c.identifier
