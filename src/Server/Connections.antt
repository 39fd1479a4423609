-- ===== src/Server/Connections.antt =====
-- server_client_connection_establish and the callbacks of src/server/server.c for a connection over
-- websockets, less those for the poll descriptors.
--
-- The address of the new client is an argument; its listener and its connection are not NULL.
pub mod Arrival
use mbus.Base.{
  ℕ, Option, none, some, List, [], ◌∷◌, ◌++◌, Exec, done, fault, spin, ◌>>=◌, Rc, ok, fail,
}
use mbus.Buffer.{Buffer, Memory, push}
use mbus.Client.{Client, connection_closed, client_create, client_set_connection}
use mbus.Server.{Server, find_client_by_connection, put_client}

module _ {J : Type 0} where
  unfoldable pub connection_establish : Server J → ℕ → ℕ → ℕ → Server J × Rc
  connection_establish s handle listener connection =
      (record s { clients = s.clients ++ (client_create handle listener connection ∷ []) }, ok)

  -- `return mbus_buffer_push(client->buffer_in, in, len);`
  unfoldable pub receive_into : Memory → Server J → Client J → List ℕ → Exec (Server J × Rc)
  receive_into m s c bytes = push m c.buffer_in bytes >>= λ r.
      done (record s { clients = put_client (record c { buffer_in = r.0 }) s.clients }, r.1)

  unfoldable pub callback_connection_receive : Memory → Server J → ℕ → List ℕ → Exec (Server J × Rc)
  unfolding receive_into
  callback_connection_receive m s connection bytes =
      elim (find_client_by_connection s.clients connection) [
        | none ↦ done (s, fail)
        | some c ↦ receive_into m s c bytes
      ]

  unfoldable pub callback_connection_writable : Server J → ℕ → Option Buffer
  callback_connection_writable s connection =
      elim (find_client_by_connection s.clients connection) [
        | none ↦ none
        | some c ↦ some c.buffer_out
      ]

  unfoldable pub callback_connection_closed : Server J → ℕ → Server J × Rc
  callback_connection_closed s connection = elim (find_client_by_connection s.clients connection) [
    | none ↦ (s, fail)
    | some c ↦
        let (c', rc) = client_set_connection c none connection_closed in
        (record s { clients = put_client c' s.clients }, rc)
  ]
