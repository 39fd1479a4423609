-- ===== src/Server.antt =====
-- `struct mbus_server` of src/server/server.c and its look-ups; the constants of src/server/server.h.
--
-- The listeners and the poll descriptors are not part of this record. A pointer to a client is the
-- number `handle`; following one whose client has been freed is a fault.
pub mod Events
pub mod Commands
pub mod Calls
pub mod Create
pub mod Status
pub mod Dispatch
pub mod Pings
pub mod Outbound
pub mod Receive
pub mod Presence
pub mod Run
pub mod Connections
pub mod Keeps
pub mod Handlers
pub mod CallHandlers
pub mod CreateHandler
pub mod Steps
pub mod Safety
pub mod Names
pub mod Examples
use mbus.Base.{
  ℕ, zero, suc, Bool, true, false, ◌&&◌, Option, none, some, List, [], ◌∷◌, ◌++◌, String, str_eq,
  ◌==◌, if◌then◌else◌, Exec, done, fault, Rc, ok, fail,
}
use mbus.Base.Int.{ℤ}
use mbus.Json.{CJson}
use mbus.Compress.{Zlib}
use mbus.Buffer.{Memory}
use mbus.Client.{Client}
use mbus.Method.{Method}

abbrev pub server_identifier : String
server_identifier = "org.mbus.server"

abbrev pub event_ping : String
event_ping = "org.mbus.server.event.ping"

abbrev pub event_pong : String
event_pong = "org.mbus.server.event.pong"

abbrev pub event_connected : String
event_connected = "org.mbus.server.event.connected"

abbrev pub event_disconnected : String
event_disconnected = "org.mbus.server.event.disconnected"

abbrev pub event_subscribed : String
event_subscribed = "org.mbus.server.event.subscribed"

abbrev pub event_unsubscribed : String
event_unsubscribed = "org.mbus.server.event.unsubscribed"

abbrev pub event_registered : String
event_registered = "org.mbus.server.event.registered"

abbrev pub event_unregistered : String
event_unregistered = "org.mbus.server.event.unregistered"

pub record Server (J : Type 0) : Type 0 where
  pub clients : List (Client J)
  pub methods : List (Method J)
  pub password : Option String
  pub running : Bool

-- strcmp of a string that may be NULL with a constant; `true` stands for 0.
unfoldable pub strcmp : Option String → String → Exec Bool
strcmp none b = fault
strcmp (some a) b = done (str_eq a b)

abbrev pub has_name : Option String → Bool
has_name none = false
has_name (some a) = true

-- `identifier != NULL && strcmp(identifier, name) == 0`
abbrev pub is_named : Option String → String → Bool
is_named none name = false
is_named (some identifier) name = str_eq identifier name

abbrev pub is_connection : Option ℕ → ℕ → Bool
is_connection none connection = false
is_connection (some k) connection = k == connection

-- What a call of the server meets: the libraries, the clock, the identifiers that snprintf makes of
-- the next values of rand, and what the socket calls say of a connection.
pub record Env (J : Type 0) : Type 0 where
  pub cj : CJson J
  pub zlib : Zlib
  pub memory : Memory
  pub now : ℕ
  pub draws : List String
  pub address : Option ℕ → Option String
  pub port : Option ℕ → ℤ

module _ {J : Type 0} where
  unfoldable pub find_client_by_identifier : List (Client J) → String → Option (Client J)
  find_client_by_identifier [] identifier = none
  find_client_by_identifier (c ∷ cs) identifier =
      if is_named c.identifier identifier then some c else find_client_by_identifier cs identifier

  unfoldable pub find_client_by_connection : List (Client J) → ℕ → Option (Client J)
  find_client_by_connection [] connection = none
  find_client_by_connection (c ∷ cs) connection =
      if is_connection c.connection connection
      then some c
      else find_client_by_connection cs connection

  -- The client at an address.
  unfoldable pub client_at : List (Client J) → ℕ → Option (Client J)
  client_at [] handle = none
  client_at (c ∷ cs) handle = if c.handle == handle then some c else client_at cs handle

  -- The client that a method came from.
  unfoldable pub source_of : List (Client J) → Option ℕ → Exec (Client J)
  source_of cs none = fault
  source_of cs (some handle) = elim (client_at cs handle) [ none ↦ fault | some c ↦ done c ]

  -- A write through a pointer to a client.
  unfoldable pub put_client : Client J → List (Client J) → List (Client J)
  put_client c [] = []
  put_client c (d ∷ ds) = if d.handle == c.handle then c ∷ ds else d ∷ put_client c ds
