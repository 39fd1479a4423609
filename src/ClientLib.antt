-- ===== src/ClientLib.antt =====
-- src/client/client.c, the library that a program connects to the server with: `struct mbus_client`
-- and what it holds; the enumerations of src/client/client.h. The children model its operations.
--
-- A callback of the program and its context are numbers, NULL is `none`; every callback of the
-- options is set. What the library reports through them is a log, the field `notices`, in the
-- order of the calls; a callback does not call the library. SSL is not compiled in. The mutex is
-- left out: one thread uses a client. The bytes in the wakeup pipe are the field `wakeups`.
-- Allocations succeed, but those of the buffers are the parameter `Memory`.
pub mod Requests
pub mod Options
pub mod Commands
pub mod Subscribe
pub mod Register
pub mod Publish
pub mod Reset
pub mod Responses
pub mod Connect
pub mod Receive
pub mod Timers
pub mod Flush
pub mod Run
pub mod Api
pub mod Status
pub mod Defaults
pub mod Queueing
pub mod Invariant
pub mod Answers
pub mod Refused
pub mod Wakes
pub mod Stuck
pub mod Outcomes
pub mod Ends
pub mod Sending
pub mod Examples
use mbus.Base.{ℕ, ◌+◌, ◌%◌, ◌^◌, Bool, Option, List, String}
use mbus.Base.Int.{ℤ, to_u64}
use mbus.Buffer.{Buffer, Memory}
use mbus.Compress.{Compression, Zlib}
use mbus.Json.{CJson}

pub data ClientState : Type 0 where
  unknown_state : ClientState
  connecting : ClientState
  connected : ClientState
  disconnecting : ClientState
  disconnected : ClientState

pub data ConnectStatus : Type 0 where
  connect_success : ConnectStatus
  connect_internal_error : ConnectStatus
  invalid_protocol : ConnectStatus
  connection_refused : ConnectStatus
  server_unavailable : ConnectStatus
  connect_timeout : ConnectStatus
  connect_canceled : ConnectStatus
  invalid_protocol_version : ConnectStatus
  invalid_identifier : ConnectStatus
  server_error : ConnectStatus

pub data DisconnectStatus : Type 0 where
  disconnect_success : DisconnectStatus
  disconnect_internal_error : DisconnectStatus
  connection_closed : DisconnectStatus
  disconnect_canceled : DisconnectStatus
  ping_timed_out : DisconnectStatus

-- The enumerations for commands, events, subscriptions and registrations have these four each.
pub data RequestStatus : Type 0 where
  success : RequestStatus
  internal_error : RequestStatus
  timed_out : RequestStatus
  canceled : RequestStatus

pub data FdStatus : Type 0 where
  fd_create : FdStatus
  fd_events : FdStatus
  fd_destroy : FdStatus

pub data Wakeup : Type 0 where
  wakeup_break : Wakeup
  wakeup_connect : Wakeup
  wakeup_disconnect : Wakeup
  wakeup_publish : Wakeup

pub data Qos : Type 0 where
  at_most_once : Qos
  at_least_once : Qos
  exactly_once : Qos

pub record LocalRoutine : Type 0 where
  pub identifier : String
  pub callback : Option ℕ
  pub context : ℕ

pub record LocalSubscription : Type 0 where
  pub source : String
  pub identifier : String
  pub callback : Option ℕ
  pub context : ℕ

-- The functions that the library gives a request as its callback, one of the program, or NULL.
pub data Callback : Type 0 where
  on_nothing : Callback
  on_register : Callback
  on_unregister : Callback
  on_subscribe : Callback
  on_unsubscribe : Callback
  on_event : Callback
  on_create : Callback
  on_user : ℕ → Callback

-- What the untyped context of a request points to.
pub data Context : Type 0 where
  no_context : Context
  routine_context : LocalRoutine → Context
  subscription_context : LocalSubscription → Context
  user_context : ℕ → Context

pub record Request (J : Type 0) : Type 0 where
  pub string : List ℕ
  pub json : J
  pub callback : Callback
  pub context : Context
  pub created_at : ℕ
  pub timeout : ℤ

-- The calls of the program's callbacks; where one of a request, a subscription or a routine may stand
-- in for the one of the options, it comes first with its context, `none` for that of the options.
pub data Notice (J : Type 0) : Type 0 where
  notify_publish : Option J → RequestStatus → Notice J
  notify_subscribe : Option String → Option String → RequestStatus → Notice J
  notify_unsubscribe : Option String → Option String → RequestStatus → Notice J
  notify_registered : Option String → RequestStatus → Notice J
  notify_unregistered : Option String → RequestStatus → Notice J
  notify_result : Option (ℕ × Context) → J → Option J → RequestStatus → Notice J
  notify_connect : ConnectStatus → Notice J
  notify_disconnect : DisconnectStatus → Notice J
  notify_connectionfd : FdStatus → Notice J
  notify_message : Option (ℕ × ℕ) → J → Notice J
  notify_routine : Option (ℕ × ℕ) → J → Notice J

pub record ClientOptions : Type 0 where
  pub identifier : Option String
  pub password : Option String
  pub connect_timeout : ℤ
  pub connect_interval : ℤ
  pub subscribe_timeout : ℤ
  pub register_timeout : ℤ
  pub command_timeout : ℤ
  pub publish_timeout : ℤ
  pub server_protocol : Option String
  pub server_address : Option String
  pub server_port : ℤ
  pub ping_interval : ℤ
  pub ping_timeout : ℤ
  pub ping_threshold : ℤ

pub record MbusClient (J : Type 0) : Type 0 where
  pub options : ClientOptions
  pub state : ClientState
  pub socket : Option ℕ
  pub requests : List (Request J)
  pub pendings : List (Request J)
  pub routines : List LocalRoutine
  pub subscriptions : List LocalSubscription
  pub incoming : Buffer
  pub outgoing : Buffer
  pub identifier : Option String
  pub connect_tsms : ℕ
  pub ping_interval : ℤ
  pub ping_timeout : ℤ
  pub ping_threshold : ℤ
  pub ping_send_tsms : ℕ
  pub pong_recv_tsms : ℕ
  pub ping_wait_pong : Bool
  pub pong_missed_count : ℕ
  pub compression : Compression
  pub socket_connected : Bool
  pub sequence : ℕ
  pub wakeups : List Wakeup
  pub notices : List (Notice J)

-- The libraries below, the reading of the clock in the current call, and what the program's
-- callback for a command returns: a status and the payload that it sets.
pub record Runtime (J : Type 0) : Type 0 where
  pub cj : CJson J
  pub zlib : Zlib
  pub memory : Memory
  pub now : ℕ
  pub serve : Option (ℕ × ℕ) → J → ℤ × Option J

-- A clock reading plus an `int`, on 64 bits.
abbrev pub plus_int : ℕ → ℤ → ℕ
plus_int t z = (t + to_u64 z) % 2 ^ 64
