-- ===== src/ClientLib/Flush.antt =====
-- The end of mbus_client_run of src/client/client.c: the queued requests go to the output buffer.
-- The events that the descriptor is watched for; mbus_client_has_pending_unlocked.
use mbus.Base.{
  ℕ, Bool, true, false, not, ◌&&◌, ◌||◌, none, some, List, [], ◌∷◌, ◌++◌, ltb, length,
  if◌then◌else◌, Exec, done, ◌>>=◌, Rc, ok, fail,
}
use mbus.Buffer.{Buffer}
use mbus.Frame.{push_string}
use mbus.Method.{type_event}
use mbus.ClientLib.{Runtime, MbusClient, Request, success}
use mbus.ClientLib.Requests.{strcmp_case, is_connecting, request_get_type}
use mbus.ClientLib.Reset.{conclude_event}

module _ {J : Type 0} (rt : Runtime J) where
  open rt use {zlib, memory}

  -- A request that is written: an event is done with, a command waits for its answer.
  unfoldable pub request_sent : MbusClient J → Request J → Exec (MbusClient J)
  unfolding strcmp_case
  request_sent c r =
      strcmp_case (request_get_type rt r) type_event (conclude_event rt c r success)
        (done (record c { pendings = c.pendings ++ (r ∷ []) }))

  unfoldable pub flush_pushed :
      (MbusClient J → Exec (MbusClient J × Rc))
      → MbusClient J
      → Request J
      → List (Request J)
      → Buffer × Rc
      → Exec (MbusClient J × Rc)
  unfolding request_sent
  flush_pushed next c r rest (b, fail) = done (record c { outgoing = b }, fail)
  flush_pushed next c r rest (b, ok) =
      request_sent (record c { outgoing = b; requests = rest }) r >>= next

  unfoldable pub flush : List (Request J) → MbusClient J → Exec (MbusClient J × Rc)
  unfolding flush_pushed
  flush [] c = done (c, ok)
  flush (r ∷ rest) c =
      push_string zlib memory c.outgoing c.compression r.string
      >>= flush_pushed (λ c'. flush rest c') c r rest

abbrev is_empty {ℓ} : {A : Type ℓ} → List A → Bool
is_empty [] = true
is_empty (x ∷ xs) = false

module _ {J : Type 0} where
  -- The bits 1 for input and 2 for output.
  unfoldable pub connection_fd_events : MbusClient J → ℕ
  connection_fd_events c = elim c.socket [
    | none ↦ 0
    | some fd ↦
        if is_connecting c.state && not c.socket_connected
        then 3
        else if ltb 0 c.outgoing.length || not (is_empty c.requests)
        then 3
        else 1
  ]

  unfoldable pub has_pending : MbusClient J → Bool
  has_pending c =
      ltb 0 (length c.requests)
      || (ltb 0 (length c.pendings) || (ltb 0 c.incoming.length || ltb 0 c.outgoing.length))
