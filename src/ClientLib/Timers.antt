-- ===== src/ClientLib/Timers.antt =====
-- The timers of src/client/client.c: mbus_client_get_run_timeout_unlocked, and the part of
-- mbus_client_run behind `out` for the connect timeout, the pings and the requests' timeouts.
use mbus.Base.{
  ℕ, zero, suc, ◌+◌, ◌-◌, ◌%◌, ◌^◌, Bool, true, false, not, ◌&&◌, Option, none, some, List, [], ◌∷◌,
  ◌++◌, ltb, leb, ◌^◌, ◌==◌, if◌then◌else◌, Exec, done, fault, spin, ◌>>=◌, Rc, ok, fail,
}
use mbus.Base.Int.{ℤ, pos, is_neg, is_le_zero, le_int}
use mbus.Clock.{clock_after}
use mbus.Server.{server_identifier, event_ping}
use mbus.ClientLib.{
  Runtime, MbusClient, Request, ClientState, connecting, connected, disconnecting, disconnected,
  unknown_state, at_most_once, timed_out, connect_timeout, disconnect_internal_error,
  ping_timed_out, notify_connect, notify_disconnect, plus_int,
}
use mbus.ClientLib.Requests.{note, retry_state, is_connected, is_connecting}
use mbus.ClientLib.Publish.{publish_with_options}
use mbus.ClientLib.Reset.{conclude, client_reset}

abbrev pub run_timeout_default : ℤ
run_timeout_default = pos 1000

unfoldable pub clock_before : ℕ → ℕ → Bool
clock_before a b = clock_after b a

-- `MIN(a, b)`
unfoldable pub min_int : ℤ → ℤ → ℤ
min_int a b = if le_int b a then b else a

-- `deadline - current` where the deadline is ahead.
unfoldable pub time_left : ℕ → ℕ → ℤ
time_left now deadline = pos ((deadline + 2 ^ 64 - now) % 2 ^ 64)

-- The time to a deadline, or the value given where it is past.
unfoldable pub until : ℕ → ℕ → ℤ → ℤ → ℤ
unfolding clock_before time_left min_int
until now deadline past timeout =
    if clock_before now deadline then min_int timeout (time_left now deadline) else past

abbrev pub has_socket {ℓ} : {A : Type ℓ} → Option A → Bool
has_socket none = false
has_socket (some a) = true

module _ {J : Type 0} where
  unfoldable pub request_deadline : Request J → ℕ
  request_deadline r = plus_int r.created_at r.timeout

  -- TAILQ_FOREACH over a queue of requests.
  unfoldable pub requests_timeout : ℕ → List (Request J) → ℤ → ℤ
  unfolding until request_deadline
  requests_timeout now [] timeout = timeout
  requests_timeout now (r ∷ rs) timeout =
      requests_timeout now rs
        (if is_neg r.timeout then timeout else until now (request_deadline r) (pos 0) timeout)

  unfoldable pub connecting_timeout : ℕ → MbusClient J → ℤ
  unfolding until min_int
  connecting_timeout now c =
      let interval = c.options.connect_interval in
      let limit = c.options.connect_timeout in
      if has_socket c.socket
      then if c.socket_connected
        then run_timeout_default
        else until now (plus_int c.connect_tsms limit) (min_int run_timeout_default limit)
            run_timeout_default
      else until now (plus_int c.connect_tsms interval) (min_int run_timeout_default interval)
          run_timeout_default

  -- The time to the next ping.
  unfoldable pub next_ping_timeout : ℕ → MbusClient J → ℤ
  unfolding until
  next_ping_timeout now c =
      if is_le_zero c.ping_interval
      then run_timeout_default
      else until now (plus_int c.ping_send_tsms c.ping_interval) (pos 0) run_timeout_default

  unfoldable pub connected_timeout : ℕ → MbusClient J → ℤ
  unfolding next_ping_timeout requests_timeout
  connected_timeout now c =
      requests_timeout now c.pendings (requests_timeout now c.requests (next_ping_timeout now c))

  unfoldable pub disconnected_timeout : ℕ → MbusClient J → ℤ
  unfolding until
  disconnected_timeout now c =
      if is_le_zero c.options.connect_interval
      then run_timeout_default
      else until now (plus_int c.connect_tsms c.options.connect_interval) run_timeout_default
          run_timeout_default

  unfoldable pub state_timeout : ClientState → ℕ → MbusClient J → ℤ
  unfolding connecting_timeout connected_timeout disconnected_timeout
  state_timeout connecting now c = connecting_timeout now c
  state_timeout connected now c = connected_timeout now c
  state_timeout disconnecting now c = pos 0
  state_timeout disconnected now c = disconnected_timeout now c
  state_timeout unknown_state now c = run_timeout_default

  unfoldable pub get_run_timeout : ℕ → MbusClient J → ℤ
  unfolding state_timeout
  get_run_timeout now c = if ltb 0 c.incoming.length then pos 0 else state_timeout c.state now c

module _ {J : Type 0} (rt : Runtime J) where
  open rt use {now}

  unfoldable pub connect_overdue : MbusClient J → Bool
  connect_overdue c =
      is_connecting c.state
      && (has_socket c.socket
          && (not c.socket_connected
              && clock_after now (plus_int c.connect_tsms c.options.connect_timeout)))

  unfoldable pub connect_timed_out : MbusClient J → Exec (MbusClient J)
  unfolding note retry_state
  connect_timed_out c = client_reset rt (note c (notify_connect connect_timeout)) >>= λ c'.
      let retried = record c' { state = retry_state c'.options } in
      done (
        if is_le_zero c'.options.connect_interval
        then note retried (notify_disconnect disconnect_internal_error)
        else retried)

  unfoldable pub ping_due : MbusClient J → Bool
  ping_due c = not c.ping_wait_pong && clock_after now (plus_int c.ping_send_tsms c.ping_interval)

  unfoldable pub send_ping : MbusClient J → MbusClient J × Rc
  send_ping c =
      publish_with_options rt
        (record c { ping_send_tsms = now; pong_recv_tsms = 0; ping_wait_pong = true })
        (record {
          destination = some server_identifier;
          event = some event_ping;
          payload = none;
          qos = at_most_once;
          timeout = pos 0;
        })

  unfoldable pub is_pong_late : MbusClient J → Bool
  is_pong_late c =
      c.ping_wait_pong
      && (not (c.ping_send_tsms == 0)
          && (c.pong_recv_tsms == 0 && clock_after now (plus_int c.ping_send_tsms c.ping_timeout)))

  -- The increment of the int at its end, which C leaves undefined.
  unfoldable pub pong_overflows : MbusClient J → Bool
  unfolding is_pong_late
  pong_overflows c = is_pong_late c && leb (2 ^ 31) (c.pong_missed_count + 1)

  unfoldable pub pong_missed : MbusClient J → MbusClient J
  unfolding is_pong_late
  pong_missed c =
      if is_pong_late c
      then record c { ping_wait_pong = false; pong_missed_count = c.pong_missed_count + 1 }
      else c

  unfoldable pub missed_too_many : MbusClient J → Bool
  missed_too_many c = not (le_int (pos c.pong_missed_count) c.ping_threshold)

  unfoldable pub ping_failed : MbusClient J → Exec (MbusClient J)
  unfolding note retry_state
  ping_failed c = client_reset rt (note c (notify_disconnect ping_timed_out)) >>= λ c'.
      done (record c' { state = retry_state c'.options })

  -- Behind a ping that was sent or was not due: the answer that is late, and the disconnection,
  -- from which the code goes back to `out`; the client and whether it does.
  unfoldable pub check_pong : MbusClient J × Rc → Exec (MbusClient J × Rc × Bool)
  unfolding pong_overflows pong_missed missed_too_many ping_failed
  check_pong (c, fail) = done (c, fail, false)
  check_pong (c, ok) =
      let c' = pong_missed c in
      if pong_overflows c
      then fault
      else if missed_too_many c'
      then (ping_failed c' >>= λ c''. done (c'', ok, true))
      else done (c', ok, false)

  unfoldable pub ping_round : MbusClient J → Exec (MbusClient J × Rc × Bool)
  unfolding ping_due send_ping check_pong
  ping_round c =
      if is_connected c.state && not (is_le_zero c.ping_interval)
      then check_pong (if ping_due c then send_ping c else (c, ok))
      else done (c, ok, false)

  unfoldable pub back_to_out :
      (MbusClient J → Exec (MbusClient J × Rc))
      → MbusClient J × Rc × Bool
      → Exec (MbusClient J × Rc)
  back_to_out again (c, fail, b) = done (c, fail)
  back_to_out again (c, ok, false) = done (c, ok)
  back_to_out again (c, ok, true) = again c

  -- Behind `out`, to which the code comes back once at most.
  unfoldable pub check_timers : ℕ → MbusClient J → Exec (MbusClient J × Rc)
  unfolding connect_overdue connect_timed_out ping_round back_to_out
  check_timers zero c = spin
  check_timers (suc fuel) c =
      if connect_overdue c
      then (connect_timed_out c >>= λ c'. check_timers fuel c')
      else (ping_round c >>= back_to_out (λ c'. check_timers fuel c'))

  unfoldable pub is_due : Request J → Bool
  unfolding request_deadline clock_before
  is_due r = not (is_neg r.timeout) && not (clock_before now (request_deadline r))

  -- The round on `r`, as in mbus_client_reset; `kept` are the requests before it.
  unfoldable pub saved_gone :
      List (Request J) → List (Request J) → Exec (MbusClient J) → Exec (MbusClient J)
  saved_gone [] left next = next
  saved_gone (n ∷ saved) [] next = fault
  saved_gone (n ∷ saved) (l ∷ left) next = next

  unfoldable pub expire_requests :
      List (Request J) → List (Request J) → MbusClient J → Exec (MbusClient J)
  unfolding is_due saved_gone conclude
  expire_requests kept [] c = done c
  expire_requests kept (r ∷ rest) c =
      let later = expire_requests (kept ++ (r ∷ [])) rest c in
      let after =
        conclude rt (client_reset rt) (record c { requests = kept ++ rest }) r timed_out >>= λ c'.
        saved_gone rest c'.requests (expire_requests kept rest c') in
      if is_due r then after else later

  unfoldable pub expire_pendings :
      List (Request J) → List (Request J) → MbusClient J → Exec (MbusClient J)
  unfolding is_due saved_gone conclude
  expire_pendings kept [] c = done c
  expire_pendings kept (r ∷ rest) c =
      let later = expire_pendings (kept ++ (r ∷ [])) rest c in
      let after =
        conclude rt (client_reset rt) (record c { pendings = kept ++ rest }) r timed_out >>= λ c'.
        saved_gone rest c'.pendings (expire_pendings kept rest c') in
      if is_due r then after else later

  unfoldable pub expire : MbusClient J → Exec (MbusClient J)
  unfolding expire_requests expire_pendings
  expire c = expire_requests [] c.requests c >>= λ c'. expire_pendings [] c'.pendings c'
