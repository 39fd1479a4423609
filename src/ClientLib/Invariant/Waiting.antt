-- ===== src/ClientLib/Invariant/Waiting.antt =====
-- The timers and the output queue keep the invariant of a client of src/client/client.c.
use mbus.Base.{
  ℕ, zero, suc, Bool, true, false, not, ◌&&◌, none, some, List, [], ◌∷◌, ◌++◌, All, All-append,
  if◌then◌else◌, Exec, Rc, ok, fail, arith,
}
use mbus.Base.Int.{is_le_zero, pos}
use mbus.Buffer.{Buffer}
use mbus.Frame.{push_string}
use mbus.Server.{server_identifier, event_ping}
use mbus.ClientLib.{
  Runtime, MbusClient, Request, success, timed_out, notify_connect, connect_timeout,
  notify_disconnect, ping_timed_out, at_most_once,
}
use mbus.ClientLib.Requests.{note, retry_state, strcmp_case, is_connected}
use mbus.ClientLib.Reset.{client_reset, conclude}
use mbus.ClientLib.Timers.{
  connect_overdue, connect_timed_out, ping_due, send_ping, pong_missed, pong_overflows,
  missed_too_many, ping_failed, check_pong, ping_round, back_to_out, check_timers, is_due,
  saved_gone, expire_requests, expire_pendings, expire,
}
use mbus.ClientLib.Flush.{request_sent, flush_pushed, flush}
use mbus.ClientLib.Invariant.{
  Holds, bind_Holds, any_Holds, if_Holds, IsWell, Sound, state-Sound, requests-Sound,
  pendings-Sound, retry_state_known, conclude-Sound, conclude_event-Sound,
}
use mbus.ClientLib.Invariant.Resets.{client_reset-Sound}
use mbus.ClientLib.Invariant.Calls.{publish-Sound}
use mbus.ClientLib.Invariant.Receiving.{SoundRc, SoundMore}

module _ {J : Type 0} (rt : Runtime J) where
  retried-Sound :
      (c : MbusClient J) → Sound rt.cj c → Sound rt.cj (record c { state = retry_state c.options })
  retried-Sound c s =
      state-Sound rt c.state (retry_state c.options) c.sequence c.requests c.pendings
        (retry_state_known rt c.options) s

  connect_timed_out-Sound :
      (c : MbusClient J) → Sound rt.cj c → Holds (Sound rt.cj) (connect_timed_out rt c)
  unfolding connect_timed_out note
  connect_timed_out-Sound c s =
      bind_Holds (Sound rt.cj) (Sound rt.cj)
        (client_reset rt (note c (notify_connect connect_timeout))) _
        (client_reset-Sound rt (note c (notify_connect connect_timeout)) s)
        (λ c' s'. ground (arith, retried-Sound c' s'))

  ping_failed-Sound : (c : MbusClient J) → Sound rt.cj c → Holds (Sound rt.cj) (ping_failed rt c)
  unfolding ping_failed note
  ping_failed-Sound c s =
      bind_Holds (Sound rt.cj) (Sound rt.cj)
        (client_reset rt (note c (notify_disconnect ping_timed_out))) _
        (client_reset-Sound rt (note c (notify_disconnect ping_timed_out)) s) retried-Sound

  send_ping-Sound : (c : MbusClient J) → Sound rt.cj c → SoundRc rt (send_ping rt c)
  unfolding send_ping
  send_ping-Sound c s =
      publish-Sound rt
        (record c { ping_send_tsms = rt.now; pong_recv_tsms = 0; ping_wait_pong = true })
        (record {
          destination = some server_identifier;
          event = some event_ping;
          payload = none;
          qos = at_most_once;
          timeout = pos 0;
        })
        s

  pong_missed-Sound : (c : MbusClient J) → Sound rt.cj c → Sound rt.cj (pong_missed rt c)
  unfolding pong_missed
  pong_missed-Sound c s = ground arith

  check_pong-Sound : (r : MbusClient J × Rc) → SoundRc rt r → Holds (SoundMore rt) (check_pong rt r)
  unfolding check_pong
  check_pong-Sound (c, fail) s = s
  check_pong-Sound (c, ok) s =
      let c' = pong_missed rt c in
      if_Holds (SoundMore rt) (pong_overflows rt c) _ _ tt (
        if_Holds (SoundMore rt) (missed_too_many rt c') _ _
          (bind_Holds (Sound rt.cj) (SoundMore rt) (ping_failed rt c') _
            (ping_failed-Sound c' (pong_missed-Sound c s)) (λ c'' s'. s'))
          (pong_missed-Sound c s))

  ping_round-Sound : (c : MbusClient J) → Sound rt.cj c → Holds (SoundMore rt) (ping_round rt c)
  unfolding ping_round
  ping_round-Sound c s =
      if_Holds (SoundMore rt) (is_connected c.state && not (is_le_zero c.ping_interval)) _ _
        (check_pong-Sound (if ping_due rt c then send_ping rt c else (c, ok))
          (ground (arith, send_ping-Sound c s)))
        s

  back_to_out-Sound :
      (again : MbusClient J → Exec (MbusClient J × Rc)) (r : MbusClient J × Rc × Bool)
      → ((c : MbusClient J) → Sound rt.cj c → Holds (SoundRc rt) (again c))
      → SoundMore rt r
      → Holds (SoundRc rt) (back_to_out rt again r)
  unfolding back_to_out
  back_to_out-Sound again (c, fail, b) k s = s
  back_to_out-Sound again (c, ok, false) k s = s
  back_to_out-Sound again (c, ok, true) k s = k c s

  pub check_timers-Sound :
      (fuel : ℕ) (c : MbusClient J) → Sound rt.cj c → Holds (SoundRc rt) (check_timers rt fuel c)
  unfolding check_timers
  check_timers-Sound zero c s = tt
  check_timers-Sound (suc fuel) c s =
      if_Holds (SoundRc rt) (connect_overdue rt c) _ _
        (bind_Holds (Sound rt.cj) (SoundRc rt) (connect_timed_out rt c) _
          (connect_timed_out-Sound c s) (check_timers-Sound fuel))
        (bind_Holds (SoundMore rt) (SoundRc rt) (ping_round rt c) _ (ping_round-Sound c s) (λ r s'.
          back_to_out-Sound (λ c'. check_timers rt fuel c') r (check_timers-Sound fuel) s'))

  saved_gone-Sound :
      (saved left : List (Request J)) (x : Exec (MbusClient J))
      → Holds (Sound rt.cj) x
      → Holds (Sound rt.cj) (saved_gone rt saved left x)
  unfolding saved_gone
  saved_gone-Sound saved left x h = ground arith

  expire_requests-Sound :
      (kept rest : List (Request J)) (c : MbusClient J)
      → All (IsWell rt.cj) kept
      → All (IsWell rt.cj) rest
      → Sound rt.cj c
      → Holds (Sound rt.cj) (expire_requests rt kept rest c)
  unfolding expire_requests
  expire_requests-Sound kept [] c k h s = s
  expire_requests-Sound kept (r ∷ rest) c k h s =
      let left = record c { requests = kept ++ rest } in
      let sound =
        requests-Sound rt c.state c.sequence c.requests (kept ++ rest) c.pendings
          (All-append (IsWell rt.cj) kept rest k h.1) s in
      if_Holds (Sound rt.cj) (is_due rt r) _ _
        (bind_Holds (Sound rt.cj) (Sound rt.cj) (conclude rt (client_reset rt) left r timed_out) _
          (conclude-Sound rt (client_reset rt) (client_reset-Sound rt) left r timed_out sound)
          (λ c' s'.
            saved_gone-Sound rest c'.requests _ (expire_requests-Sound kept rest c' k h.1 s')))
        (expire_requests-Sound (kept ++ (r ∷ [])) rest c
          (All-append (IsWell rt.cj) kept (r ∷ []) k (h.0, tt)) h.1 s)

  expire_pendings-Sound :
      (kept rest : List (Request J)) (c : MbusClient J)
      → All (IsWell rt.cj) kept
      → All (IsWell rt.cj) rest
      → Sound rt.cj c
      → Holds (Sound rt.cj) (expire_pendings rt kept rest c)
  unfolding expire_pendings
  expire_pendings-Sound kept [] c k h s = s
  expire_pendings-Sound kept (r ∷ rest) c k h s =
      let left = record c { pendings = kept ++ rest } in
      let sound =
        pendings-Sound rt c.state c.sequence c.requests c.pendings (kept ++ rest)
          (All-append (IsWell rt.cj) kept rest k h.1) s in
      if_Holds (Sound rt.cj) (is_due rt r) _ _
        (bind_Holds (Sound rt.cj) (Sound rt.cj) (conclude rt (client_reset rt) left r timed_out) _
          (conclude-Sound rt (client_reset rt) (client_reset-Sound rt) left r timed_out sound)
          (λ c' s'.
            saved_gone-Sound rest c'.pendings _ (expire_pendings-Sound kept rest c' k h.1 s')))
        (expire_pendings-Sound (kept ++ (r ∷ [])) rest c
          (All-append (IsWell rt.cj) kept (r ∷ []) k (h.0, tt)) h.1 s)

  pub expire-Sound : (c : MbusClient J) → Sound rt.cj c → Holds (Sound rt.cj) (expire rt c)
  unfolding expire
  expire-Sound c s =
      bind_Holds (Sound rt.cj) (Sound rt.cj) (expire_requests rt [] c.requests c) _
        (expire_requests-Sound [] c.requests c tt s.requests s)
        (λ c' s'. expire_pendings-Sound [] c'.pendings c' tt s'.pendings s')

  request_sent-Sound :
      (c : MbusClient J) (r : Request J)
      → IsWell rt.cj r
      → Sound rt.cj c
      → Holds (Sound rt.cj) (request_sent rt c r)
  unfolding request_sent strcmp_case
  request_sent-Sound c r w s =
      let waiting =
        pendings-Sound rt c.state c.sequence c.requests c.pendings (c.pendings ++ (r ∷ []))
          (All-append (IsWell rt.cj) c.pendings (r ∷ []) s.pendings (w, tt)) s in
      ground (
        arith,
        conclude_event-Sound rt (client_reset rt) (client_reset-Sound rt) c r success s,
        waiting,
      )

  flush_pushed-Sound :
      (next : MbusClient J → Exec (MbusClient J × Rc)) (c : MbusClient J) (r : Request J)
      (rest : List (Request J)) (b : Buffer × Rc)
      → ((c' : MbusClient J) → Sound rt.cj c' → Holds (SoundRc rt) (next c'))
      → IsWell rt.cj r
      → All (IsWell rt.cj) rest
      → Sound rt.cj c
      → Holds (SoundRc rt) (flush_pushed rt next c r rest b)
  unfolding flush_pushed
  flush_pushed-Sound next c r rest (b, fail) k w h s = s
  flush_pushed-Sound next c r rest (b, ok) k w h s =
      bind_Holds (Sound rt.cj) (SoundRc rt)
        (request_sent rt (record c { outgoing = b; requests = rest }) r) _
        (request_sent-Sound (record c { outgoing = b; requests = rest }) r w
          (requests-Sound rt c.state c.sequence c.requests rest c.pendings h s))
        k

  pub flush-Sound :
      (q : List (Request J)) (c : MbusClient J)
      → All (IsWell rt.cj) q
      → Sound rt.cj c
      → Holds (SoundRc rt) (flush rt q c)
  unfolding flush
  flush-Sound [] c h s = s
  flush-Sound (r ∷ rest) c h s =
      bind_Holds (λ _. Unit) (SoundRc rt)
        (push_string rt.zlib rt.memory c.outgoing c.compression r.string) _
        (any_Holds (push_string rt.zlib rt.memory c.outgoing c.compression r.string))
        (λ b _.
          flush_pushed-Sound (λ c'. flush rt rest c') c r rest b
            (λ c' s'. flush-Sound rest c' h.1 s') h.0 h.1 s)
