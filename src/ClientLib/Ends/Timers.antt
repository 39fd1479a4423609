-- ===== src/ClientLib/Ends/Timers.antt =====
-- About the checks of mbus_client_run of src/client/client.c between the poll and the expiry of
-- requests, behind the label `out`.
use mbus.Base.{
  ℕ, suc, ◌≡◌, Bool, true, false, not, ◌&&◌, none, Bool-cases, inl, inr, Exec, if◌then◌else◌, Rc,
  ok, fail, arith,
}
use mbus.Base.Int.{is_le_zero}
use mbus.ClientLib.{
  Runtime, MbusClient, ClientOptions, notify_connect, notify_disconnect, connect_timeout,
  ping_timed_out,
}
use mbus.ClientLib.Requests.{note, retry_state, is_connected, is_connecting}
use mbus.ClientLib.Timers.{
  connect_overdue, connect_timed_out, ping_due, send_ping, pong_overflows, pong_missed,
  missed_too_many, ping_failed, check_pong, ping_round, back_to_out, check_timers,
}
use mbus.ClientLib.Reset.{client_reset}
use mbus.ClientLib.Ends.{Halts, bind_Halts, if_Halts, IsEmptied}
use mbus.ClientLib.Ends.Reset.{client_reset-Halts}

module _ {J : Type 0} (rt : Runtime J) where
  -- What a reset of these checks leaves: no socket, and another state than `connected`.
  abbrev IsDown : MbusClient J → Type 0
  IsDown c = (c.socket ≡ none) × (is_connected c.state ≡ false)

  retry_state-down : (o : ClientOptions) → is_connected (retry_state o) ≡ false
  unfolding retry_state
  retry_state-down o = ground arith

  connect_timed_out-IsDown : (c : MbusClient J) → Halts IsDown (connect_timed_out rt c)
  unfolding connect_timed_out note
  connect_timed_out-IsDown c =
      bind_Halts (IsEmptied rt) IsDown (client_reset rt (note c (notify_connect connect_timeout))) _
        (client_reset-Halts rt (note c (notify_connect connect_timeout)))
        (λ c' e. ground (arith, e.2, retry_state-down c'.options))

  ping_failed-IsDown : (c : MbusClient J) → Halts IsDown (ping_failed rt c)
  unfolding ping_failed note
  ping_failed-IsDown c =
      bind_Halts (IsEmptied rt) IsDown (client_reset rt (note c (notify_disconnect ping_timed_out)))
        _ (client_reset-Halts rt (note c (notify_disconnect ping_timed_out)))
        (λ c' e. (e.2, retry_state-down c'.options))

  -- Whether the code goes back.
  abbrev IsChecked : MbusClient J × Rc × Bool → Type 0
  IsChecked (c, rc, false) = Unit
  IsChecked (c, rc, true) = IsDown c

  check_pong-IsChecked : (r : MbusClient J × Rc) → Halts IsChecked (check_pong rt r)
  unfolding check_pong
  check_pong-IsChecked (c, fail) = tt
  check_pong-IsChecked (c, ok) =
      let c' = pong_missed rt c in
      if_Halts IsChecked (pong_overflows rt c) _ _ tt (
        if_Halts IsChecked (missed_too_many rt c') _ _
          (bind_Halts IsDown IsChecked (ping_failed rt c') _ (ping_failed-IsDown c') (λ c'' d. d))
          tt)

  ping_round-IsChecked : (c : MbusClient J) → Halts IsChecked (ping_round rt c)
  unfolding ping_round
  ping_round-IsChecked c =
      if_Halts IsChecked (is_connected c.state && not (is_le_zero c.ping_interval)) _ _
        (check_pong-IsChecked (if ping_due rt c then send_ping rt c else (c, ok))) tt

  abbrev pub IsAny : MbusClient J × Rc → Type 0
  IsAny r = Unit

  -- On a client that is down nothing is overdue and no ping is looked at.
  check_timers-down :
      (fuel : ℕ) (c : MbusClient J) → IsDown c → Halts IsAny (check_timers rt (suc fuel) c)
  unfolding check_timers connect_overdue ping_round back_to_out
  check_timers-down fuel c d = elim (Bool-cases (is_connecting c.state)) [
    | inl e ↦ rw (d.0, d.1, e) tt
    | inr e ↦ rw (d.0, d.1, e) tt
  ]

  back_to_out-IsAny :
      (again : MbusClient J → Exec (MbusClient J × Rc)) (r : MbusClient J × Rc × Bool)
      → ((c : MbusClient J) → IsDown c → Halts IsAny (again c))
      → IsChecked r
      → Halts IsAny (back_to_out rt again r)
  unfolding back_to_out
  back_to_out-IsAny again (c, fail, b) h d = tt
  back_to_out-IsAny again (c, ok, false) h d = tt
  back_to_out-IsAny again (c, ok, true) h d = h c d

  -- On every client the checks of a round end within two passes, with a value or in undefined
  -- behaviour.
  pub check_timers-Halts :
      (fuel : ℕ) (c : MbusClient J) → Halts IsAny (check_timers rt (suc (suc fuel)) c)
  unfolding check_timers
  check_timers-Halts fuel c =
      if_Halts IsAny (connect_overdue rt c) _ _
        (bind_Halts IsDown IsAny (connect_timed_out rt c) _ (connect_timed_out-IsDown c)
          (check_timers-down fuel))
        (bind_Halts IsChecked IsAny (ping_round rt c) _ (ping_round-IsChecked c)
          (λ r d. back_to_out-IsAny (check_timers rt (suc fuel)) r (check_timers-down fuel) d))
