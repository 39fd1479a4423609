-- ===== src/Server/Pings.antt =====
-- The part "check ping timeout" of mbus_server_run_timeout.
pub mod Missed
use mbus.Base.{
  ℕ, suc, ◌+◌, ◌%◌, ◌^◌, Bool, true, false, not, Option, none, some, List, map, if◌then◌else◌, leb,
  [], ◌∷◌, ◌&&◌, Exec, done, fault, ◌>>=◌,
}
use mbus.Base.Int.{ℤ, pos, is_le_zero, le_int, to_u64}
use mbus.Clock.{clock_after}
use mbus.Client.{Client, Ping, CloseCode, ping_threshold, client_set_connection}

-- `ping_recv_tsms + ping_interval + ping_timeout` in unsigned long long.
unfoldable pub deadline : Ping → ℕ
deadline p = (p.recv_tsms + to_u64 p.interval + to_u64 p.timeout) % 2 ^ 64

-- The increment of the int at its end, which C leaves undefined.
unfoldable pub overflows : ℕ → Ping → Bool
overflows current p = clock_after current (deadline p) && leb (2 ^ 31) (p.missed_count + 1)

-- A ping that is overdue is counted, and the next one is due an interval later.
unfoldable pub count_missed : ℕ → Ping → Ping
count_missed current p =
    if clock_after current (deadline p)
    then record p {
      missed_count = p.missed_count + 1;
      recv_tsms = (p.recv_tsms + to_u64 p.interval) % 2 ^ 64;
    }
    else p

module _ {J : Type 0} where
  unfoldable pub too_many : Client J → Client J
  too_many c =
      if le_int (pos c.ping.missed_count) c.ping.threshold
      then c
      else (client_set_connection c none ping_threshold).0

  unfoldable pub checked : ℕ → Client J → Exec (Client J)
  unfolding too_many
  checked current c =
      if is_le_zero c.ping.interval
      then done c
      else if not c.ping.enabled
      then done c
      else if overflows current c.ping
      then fault
      else done (too_many (record c { ping = count_missed current c.ping }))

  unfoldable pub check_ping : ℕ → Client J → Exec (Client J)
  unfolding checked
  check_ping current c = elim c.connection [ none ↦ done c | some k ↦ checked current c ]

  unfoldable pub check_pings : ℕ → List (Client J) → Exec (List (Client J))
  unfolding check_ping
  check_pings current [] = done []
  check_pings current (c ∷ cs) =
      check_ping current c >>= λ c'. check_pings current cs >>= λ cs'. done (c' ∷ cs')
