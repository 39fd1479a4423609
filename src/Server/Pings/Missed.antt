-- ===== src/Server/Pings/Missed.antt =====
-- The part "check ping timeout" of mbus_server_run_timeout of src/server/server.c, client by client.
use mbus.Base.{
  ◌^◌, ◌-◌, ◌∙◌, refl, ap, Exec, done, ◌>>=◌, Returns, ℕ, ◌+◌, ◌<◌, ◌≤◌, ◌≡◌, ◌⊎◌, Bool, true,
  false, none, some, List, [], ◌∷◌, length, leb, if◌then◌else◌, arith, Bool-cases, inl, inr,
}
use mbus.Base.Int.{pos, is_le_zero}
use mbus.Clock.{clock_after}
use mbus.Client.{Client, Ping, client_set_connection}
use mbus.Server.Pings.{deadline, count_missed, overflows, too_many, checked, check_ping}

-- The client takes part in the check.
unfoldable pub is_watched : {J : Type 0} → Client J → Bool
is_watched c = if is_le_zero c.ping.interval then false else c.ping.enabled

-- At each of the times the deadline of that round has passed, which the missed one moves on.
unfoldable pub IsSilent : List ℕ → Ping → Type 0
IsSilent [] p = Unit
IsSilent (t ∷ ts) p = (clock_after t (deadline p) ≡ true) × IsSilent ts (count_missed t p)

counted :
    (t : ℕ) (p : Ping)
    → clock_after t (deadline p) ≡ true
    → ((count_missed t p).missed_count ≡ p.missed_count + 1)
      × ((count_missed t p).threshold ≡ p.threshold)
      × ((count_missed t p).interval ≡ p.interval)
      × ((count_missed t p).enabled ≡ p.enabled)
unfolding count_missed
counted t p late = rw late (refl, refl, refl, refl)

module _ {J : Type 0} where
  -- The check at each of the times, in their order.
  unfoldable pub check_over : List ℕ → Client J → Exec (Client J)
  check_over [] c = done c
  check_over (t ∷ ts) c = check_ping t c >>= check_over ts

  abbrev IsClosed : Client J → Type 0
  IsClosed c = c.connection ≡ none

  check_ping-closed : (t : ℕ) (c : Client J) → IsClosed c → check_ping t c ≡ done c
  unfolding check_ping
  check_ping-closed t c q =
      ap (λ o. elim o as (λ _. Exec (Client J)) [ none ↦ done c | some k ↦ checked t c ]) q

  check_over-IsClosed :
      (ts : List ℕ) (c : Client J) → IsClosed c → Returns IsClosed (check_over ts c)
  unfolding check_over
  check_over-IsClosed [] c q = q
  check_over-IsClosed (t ∷ ts) c q = rw (check_ping-closed t c q) (check_over-IsClosed ts c q)

  abbrev missed : ℕ → Client J → Client J
  missed t c = record c { ping = count_missed t c.ping }

  -- One overdue round of a watched client.
  overdue_round :
      (t n : ℕ) (c : Client J) (k : ℕ)
      → c.connection ≡ some k
      → is_watched c ≡ true
      → clock_after t (deadline c.ping) ≡ true
      → c.ping.missed_count + 1 < 2 ^ 31
      → check_ping t c ≡ done (too_many (missed t c))
  unfolding check_ping checked overflows is_watched clock_after count_missed deadline
  overdue_round t n c k q w late room =
      let within : leb (2 ^ 31) (c.ping.missed_count + 1) ≡ false = ground (arith, room) in
      elim (Bool-cases (is_le_zero c.ping.interval)) [
        | inl off ↦ absurd (ground (arith, w, off))
        | inr on ↦
            let enabled : c.ping.enabled ≡ true = ground (arith, w, on) in
            rw (q, checked, on, enabled, late, within) refl
      ]

  judged :
      (n : ℕ) (c : Client J)
      → c.ping.threshold ≡ pos n
      → ((c.ping.missed_count ≤ n) × (too_many c ≡ c))
        ⊎ ((n < c.ping.missed_count) × IsClosed (too_many c))
  unfolding too_many client_set_connection
  judged n c h = elim (Bool-cases (leb c.ping.missed_count n)) [
    | inl below ↦ inl (ground (arith, below), rw (h, below) refl)
    | inr above ↦ inr (ground (arith, above), rw (h, above) refl)
  ]

  -- A connected and watched client with a threshold below the greatest int, which has missed no
  -- more pings than that and whose deadline has passed at every round, has its connection closed
  -- once the rounds are more than its threshold less the pings that it had missed before; its count
  -- of missed pings stays within an int.
  pub check_over-closes :
      (ts : List ℕ) (n : ℕ) (c : Client J) (k : ℕ)
      → c.connection ≡ some k
      → is_watched c ≡ true
      → c.ping.threshold ≡ pos n
      → n < 2 ^ 31 - 1
      → IsSilent ts c.ping
      → n < c.ping.missed_count + length ts
      → c.ping.missed_count ≤ n
      → Returns IsClosed (check_over ts c)
  unfolding check_over IsSilent is_watched
  check_over-closes [] n c k q w h int silent more few = absurd (omega arith)
  check_over-closes (t ∷ ts) n c k q w h int (late, silent) more few =
      let (m, th, iv, en) = counted t c.ping late in
      rw (overdue_round t n c k q w late (omega arith)) (elim (judged n (missed t c) (th ∙ h)) [
        | inr (over, closed) ↦ check_over-IsClosed ts (too_many (missed t c)) closed
        | inl (room, same) ↦ rw same (
            check_over-closes ts n (missed t c) k q (rw (iv, en) w) (th ∙ h) int silent
              (omega (arith, m, more)) (omega (arith, m, room)))
      ])
