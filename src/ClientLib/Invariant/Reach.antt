-- ===== src/ClientLib/Invariant/Reach.antt =====
-- The states of a client of src/client/client.c that a program can bring about: by its calls and by
-- rounds of mbus_client_run, in any order, at any clock readings and with any results of the calls
-- of the system.
use mbus.Base.{ℕ, ◌≡◌, subst, some, inl, inr, Option-cases, done, Rc, arith}
use mbus.ClientLib.{Runtime, MbusClient, ClientOptions}
use mbus.ClientLib.Options.{normal_options, new_client, mbus_client_create}
use mbus.ClientLib.Connect.{Dial}
use mbus.ClientLib.Run.{Poll, mbus_client_run}
use mbus.ClientLib.Api.{Call, perform}
use mbus.ClientLib.Invariant.{Holds, Sound}
use mbus.ClientLib.Invariant.Calls.{perform-Sound}
use mbus.ClientLib.Invariant.Receiving.{SoundRc}
use mbus.ClientLib.Invariant.Rounds.{mbus_client_run-Sound}

module _ {J : Type 0} (rt : Runtime J) where
  pub data Reachable : MbusClient J → Type 0 where
    created : (o : ClientOptions) (c : MbusClient J) → mbus_client_create o ≡ some c → Reachable c
    called :
        (c : MbusClient J) (now : ℕ) (call : Call J)
        → Reachable c
        → Reachable (perform (record rt { now = now }) call c).0
    ran :
        (c c' : MbusClient J) (now : ℕ) (d : Dial) (p : Poll) (rc : Rc)
        → Reachable c
        → mbus_client_run (record rt { now = now }) d p c ≡ done (c', rc)
        → Reachable c'

  new_client-Sound : (o : ClientOptions) → Sound rt.cj (new_client o)
  unfolding new_client
  new_client-Sound o = record {
    known = λ h. absurd (ground (arith, h));
    low = omega arith;
    high = omega arith;
    requests = tt;
    pendings = tt;
  }

  some_inj : {a b : MbusClient J} → some a ≡ some b → a ≡ b
  some_inj h = cc

  create-Sound :
      (o : ClientOptions) (c : MbusClient J) → mbus_client_create o ≡ some c → Sound rt.cj c
  unfolding mbus_client_create
  create-Sound o c h = elim (Option-cases (normal_options o)) [
    | inl n ↦ absurd (ground (arith, n, h))
    | inr (o', e) ↦
        subst (Sound rt.cj) (some_inj {a = new_client o'} {b = c} (ground (arith, e, h)))
          (new_client-Sound o')
  ]

  -- In every state that a program can bring about, the state is one of the four, the next sequence
  -- number is at least 1 and less than 9999, and each request that is queued or waits for its answer
  -- has a timeout that is not negative, the text of its object, and, where its callback is one of
  -- the library's for a subscription or a routine, the context that the callback expects.
  pub Reachable-Sound : (c : MbusClient J) → Reachable c → Sound rt.cj c
  Reachable-Sound _ (created o c h) = create-Sound o c h
  Reachable-Sound _ (called c now call r) =
      perform-Sound (record rt { now = now }) call c (Reachable-Sound c r)
  Reachable-Sound _ (ran c c' now d p rc r h) =
      subst (Holds (SoundRc rt)) h
        (mbus_client_run-Sound (record rt { now = now }) d p c (Reachable-Sound c r))
