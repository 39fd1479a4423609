-- ===== src/Server/CallHandlers.antt =====
-- The handlers of calls, results and status requests of src/server/server.c: how they end, and which
-- part of the state they leave alone.
use mbus.Base.{
  ap, sym, subst, true, Bool, ◌&&◌, ◌++◌, All, Returns, bind_Returns, Option-cases, ◌≡◌, refl,
  Option, none, some, List, [], ◌∷◌, String, done, ok, fail, arith, Bool-cases, inl, inr,
}
use mbus.Base.Int.{ℤ, pos, le_int}
use mbus.Method.{
  Method, sequence_start, sequence_end, request_destination, request_identifier, set_result_payload,
}
use mbus.Client.{Client, has_command, client_push_request}
use mbus.Server.{Server, Env, is_named, has_name, find_client_by_identifier}
use mbus.Server.Presence.{handles}
use mbus.Server.Commands.{argument}
use mbus.Server.Calls.{
  push_call, call_on, call, resolve, resolve_named, answer, handle_command_call,
  handle_command_result,
}
use mbus.Server.Status.{handle_command_status, handle_command_client, client_named, describe}
use mbus.Server.Keeps.{
  AllPass, WaitsPass, Fewer, Known, find_client_by_identifier-Known, Keeps-refl,
}
use mbus.Server.Calls.Matching.{HasNames, resolve-IsFirst}
use mbus.Server.Handlers.{HasSource, Stays, Sound, refuse-Sound, put-Keeps, source_step}

module _ {J : Type 0} (e : Env J) where
  open e use {cj}

  -- The request that is called has its two names.
  pub record IsAddressed (m : Method J) : Type 0 where
    pub destination : String
    pub identifier : String
    pub to : request_destination cj m ≡ some destination
    pub calls : request_identifier cj m ≡ some identifier

  push_call-Sound :
      (s : Server J) (m : Method J) (c : Client J) (request : Option (Method J))
      → Known s.clients c
      → Sound s m (push_call e s m c request)
  unfolding push_call client_push_request
  push_call-Sound s m c none w = refuse-Sound s m fail
  push_call-Sound s m c (some request) w = record {
    server = put-Keeps s (client_push_request c request) w;
    source = refl;
    request = refl;
  }

  call_on-Sound :
      (s : Server J) (m : Method J) (identifier : String) (callee : Option (Client J))
      → HasSource s m
      → ((k : Client J) → callee ≡ some k → Known s.clients k)
      → Sound s m (call_on e s m identifier callee)
  unfolding call_on
  call_on-Sound s m identifier none known w = refuse-Sound s m fail
  call_on-Sound s m identifier (some callee) known w =
      elim (Bool-cases (has_command callee.commands identifier)) [
        | inl there ↦ rw there (
            source_step (Stays s m) s m _ known
              (λ caller _. push_call-Sound s m callee _ (w callee refl)))
        | inr missing ↦ rw missing (refuse-Sound s m fail)
      ]

  pub call-Sound :
      (s : Server J) (m : Method J)
      → HasSource s m
      → IsAddressed m
      → Sound s m (handle_command_call e s m)
  unfolding handle_command_call call
  call-Sound s m known a =
      rw (a.to, a.calls, call)
        (call_on-Sound s m a.identifier _ known
          (λ k q. find_client_by_identifier-Known s.clients a.destination k q))

  -- The names of a call are those of its request.
  unfoldable pub has_names : Method J → Bool
  has_names w = has_name (request_destination cj w) && has_name (request_identifier cj w)

  has_names-HasNames : (w : Method J) → has_names w ≡ true → HasNames e w
  unfolding has_names
  has_names-HasNames w h = elim (Option-cases (request_destination cj w)) [
    | inl missing ↦ absurd (ground (arith, h, missing))
    | inr (callee, to) ↦ elim (Option-cases (request_identifier cj w)) [
      | inl missing ↦ absurd (ground (arith, h, to, missing))
      | inr (command, calls) ↦ record { callee = (callee, to); command = (command, calls) }
    ]
  ]

  all_HasNames : (ws : List (Method J)) → AllPass has_names ws → All (HasNames e) ws
  all_HasNames [] h = tt
  all_HasNames (w ∷ ws) (x, xs) = (has_names-HasNames w x, all_HasNames ws xs)

  without_middle :
      (p : Method J → Bool) (front back : List (Method J)) (w : Method J)
      → AllPass p (front ++ (w ∷ back))
      → AllPass p (front ++ back)
  without_middle p [] back w (x, xs) = xs
  without_middle p (k ∷ front) back w (x, xs) = (x, without_middle p front back w xs)

  -- A client before and after it has been answered.
  abbrev IsResolved : Client J → Client J → Type 0
  IsResolved c c' =
      (c'.handle ≡ c.handle) × ((p : Method J → Bool) → AllPass p c.waits → AllPass p c'.waits)

  resolve-IsResolved :
      (c : Client J) (sequence : ℤ) (source identifier : String) (rc : ℤ) (payload : Option J)
      → AllPass has_names c.waits
      → Returns (IsResolved c) (resolve e c sequence source identifier rc payload)
  resolve-IsResolved c sequence source identifier rc payload h =
      elim (resolve-IsFirst e c sequence source identifier rc payload (all_HasNames c.waits h)) [
        | inl (same, _) ↦ rw same (refl, λ p x. x)
        | inr (w, others, first, moved) ↦ rw moved (
          refl,
          λ p x.
              subst (AllPass p) (sym first.kept)
                (without_middle p first.front first.back w (subst (AllPass p) first.waits x)),
        )
      ]

  abbrev AreResolved : List (Client J) → List (Client J) → Type 0
  AreResolved cs cs' = (handles cs' ≡ handles cs) × Fewer cs cs'

  resolve_named-AreResolved :
      (cs : List (Client J)) (destination : String) (sequence : ℤ) (source identifier : String)
      (rc : ℤ) (payload : Option J)
      → WaitsPass has_names cs
      → Returns
          (AreResolved cs)
          (resolve_named e cs destination sequence source identifier rc payload)
  unfolding resolve_named
  resolve_named-AreResolved [] destination sequence source identifier rc payload h =
      (refl, λ p x. x)
  resolve_named-AreResolved (c ∷ cs) destination sequence source identifier rc payload (h, hs) =
      elim (Bool-cases (is_named c.identifier destination)) [
        | inl hit ↦ rw hit (
            bind_Returns (IsResolved c) (AreResolved (c ∷ cs)) _ _
              (resolve-IsResolved c sequence source identifier rc payload h)
              (λ c' r. (ap (λ k. k ∷ handles cs) r.0, λ p x. (r.1 p x.0, x.1))))
        | inr miss ↦ rw miss (
            bind_Returns (AreResolved cs) (AreResolved (c ∷ cs)) _ _
              (resolve_named-AreResolved cs destination sequence source identifier rc payload hs)
              (λ cs' r. (ap (λ ks. c.handle ∷ ks) r.0, λ p x. (x.0, r.1 p x.1))))
      ]

  answer-Sound :
      (s : Server J) (m : Method J) (source destination identifier : Option String) (sequence : ℤ)
      → WaitsPass has_names s.clients
      → Sound s m (answer e s m source destination identifier sequence)
  unfolding answer
  answer-Sound s m none destination identifier sequence h = refuse-Sound s m fail
  answer-Sound s m (some source) none identifier sequence h = refuse-Sound s m fail
  answer-Sound s m (some source) (some destination) none sequence h = refuse-Sound s m fail
  answer-Sound s m (some source) (some destination) (some identifier) sequence h =
      elim (Bool-cases (le_int (pos sequence_start) sequence)) [
        | inr low ↦ rw low (refuse-Sound s m fail)
        | inl high ↦ elim (Bool-cases (le_int (pos sequence_end) sequence)) [
          | inl over ↦ rw (high, over) (refuse-Sound s m fail)
          | inr within ↦
              rw (high, within)
                (bind_Returns (AreResolved s.clients) (Stays s m) _ _
                  (resolve_named-AreResolved s.clients destination sequence source identifier _ _ h)
                  (λ cs r. record {
                    server = record {
                      same_handles = r.0;
                      same_methods = refl;
                      same_password = refl;
                      fewer_waits = r.1;
                    };
                    source = refl;
                    request = refl;
                  }))
        ]
      ]

  pub result-Sound :
      (s : Server J) (m : Method J)
      → HasSource s m
      → WaitsPass has_names s.clients
      → Sound s m (handle_command_result e s m)
  unfolding handle_command_result
  result-Sound s m known h =
      source_step (Stays s m) s m _ known (λ c _. answer-Sound s m c.identifier _ _ _ h)

  set_payload-Sound :
      (s : Server J) (m : Method J) (p : Option J)
      → Sound s m (done (s, set_result_payload cj m p, ok))
  unfolding set_result_payload
  set_payload-Sound s m p = record { server = Keeps-refl s; source = refl; request = refl }

  pub status-Sound : (s : Server J) (m : Method J) → Sound s m (handle_command_status e s m)
  unfolding handle_command_status
  status-Sound s m = set_payload-Sound s m _

  describe-Sound :
      (s : Server J) (m : Method J) (c : Option (Client J)) → Sound s m (describe e s m c)
  unfolding describe
  describe-Sound s m none = refuse-Sound s m fail
  describe-Sound s m (some c) = set_payload-Sound s m _

  pub client-Sound : (s : Server J) (m : Method J) → Sound s m (handle_command_client e s m)
  unfolding handle_command_client
  client-Sound s m = go (argument e m "source")
    where
      go : (source : Option String) → Sound s m (client_named e s m source)
      go none = refuse-Sound s m fail
      go (some source) = describe-Sound s m (find_client_by_identifier s.clients source)
