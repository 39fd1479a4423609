-- ===== src/Server/Steps.antt =====
-- One round of server_handle_methods of src/server/server.c: the command, and the answer to it.
use mbus.Base.{
  ap, Bool, ◌++◌, ◌≡◌, ◌∙◌, refl, true, some, List, [], ◌∷◌, String, str_eq, eq_iff, Returns,
  Returns-map, bind_Returns, Rc, ok, fail, Bool-cases, inl, inr,
}
use mbus.Method.{
  Method, type_command, type_event, request_type, request_destination, request_identifier,
}
use mbus.Client.{client_push_result, client_push_wait}
use mbus.Server.{Server, Env, server_identifier, strcmp}
use mbus.Server.Presence.{handles}
use mbus.Server.Dispatch.{
  execute, push_result_to, push_wait_to, respond, respond_call, handle_command, handle_event,
  handle_one,
}
use mbus.Server.Keeps.{
  AllPass, WaitsPass, source_of-Known, put_client-Fewer, handles-put_client, Keeps, Keeps-refl,
}
use mbus.Server.Keeps.Events.{send_event_to-Keeps}
use mbus.Server.Handlers.{
  HasSource, Stays, Sound, refuse-Sound, put-Keeps, source_step, IsRegistered, subscribe-Sound,
  unsubscribe-Sound, register-Sound, unregister-Sound, event-Sound, clients-Sound, close-Sound,
}
use mbus.Server.CallHandlers.{
  has_names, IsAddressed, call-Sound, result-Sound, status-Sound, client-Sound,
}
use mbus.Server.CreateHandler.{CanName, create-Sound}

module _ {J : Type 0} (e : Env J) where
  open e use {cj, now, draws}

  -- What two of the commands need of the state.
  pub record Unblocked (identifier : String) (s : Server J) (m : Method J) : Type 0 where
    pub nameable : identifier ≡ "command.create" → CanName e s m
    pub registered : identifier ≡ "command.unregister" → IsRegistered e s m

  -- Every waiting call has the names that an answer is compared with.
  abbrev pub WaitsNamed : Server J → Type 0
  WaitsNamed s = WaitsPass (has_names e) s.clients

  pub execute-Sound :
      (identifier : String) (s : Server J) (m : Method J)
      → HasSource s m
      → WaitsNamed s
      → Unblocked identifier s m
      → Sound s m (execute e identifier s m)
  unfolding execute
  execute-Sound identifier s m known named free =
      elim (Bool-cases (str_eq identifier "command.create")) [
        | inl q ↦ rw q (create-Sound e s m known (free.nameable ((eq_iff _ _).0 q)))
        | inr q ↦ rw q (elim (Bool-cases (str_eq identifier "command.subscribe")) [
          | inl q ↦ rw q (subscribe-Sound e s m known)
          | inr q ↦ rw q (elim (Bool-cases (str_eq identifier "command.unsubscribe")) [
            | inl q ↦ rw q (unsubscribe-Sound e s m known)
            | inr q ↦ rw q (elim (Bool-cases (str_eq identifier "command.register")) [
              | inl q ↦ rw q (register-Sound e s m known)
              | inr q ↦ rw q (elim (Bool-cases (str_eq identifier "command.unregister")) [
                | inl q ↦ rw q (unregister-Sound e s m known (free.registered ((eq_iff _ _).0 q)))
                | inr q ↦ rw q (elim (Bool-cases (str_eq identifier "command.result")) [
                  | inl q ↦ rw q (result-Sound e s m known named)
                  | inr q ↦ rw q (elim (Bool-cases (str_eq identifier "command.event")) [
                    | inl q ↦ rw q (event-Sound e s m known)
                    | inr q ↦ rw q (elim (Bool-cases (str_eq identifier "command.status")) [
                      | inl q ↦ rw q (status-Sound e s m)
                      | inr q ↦ rw q (elim (Bool-cases (str_eq identifier "command.client")) [
                        | inl q ↦ rw q (client-Sound e s m)
                        | inr q ↦ rw q (elim (Bool-cases (str_eq identifier "command.clients")) [
                          | inl q ↦ rw q (clients-Sound e s m)
                          | inr q ↦ rw q (elim (Bool-cases (str_eq identifier "command.close")) [
                            | inl q ↦ rw q (close-Sound e s m)
                            | inr q ↦ rw q (refuse-Sound s m fail)
                          ])
                        ])
                      ])
                    ])
                  ])
                ])
              ])
            ])
          ])
        ])
      ]

  -- After a handler the source is as alive as before.
  Stays-HasSource :
      (s : Server J) (m : Method J) (r : Server J × Method J × Rc)
      → HasSource s m
      → Stays s m r
      → HasSource r.0 r.1
  Stays-HasSource s m r known h = record {
    handle = known.handle;
    source = h.source ∙ known.source;
    alive = rw (h.server.same_handles) known.alive;
  }

  -- What a method leaves alone once it has been answered or waits.
  pub record Leaves (s s' : Server J) : Type 0 where
    pub same_handles : handles s'.clients ≡ handles s.clients
    pub same_methods : s'.methods ≡ s.methods
    pub same_password : s'.password ≡ s.password
    pub names : WaitsNamed s → WaitsNamed s'

  Keeps-Leaves : (s t u : Server J) → Keeps s t → Leaves t u → Leaves s u
  Keeps-Leaves s t u k l = record {
    same_handles = l.same_handles ∙ k.same_handles;
    same_methods = l.same_methods ∙ k.same_methods;
    same_password = l.same_password ∙ k.same_password;
    names = λ h. l.names (k.fewer_waits (has_names e) h);
  }

  kept-Leaves : (s t : Server J) → Keeps s t → Leaves s t
  kept-Leaves s t k = record {
    same_handles = k.same_handles;
    same_methods = k.same_methods;
    same_password = k.same_password;
    names = k.fewer_waits (has_names e);
  }

  push_result_to-Leaves :
      (s : Server J) (m : Method J) (rc : Rc)
      → HasSource s m
      → Returns (Leaves s) (push_result_to e s m rc)
  unfolding push_result_to client_push_result
  push_result_to-Leaves s m rc known =
      source_step (Leaves s) s m _ known
        (λ c q. kept-Leaves s _ (put-Keeps s _ (source_of-Known s.clients m.source c q)))

  AllPass-append :
      (p : Method J → Bool) (ws : List (Method J)) (m : Method J)
      → AllPass p ws
      → p m ≡ true
      → AllPass p (ws ++ (m ∷ []))
  AllPass-append p [] m h x = (x, tt)
  AllPass-append p (w ∷ ws) m (h, hs) x = (h, AllPass-append p ws m hs x)

  push_wait_to-Leaves :
      (s : Server J) (m : Method J)
      → HasSource s m
      → has_names e m ≡ true
      → Returns (Leaves s) (push_wait_to e s m)
  unfolding push_wait_to client_push_wait
  push_wait_to-Leaves s m known n = source_step (Leaves s) s m _ known λ c q. record {
    same_handles = handles-put_client _ s.clients;
    same_methods = refl;
    same_password = refl;
    names = λ h.
        put_client-Fewer _ s.clients (has_names e)
          (AllPass-append (has_names e) c.waits m
            (source_of-Known s.clients m.source c q (has_names e) h) n)
          h;
  }

  respond-Leaves :
      (s : Server J) (m : Method J) (r : Server J × Method J × Rc)
      → HasSource s m
      → Stays s m r
      → Returns (Leaves s) (respond e r)
  unfolding respond
  respond-Leaves s m (s', m', rc) known h =
      Returns-map (Leaves s') (Leaves s) _ (λ t k. Keeps-Leaves s s' t h.server k)
        (push_result_to-Leaves s' m' rc (Stays-HasSource s m _ known h))

  has_names-same : (m m' : Method J) → m'.request ≡ m.request → has_names e m' ≡ has_names e m
  unfolding has_names request_destination request_identifier
  has_names-same m m' q = ap (λ j. has_names e (record m { request = j })) q

  addressed-has_names : (m : Method J) → IsAddressed e m → has_names e m ≡ true
  unfolding has_names
  addressed-has_names m a = rw (a.to, a.calls) refl

  respond_call-Leaves :
      (s : Server J) (m : Method J) (r : Server J × Method J × Rc)
      → HasSource s m
      → IsAddressed e m
      → Stays s m r
      → Returns (Leaves s) (respond_call e r)
  unfolding respond_call
  respond_call-Leaves s m (s', m', fail) known a h =
      Returns-map (Leaves s') (Leaves s) _ (λ t k. Keeps-Leaves s s' t h.server k)
        (push_result_to-Leaves s' m' fail (Stays-HasSource s m _ known h))
  respond_call-Leaves s m (s', m', ok) known a h =
      Returns-map (Leaves s') (Leaves s) _ (λ t k. Keeps-Leaves s s' t h.server k)
        (push_wait_to-Leaves s' m' (Stays-HasSource s m _ known h)
          (has_names-same m m' h.request ∙ addressed-has_names m a))

  handle_command-Leaves :
      (s : Server J) (m : Method J)
      → HasSource s m
      → WaitsNamed s
      → (a : IsAddressed e m) → Unblocked a.identifier s m
      → Returns
          (Leaves s)
          (handle_command e s m (request_destination cj m) (request_identifier cj m))
  unfolding handle_command
  handle_command-Leaves s m known named a free =
      rw (a.to, a.calls, handle_command)
        (elim (Bool-cases (str_eq a.destination server_identifier)) [
          | inl own ↦ rw own (
              bind_Returns (Stays s m) (Leaves s) _ _
                (execute-Sound a.identifier s m known named free)
                (λ r h. respond-Leaves s m r known h))
          | inr call ↦ rw call (
              bind_Returns (Stays s m) (Leaves s) _ _ (call-Sound e s m known a)
                (λ r h. respond_call-Leaves s m r known a h))
        ])

  -- One method of the queue is executed to its end if its client is alive, and if it is not one of
  -- the two commands that the state can block.
  pub handle_one-Leaves :
      (s : Server J) (m : Method J) (type : String)
      → HasSource s m
      → WaitsNamed s
      → request_type cj m ≡ some type
      → (a : IsAddressed e m) → Unblocked a.identifier s m
      → Returns (Leaves s) (handle_one e s m)
  unfolding handle_one handle_event strcmp
  handle_one-Leaves s m type known named typed a free =
      rw (typed, strcmp)
        (elim (Bool-cases (str_eq type type_command)) [
          | inl command ↦ rw command (handle_command-Leaves s m known named a free)
          | inr other ↦ rw other (elim (Bool-cases (str_eq type type_event)) [
            | inl event ↦ rw event (
                source_step (Leaves s) s m _ known
                  (λ c _. kept-Leaves s _ (send_event_to-Keeps cj now s c.identifier _ _ _)))
            | inr neither ↦ rw neither (kept-Leaves s s (Keeps-refl s))
          ])
        ])
