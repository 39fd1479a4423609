-- ===== src/Server/Safety.antt =====
-- server_handle_methods of src/server/server.c: the pointers that it follows, and how it ends.
use mbus.Base.{
  none, ℕ, ◌≡◌, ◌≢◌, ◌∙◌, refl, sym, subst, true, false, some, List, [], ◌∷◌, String, str_eq,
  Returns, Returns-map, bind_Returns,
}
use mbus.Method.{Method, request_type, request_payload}
use mbus.Server.{Server, Env}
use mbus.Server.Presence.{handles}
use mbus.Server.Dispatch.{handle_queue, handle_methods}
use mbus.Json.{get_string_value}
use mbus.Server.Create.{choose_identifier}
use mbus.Server.Keeps.{has_handle}
use mbus.Server.CallHandlers.{IsAddressed}
use mbus.Server.CreateHandler.{CanName}
use mbus.Server.Steps.{Unblocked, WaitsNamed, Leaves, handle_one-Leaves}

module _ {J : Type 0} (e : Env J) where
  open e use {cj, now, draws}

  -- A request that has been accepted, and that no state can block: an unregistration can fault, and
  -- a creation without an identifier may have to draw one.
  pub record IsTame (m : Method J) : Type 0 where
    pub type : String
    pub typed : request_type cj m ≡ some type
    pub addressed : IsAddressed e m
    pub named :
        addressed.identifier ≡ "command.create"
        → (name : String) × (str_eq name "" ≡ false)
          × (get_string_value cj (request_payload cj m) "identifier" none ≡ some name)
    pub keeps_commands : addressed.identifier ≢ "command.unregister"

  named-CanName :
      (t : Server J) (m : Method J) (name : String)
      → str_eq name "" ≡ false
      → get_string_value cj (request_payload cj m) "identifier" none ≡ some name
      → CanName e t m
  unfolding CanName choose_identifier
  named-CanName t m name full q = (name, rw (q, choose_identifier, full) refl)

  tame-Unblocked :
      (t : Server J) (m : Method J) (tame : IsTame m) → Unblocked e tame.addressed.identifier t m
  tame-Unblocked t m tame = record {
    nameable = λ q. let (name, full, given) = tame.named q in named-CanName t m name full given;
    registered = λ q. absurd (tame.keeps_commands q);
  }

  -- Every method of the queue comes from a client at one of these addresses.
  unfoldable pub AreSent : List ℕ → List (Method J) → Type 0
  AreSent hs [] = Unit
  AreSent hs (m ∷ ms) = ((h : ℕ) × (m.source ≡ some h) × (has_handle hs h ≡ true)) × AreSent hs ms

  unfoldable pub AreTame : List (Method J) → Type 0
  AreTame [] = Unit
  AreTame (m ∷ ms) = IsTame m × AreTame ms

  pub record IsDone (s s' : Server J) : Type 0 where
    pub no_methods : s'.methods ≡ []
    pub same_handles : handles s'.clients ≡ handles s.clients
    pub same_password : s'.password ≡ s.password
    pub names : WaitsNamed e s'

  handle_queue-IsDone :
      (ms : List (Method J)) (s : Server J)
      → s.methods ≡ ms
      → WaitsNamed e s
      → AreSent (handles s.clients) ms
      → AreTame ms
      → Returns (IsDone s) (handle_queue e ms s)
  unfolding handle_queue AreSent AreTame
  handle_queue-IsDone [] s q w sent tame = record {
    no_methods = q;
    same_handles = refl;
    same_password = refl;
    names = w;
  }
  handle_queue-IsDone (m ∷ ms) s q w ((h, source, alive), sent) (t, tame) =
      let s0 = record s { methods = ms } in
      bind_Returns (Leaves e s0) (IsDone s) _ _
        (handle_one-Leaves e s0 m t.type (record { handle = h; source = source; alive = alive }) w
          t.typed t.addressed (tame-Unblocked s0 m t))
        λ s' k.
          Returns-map (IsDone s') (IsDone s) _
            (λ u d. record {
              no_methods = d.no_methods;
              same_handles = d.same_handles ∙ k.same_handles;
              same_password = d.same_password ∙ k.same_password;
              names = d.names;
            })
            (handle_queue-IsDone ms s' k.same_methods (k.names w)
              (subst (λ hs. AreSent hs ms) (sym k.same_handles) sent) tame)

  -- If every queued method comes from a living client, has a type, a destination and an identifier,
  -- is no command.unregister and, as a command.create, brings an identifier that is not empty, and
  -- every waiting call has a destination and an identifier, then the queue is executed to its end
  -- without following a pointer to nothing: it is empty afterwards, every waiting call has its
  -- names still, and the clients' addresses and the password are as before.
  pub handle_methods-IsDone :
      (s : Server J)
      → WaitsNamed e s
      → AreSent (handles s.clients) s.methods
      → AreTame s.methods
      → Returns (IsDone s) (handle_methods e s)
  unfolding handle_methods
  handle_methods-IsDone s = handle_queue-IsDone s.methods s refl
