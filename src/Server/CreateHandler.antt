-- ===== src/Server/CreateHandler.antt =====
-- server_handle_command_create of src/server/server.c: how it ends, and which part of the state it
-- leaves alone.
use mbus.Base.{
  ◌≡◌, refl, Option, none, some, String, done, Returns-map, Rc, fail, Option-cases, Bool-cases, inl,
  inr,
}
use mbus.Json.{get_string_value}
use mbus.Method.{Method, request_payload, set_result_payload}
use mbus.Client.{Client, client_set_identifier}
use mbus.Server.{Server, Env, put_client, find_client_by_identifier}
use mbus.Server.Create.{
  admits, choose_identifier, set_up, enter, name_source, create_for, handle_command_create,
}
use mbus.Server.Keeps.{
  Known, source_of-Known, find_client_by_identifier-Known, Keeps, Keeps-trans, handles-put_client,
}
use mbus.Server.Handlers.{HasSource, Stays, Sound, refuse-Sound, put-Keeps, source_step}

module _ {J : Type 0} where
  -- A write to a client leaves every source alive.
  pub put-HasSource :
      (s : Server J) (m : Method J) (c : Client J)
      → HasSource s m
      → HasSource (record s { clients = put_client c s.clients }) m
  put-HasSource s m c known = record {
    handle = known.handle;
    source = known.source;
    alive = rw (handles-put_client c s.clients) known.alive;
  }

  Stays-before :
      (s t : Server J) (m : Method J) (r : Server J × Method J × Rc)
      → Keeps s t
      → Stays t m r
      → Stays s m r
  Stays-before s t m r k h = record {
    server = Keeps-trans s t _ k h.server;
    source = h.source;
    request = h.request;
  }

module _ {J : Type 0} (e : Env J) where
  open e use {cj, draws}

  set_up-Sound :
      (s : Server J) (m : Method J) (payload : Option J) (client : Client J)
      → HasSource s m
      → Known s.clients client
      → Sound s m (set_up e s m payload client)
  unfolding set_up set_result_payload
  set_up-Sound s m payload client known w =
      source_step (Stays s m) _ m _ (put-HasSource s m _ known) λ c q. record {
        server =
            Keeps-trans s _ _ (put-Keeps s _ w) (put-Keeps _ _ (source_of-Known _ m.source c q));
        source = refl;
        request = refl;
      }

  enter-Sound :
      (s : Server J) (m : Method J) (payload : Option J) (client : Option (Client J))
      → HasSource s m
      → ((k : Client J) → client ≡ some k → Known s.clients k)
      → Sound s m (enter e s m payload client)
  unfolding enter
  enter-Sound s m payload none known w = refuse-Sound s m fail
  enter-Sound s m payload (some client) known w =
      elim (Bool-cases (admits s.password (get_string_value cj payload "password" none))) [
        | inl welcome ↦ rw welcome (set_up-Sound s m payload client known (w client refl))
        | inr wrong ↦ rw wrong (refuse-Sound s m fail)
      ]

  name_source-Sound :
      (s : Server J) (m : Method J) (payload : Option J) (c : Client J) (identifier : String)
      → HasSource s m
      → Known s.clients c
      → Sound s m (name_source e s m payload c identifier)
  unfolding name_source client_set_identifier
  name_source-Sound s m payload c identifier known w =
      elim (Option-cases (find_client_by_identifier s.clients identifier)) [
        | inr (other, taken) ↦ rw (taken, name_source) (refuse-Sound s m fail)
        | inl free ↦
            rw (free, name_source)
              (Returns-map _ (Stays s m) _ (λ r. Stays-before s _ m r (put-Keeps s _ w))
                (enter-Sound _ m payload _ (put-HasSource s m _ known)
                  (λ k q. find_client_by_identifier-Known _ identifier k q)))
      ]

  -- An identifier can be had: the client brings one, or a drawn one is free.
  unfoldable pub CanName : Server J → Method J → Type 0
  CanName s m =
      (identifier : String) × (choose_identifier draws s.clients
          (get_string_value cj (request_payload cj m) "identifier" none)
        ≡ done identifier)

  pub create-Sound :
      (s : Server J) (m : Method J)
      → HasSource s m
      → CanName s m
      → Sound s m (handle_command_create e s m)
  unfolding handle_command_create CanName
  create-Sound s m known (identifier, chosen) =
      source_step (Stays s m) s m _ known
        (λ c q. go c c.identifier (source_of-Known s.clients m.source c q))
    where
      go :
          (c : Client J) (old : Option String)
          → Known s.clients c
          → Sound s m (create_for e s m c old)
      go c (some old) w = unfold create_for in refuse-Sound s m fail
      go c none w = unfold create_for in rw chosen (name_source-Sound s m _ c identifier known w)
