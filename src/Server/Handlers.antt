-- ===== src/Server/Handlers.antt =====
-- The handlers server_handle_command_* of src/server/server.c for subscriptions, commands and events:
-- how they end, and which part of the state they leave alone.
use mbus.Base.{
  subst, sym, ℕ, ◌≡◌, ◌∙◌, refl, ap, Bool, true, false, Option, none, some, List, [], ◌∷◌, String,
  str_eq, Exec, done, ◌>>=◌, Returns, Rc, ok, fail, arith, Bool-cases, inl, inr,
}
use mbus.Json.{CJson, codes, get_object}
use mbus.Method.{
  Method, tag_destination, tag_identifier, tag_payload, request_payload, set_result_payload,
}
use mbus.Client.{
  Client, client_set_connection, has_command, remove_command, client_add_subscription,
  client_del_subscription, client_add_command, client_del_command,
}
use mbus.Server.{Server, Env, server_identifier, is_named, source_of, put_client}
use mbus.Server.Events.{
  send_event_subscribed, send_event_unsubscribed, send_event_registered, send_event_unregistered,
}
use mbus.Server.Presence.{handles}
use mbus.Server.Commands.{
  Handled, and_then, argument, subscribe, unsubscribe, register, unregister, event_with, close,
  closed, close_named, handle_command_subscribe, handle_command_unsubscribe,
  handle_command_register, handle_command_unregister, handle_command_event, handle_command_clients,
  handle_command_close,
}
use mbus.Server.Keeps.{
  AllPass, Fewer, Known, put_client-Fewer, source_of-Known, Keeps, Keeps-refl, Keeps-trans,
  has_handle, handles-put_client, source_of-known,
}
use mbus.Server.Keeps.Events.{send_event_to-Keeps}

module _ {J : Type 0} where
  -- The client of the method has not been freed.
  pub record HasSource (s : Server J) (m : Method J) : Type 0 where
    pub handle : ℕ
    pub source : m.source ≡ some handle
    pub alive : has_handle (handles s.clients) handle ≡ true

  pub record Stays (s : Server J) (m : Method J) (r : Server J × Method J × Rc) : Type 0 where
    pub server : Keeps s r.0
    pub source : r.1.source ≡ m.source
    pub request : r.1.request ≡ m.request

  abbrev pub Sound : Server J → Method J → Handled J → Type 0
  Sound s m = Returns (Stays s m)

  pub refuse-Sound : (s : Server J) (m : Method J) (rc : Rc) → Sound s m (done (s, m, rc))
  refuse-Sound s m rc = record { server = Keeps-refl s; source = refl; request = refl }

  pub put-Keeps :
      (s : Server J) (c : Client J)
      → Known s.clients c
      → Keeps s (record s { clients = put_client c s.clients })
  put-Keeps s c w = record {
    same_handles = handles-put_client c s.clients;
    same_methods = refl;
    same_password = refl;
    fewer_waits = λ p h. put_client-Fewer c s.clients p (w p h) h;
  }

  -- The calls of a client whose other fields have changed.
  pub same-Known :
      (cs : List (Client J)) (c c' : Client J) → c'.waits ≡ c.waits → Known cs c → Known cs c'
  same-Known cs c c' e w p h = subst (AllPass p) (sym e) (w p h)

  and_then-Sound :
      (s : Server J) (m : Method J) (r : Client J × Rc) (next : Server J → Client J → Server J × Rc)
      → Known s.clients r.0
      → ((s' : Server J) (c : Client J) → Keeps s' (next s' c).0)
      → Sound s m (and_then s m r next)
  and_then-Sound s m (c, fail) next w h = record {
    server = put-Keeps s c w;
    source = refl;
    request = refl;
  }
  and_then-Sound s m (c, ok) next w h = record {
    server = Keeps-trans s _ _ (put-Keeps s c w) (h _ c);
    source = refl;
    request = refl;
  }

  pub source_step {ℓ} :
      {A : Type ℓ} (P : A → Type 0) (s : Server J) (m : Method J) (k : Client J → Exec A)
      → HasSource s m
      → ((c : Client J) → source_of s.clients m.source ≡ done c → Returns P (k c))
      → Returns P (source_of s.clients m.source >>= k)
  source_step P s m k known h =
      let (c, e, _) = source_of-known s.clients known.handle known.alive in
      let e' : source_of s.clients m.source ≡ done c = ap (source_of s.clients) known.source ∙ e in
      rw e' (h c e')

module _ {J : Type 0} where
  waits-client_add_subscription :
      (c : Client J) (source event : String)
      → (client_add_subscription c source event).0.waits ≡ c.waits
  unfolding client_add_subscription
  waits-client_add_subscription c source event = ground arith

  waits-client_del_subscription :
      (c : Client J) (source event : String)
      → (client_del_subscription c source event).0.waits ≡ c.waits
  unfolding client_del_subscription
  waits-client_del_subscription c source event = ground arith

  waits-client_add_command :
      (c : Client J) (command : String) → (client_add_command c command).0.waits ≡ c.waits
  unfolding client_add_command
  waits-client_add_command c command = ground arith

module _ {J : Type 0} (e : Env J) where
  open e use {cj, now}

  subscribed-Keeps :
      (s : Server J) (source : Option String) (d i : String)
      → Keeps s (send_event_subscribed cj now s source d i).0
  unfolding send_event_subscribed
  subscribed-Keeps s none d i = Keeps-refl s
  subscribed-Keeps s (some source) d i = send_event_to-Keeps cj now s _ _ _ _

  unsubscribed-Keeps :
      (s : Server J) (source : Option String) (d i : String)
      → Keeps s (send_event_unsubscribed cj now s source d i).0
  unfolding send_event_unsubscribed
  unsubscribed-Keeps s none d i = Keeps-refl s
  unsubscribed-Keeps s (some source) d i = send_event_to-Keeps cj now s _ _ _ _

  registered-Keeps :
      (s : Server J) (source : Option String) (i : String)
      → Keeps s (send_event_registered cj now s source i).0
  unfolding send_event_registered
  registered-Keeps s none i = Keeps-refl s
  registered-Keeps s (some source) i = send_event_to-Keeps cj now s _ _ _ _

  unregistered-Keeps :
      (s : Server J) (source : Option String) (i : String)
      → Keeps s (send_event_unregistered cj now s source i).0
  unfolding send_event_unregistered
  unregistered-Keeps s none i = Keeps-refl s
  unregistered-Keeps s (some source) i = send_event_to-Keeps cj now s _ _ _ _

  pub subscribe-Sound :
      (s : Server J) (m : Method J) → HasSource s m → Sound s m (handle_command_subscribe e s m)
  unfolding handle_command_subscribe
  subscribe-Sound s m known = go (argument e m "source") (argument e m "event")
    where
      go : (source event : Option String) → Sound s m (subscribe e s m source event)
      go none event = refuse-Sound s m fail
      go (some source) none = refuse-Sound s m fail
      go (some source) (some event) = source_step (Stays s m) s m _ known λ c q.
          and_then-Sound s m (client_add_subscription c source event) _
            (same-Known s.clients c (client_add_subscription c source event).0
              (waits-client_add_subscription c source event)
              (source_of-Known s.clients m.source c q))
            (λ s' c'. subscribed-Keeps s' c'.identifier source event)

  pub unsubscribe-Sound :
      (s : Server J) (m : Method J) → HasSource s m → Sound s m (handle_command_unsubscribe e s m)
  unfolding handle_command_unsubscribe
  unsubscribe-Sound s m known = go (argument e m "source") (argument e m "event")
    where
      go : (source event : Option String) → Sound s m (unsubscribe e s m source event)
      go none event = refuse-Sound s m fail
      go (some source) none = refuse-Sound s m fail
      go (some source) (some event) = source_step (Stays s m) s m _ known λ c q.
          and_then-Sound s m (client_del_subscription c source event) _
            (same-Known s.clients c (client_del_subscription c source event).0
              (waits-client_del_subscription c source event)
              (source_of-Known s.clients m.source c q))
            (λ s' c'. unsubscribed-Keeps s' c'.identifier source event)

  pub register-Sound :
      (s : Server J) (m : Method J) → HasSource s m → Sound s m (handle_command_register e s m)
  unfolding handle_command_register
  register-Sound s m known = go (argument e m "command")
    where
      go : (command : Option String) → Sound s m (register e s m command)
      go none = refuse-Sound s m fail
      go (some command) = source_step (Stays s m) s m _ known λ c q.
          and_then-Sound s m (client_add_command c command) _
            (same-Known s.clients c (client_add_command c command).0
              (waits-client_add_command c command) (source_of-Known s.clients m.source c q))
            (λ s' c'. registered-Keeps s' c'.identifier command)

  -- The command that is to be unregistered, if one is named, is the client's.
  pub IsRegistered : Server J → Method J → Type 0
  IsRegistered s m =
      (c : Client J)
      → source_of s.clients m.source ≡ done c
      → (command : String) → argument e m "command" ≡ some command
      → has_command c.commands command ≡ true

  pub unregister-Sound :
      (s : Server J) (m : Method J)
      → HasSource s m
      → IsRegistered s m
      → Sound s m (handle_command_unregister e s m)
  unfolding handle_command_unregister IsRegistered client_del_command
  unregister-Sound s m known registered = go (argument e m "command") refl
    where
      go :
          (command : Option String)
          → argument e m "command" ≡ command
          → Sound s m (unregister e s m command)
      go none _ = refuse-Sound s m fail
      go (some command) q = source_step (Stays s m) s m _ known λ c found.
          rw (registered c found command q, client_del_command)
            (and_then-Sound s m (record c { commands = remove_command c.commands command }, ok)
              (λ s' c'. send_event_unregistered cj now s' c'.identifier command)
              (source_of-Known s.clients m.source c found)
              (λ s' c'. unregistered-Keeps s' c'.identifier command))

  pub event-Sound :
      (s : Server J) (m : Method J) → HasSource s m → Sound s m (handle_command_event e s m)
  unfolding handle_command_event
  event-Sound s m known =
      go (argument e m tag_destination) (argument e m tag_identifier)
        (get_object cj (request_payload cj m) (codes tag_payload))
    where
      go :
          (destination identifier : Option String) (payload : Option J)
          → Sound s m (event_with e s m destination identifier payload)
      go none identifier payload = refuse-Sound s m fail
      go (some destination) none payload = refuse-Sound s m fail
      go (some destination) (some identifier) none = refuse-Sound s m fail
      go (some destination) (some identifier) (some payload) =
          source_step (Stays s m) s m _ known λ c _. record {
            server = send_event_to-Keeps cj now s c.identifier _ _ _;
            source = refl;
            request = refl;
          }

module _ {J : Type 0} where
  handles-close_named :
      (source : String) (cs : List (Client J)) → handles (close_named source cs).0 ≡ handles cs
  unfolding close_named client_set_connection
  handles-close_named source [] = refl
  handles-close_named source (c ∷ cs) = ground (arith, handles-close_named source cs)

  Fewer-close_named : (source : String) (cs : List (Client J)) → Fewer cs (close_named source cs).0
  unfolding close_named client_set_connection
  Fewer-close_named source [] p h = tt
  Fewer-close_named source (c ∷ cs) p (x, xs) = elim (Bool-cases (is_named c.identifier source)) [
    | inl hit ↦ rw hit (x, xs)
    | inr miss ↦ rw miss (x, Fewer-close_named source cs p xs)
  ]

  result-Stays :
      (cj : CJson J) (s : Server J) (m : Method J) (p : Option J) (rc : Rc)
      → Sound s m (done (s, set_result_payload cj m p, rc))
  unfolding set_result_payload
  result-Stays cj s m p rc = record { server = Keeps-refl s; source = refl; request = refl }

  closed-Sound :
      (s : Server J) (m : Method J) (r : List (Client J) × Bool)
      → handles r.0 ≡ handles s.clients
      → Fewer s.clients r.0
      → Sound s m (closed s m r)
  unfolding closed
  closed-Sound s m (cs, true) h w = record {
    server = record {
      same_handles = h;
      same_methods = refl;
      same_password = refl;
      fewer_waits = w;
    };
    source = refl;
    request = refl;
  }
  closed-Sound s m (cs, false) h w = refuse-Sound s m fail

module _ {J : Type 0} (e : Env J) where
  pub clients-Sound : (s : Server J) (m : Method J) → Sound s m (handle_command_clients e s m)
  unfolding handle_command_clients
  clients-Sound s m = result-Stays e.cj s m _ ok

  pub close-Sound : (s : Server J) (m : Method J) → Sound s m (handle_command_close e s m)
  unfolding handle_command_close
  close-Sound s m = go (argument e m "source")
    where
      go : (source : Option String) → Sound s m (close s m source)
      go none = refuse-Sound s m fail
      go (some source) = elim (Bool-cases (str_eq source server_identifier)) [
        | inl self ↦ rw self (record {
          server = record {
            same_handles = refl;
            same_methods = refl;
            same_password = refl;
            fewer_waits = λ p h. h;
          };
          source = refl;
          request = refl;
        })
        | inr other ↦ rw other (
            closed-Sound s m (close_named source s.clients) (handles-close_named source s.clients)
              (Fewer-close_named source s.clients))
      ]
