-- ===== src/Server/Receive.antt =====
-- The loop of mbus_server_run_timeout over the clients' input buffers.
pub mod Order
use mbus.Base.{
  ℕ, zero, suc, ◌+◌, Bool, true, false, Option, none, some, List, [], ◌∷◌, ltb, if◌then◌else◌, Exec,
  done, fault, spin, ◌>>=◌, Rc, ok, fail,
}
use mbus.Buffer.{Buffer, shift, u32}
use mbus.Frame.{Frame, incomplete, undecodable, message, next_frame}
use mbus.Client.{Client, internal_error, client_set_connection}
use mbus.Server.{Server, Env}
use mbus.Server.Dispatch.{handle_method}

module _ {J : Type 0} where
  unfoldable pub closing : Client J → Client J
  closing c = (client_set_connection c none internal_error).0

module _ {J : Type 0} (e : Env J) where
  open e use {zlib}

  abbrev Next : Type 0
  Next = Server J → Client J → Exec (Server J × Client J × Rc)

  -- What the loop over one client's buffer leaves; `fail` is `goto bail`.
  unfoldable pub on_shift :
      Next → Server J → Client J → Buffer × Rc → Exec (Server J × Client J × Rc)
  unfolding closing
  on_shift next s c (b, fail) = done (s, closing (record c { buffer_in = b }), fail)
  on_shift next s c (b, ok) = next s (record c { buffer_in = b })

  unfoldable pub on_method : Next → Client J → ℕ → Server J × Rc → Exec (Server J × Client J × Rc)
  unfolding closing on_shift
  on_method next c n (s, fail) = done (s, closing c, ok)
  on_method next c n (s, ok) = shift c.buffer_in (u32 (4 + n)) >>= λ r. on_shift next s c r

  unfoldable pub on_frame : Next → Server J → Client J → Frame → Exec (Server J × Client J × Rc)
  unfolding on_method
  on_frame next s c incomplete = done (s, c, ok)
  on_frame next s c undecodable = done (s, c, fail)
  on_frame next s c (message text n) = on_method next c n (handle_method e s c.handle text)

  -- `while (1)`: a round that goes on takes at least one byte off, or none at all for ever.
  unfoldable pub receive_loop : ℕ → Server J → Client J → Exec (Server J × Client J × Rc)
  unfolding on_frame
  receive_loop zero s c = spin
  receive_loop (suc fuel) s c = next_frame zlib c.compression c.buffer_in >>= λ f.
      on_frame (λ s' c'. receive_loop fuel s' c') s c f

  unfoldable pub receive_client : Server J → Client J → Exec (Server J × Client J × Rc)
  receive_client s c =
      if ltb c.buffer_in.length 4
      then done (s, c, ok)
      else receive_loop (suc c.buffer_in.length) s c

  unfoldable pub receive_rest :
      (Server J → Exec (List (Client J) × Server J × Rc))
      → List (Client J)
      → Server J × Client J × Rc
      → Exec (List (Client J) × Server J × Rc)
  receive_rest next cs (s, c, fail) = done (c ∷ cs, s, fail)
  receive_rest next cs (s, c, ok) = next s >>= λ r. done (c ∷ r.0, r.1, r.2)

  unfoldable pub receive_clients :
      List (Client J) → Server J → Exec (List (Client J) × Server J × Rc)
  unfolding receive_rest
  receive_clients [] s = done ([], s, ok)
  receive_clients (c ∷ cs) s =
      receive_client s c >>= λ r. receive_rest (λ s'. receive_clients cs s') cs r

  unfoldable pub receive_all : Server J → Exec (Server J × Rc)
  receive_all s = receive_clients s.clients s >>= λ r. done (record (r.1) { clients = r.0 }, r.2)
