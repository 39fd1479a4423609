-- ===== src/Server/Receive/Order.antt =====
-- The loop of mbus_server_run_timeout over one client's input buffer, on whole frames.
use mbus.Base.{
  ℕ, zero, suc, ◌^◌, ◌<◌, ◌≡◌, ◌∙◌, refl, sym, ap, subst, true, ◌||◌, some, List, [], ◌∷◌, ◌++◌,
  append-nil, append_assoc, length, length-append, ltb, done, Returns, Returns-map, Rc, ok, arith,
  Bool-cases, inl, inr,
}
use mbus.Buffer.{Buffer, contents, IsValid}
use mbus.Buffer.Laws.{length-contents}
use mbus.Compress.{Compression, Zlib}
use mbus.Frame.{incomplete, next_frame}
use mbus.Frame.Bytes.{IsText}
use mbus.Frame.Encode.{frame, frame-length}
use mbus.Frame.Decode.{Restores}
use mbus.Frame.RoundTrip.{Takes, next_frame-shift}
use mbus.Method.{Method, type_command, type_event, request_type, create_request}
use mbus.Client.{Client}
use mbus.Server.{Server, Env, is_named}
use mbus.Server.Dispatch.{enqueue, handle_method}
use mbus.Server.Receive.{receive_loop, receive_client, on_frame, on_method, on_shift}

-- The bytes are the frames of the texts, one behind the other, and the rest.
unfoldable pub Carries : Zlib → Compression → List (List ℕ) → List ℕ → List ℕ → Type 0
Carries z c [] rest bytes = bytes ≡ rest
Carries z c (s ∷ ss) rest bytes =
    (front : List ℕ) × (more : List ℕ) × (frame z c s ≡ some front)
    × IsText s
    × (length s < 2 ^ 31)
    × (length front < 2 ^ 31)
    × (bytes ≡ front ++ more)
    × Carries z c ss rest more

short_is_incomplete :
    (z : Zlib) (c : Compression) (b : Buffer) → b.length < 4 → next_frame z c b ≡ done incomplete
unfolding next_frame
short_is_incomplete z c b h = ground arith

module _ {J : Type 0} (e : Env J) where
  open e use {zlib, cj}

  -- The texts are the requests, of a type that the server takes.
  unfoldable pub AreRequests : ℕ → List (List ℕ) → List (Method J) → Type 0
  AreRequests h [] ms = ms ≡ []
  AreRequests h (s ∷ ss) ms =
      (m : Method J) × (rest : List (Method J)) × (ms ≡ m ∷ rest)
      × (create_request cj h s ≡ some m)
      × ((is_named (request_type cj m) type_command || is_named (request_type cj m) type_event)
          ≡ true)
      × AreRequests h ss rest

  handle_method-queues :
      (s : Server J) (h : ℕ) (text : List ℕ) (m : Method J)
      → create_request cj h text ≡ some m
      → (is_named (request_type cj m) type_command || is_named (request_type cj m) type_event)
        ≡ true
      → handle_method e s h text ≡ (record s { methods = s.methods ++ (m ∷ []) }, ok)
  unfolding handle_method enqueue
  handle_method-queues s h text m made known = rw made (ground (arith, known))

  -- What the loop leaves: the requests behind the queue, and the rest of the bytes.
  pub record IsReceived (s : Server J) (c : Client J) (ms : List (Method J)) (rest : List ℕ)
      (r : Server J × Client J × Rc) : Type 0 where
    pub server : r.0 ≡ record s { methods = s.methods ++ ms }
    pub client : r.1 ≡ record c { buffer_in = r.1.buffer_in }
    pub left : contents r.1.buffer_in ≡ rest
    pub ends : r.2 ≡ ok

  -- The first request, and then the others.
  after_first :
      (s : Server J) (c : Client J) (m : Method J) (ms' ms : List (Method J)) (b : Buffer)
      (rest : List ℕ) (r : Server J × Client J × Rc)
      → ms ≡ m ∷ ms'
      → IsReceived
          (record s { methods = s.methods ++ (m ∷ []) })
          (record c { buffer_in = b })
          ms'
          rest
          r
      → IsReceived s c ms rest r
  after_first s c m ms' ms b rest r q h = record {
    server =
        h.server
        ∙ ap (λ t. record s { methods = t })
            (append_assoc s.methods (m ∷ []) ms' ∙ ap (λ t. s.methods ++ t) (sym q));
    client = h.client;
    left = h.left;
    ends = h.ends;
  }

  one_round :
      (fuel : ℕ) (s : Server J) (c : Client J) (text more : List ℕ) (m : Method J)
      → Takes zlib c.compression c.buffer_in text more
      → create_request cj c.handle text ≡ some m
      → (is_named (request_type cj m) type_command || is_named (request_type cj m) type_event)
        ≡ true
      → (b : Buffer) × IsValid b
        × (contents b ≡ more)
        × (receive_loop e (suc fuel) s c
            ≡ receive_loop e fuel
                (record s { methods = s.methods ++ (m ∷ []) })
                (record c { buffer_in = b }))
  unfolding receive_loop on_frame on_method on_shift
  one_round fuel s c text more m (n, b, found, shifted, v, left) made known =
      (b, v, left, rw (found, handle_method-queues s c.handle text m made known, shifted) refl)

  receive_loop-IsReceived :
      (fuel : ℕ) (s : Server J) (c : Client J) (texts : List (List ℕ)) (ms : List (Method J))
      (rest : List ℕ)
      → Restores zlib
      → IsValid c.buffer_in
      → c.buffer_in.length < fuel
      → Carries zlib c.compression texts rest (contents c.buffer_in)
      → length rest < 4
      → AreRequests c.handle texts ms
      → Returns (IsReceived s c ms rest) (receive_loop e fuel s c)
  unfolding Carries AreRequests
  receive_loop-IsReceived zero s c texts ms rest restores v short carries few reqs =
      absurd (omega arith)
  receive_loop-IsReceived (suc fuel) s c [] ms rest restores v short carries few reqs =
      unfold receive_loop on_frame in
      rw
        (short_is_incomplete zlib c.compression c.buffer_in
          (omega (arith, length-contents c.buffer_in v, ap length carries)))
        (record {
          server =
              ap (λ t. record s { methods = t })
                (sym (ap (λ t. s.methods ++ t) reqs ∙ append-nil s.methods));
          client = refl;
          left = carries;
          ends = refl;
        })
  receive_loop-IsReceived (suc fuel) s c (text ∷ texts) ms rest restores v short
        (front, more, framed, t, small, fits, q, carries) few (m, ms', all, made, known, reqs) =
      let (b, w, left, round) =
        one_round fuel s c text more m
          (next_frame-shift zlib c.compression c.buffer_in text front more t restores v framed small
            fits q)
          made known in
      rw round (
        Returns-map _ (IsReceived s c ms rest) _ (λ r. after_first s c m ms' ms b rest r all)
          (receive_loop-IsReceived fuel _ (record c { buffer_in = b }) texts ms' rest restores w
            (omega (
              arith,
              frame-length zlib c.compression text front framed,
              length-contents c.buffer_in v,
              ap length q,
              length-append front more,
              length-contents b w,
              ap length left,
            ))
            (subst (λ k. Carries zlib c.compression texts rest k) (sym left) carries) few reqs))

  -- If a client's well-formed input buffer holds the frames of texts without a zero byte that
  -- are requests of a known type, and fewer than four bytes behind them, then the loop ends
  -- well, queues the requests in their order behind those that are queued, leaves the bytes
  -- behind and changes nothing else of the client or the server; the compression is one that
  -- restores what it compressed, and texts and frames are shorter than 2 ^ 31.
  pub receive_client-IsReceived :
      (s : Server J) (c : Client J) (texts : List (List ℕ)) (ms : List (Method J)) (rest : List ℕ)
      → Restores zlib
      → IsValid c.buffer_in
      → Carries zlib c.compression texts rest (contents c.buffer_in)
      → length rest < 4
      → AreRequests c.handle texts ms
      → Returns (IsReceived s c ms rest) (receive_client e s c)
  unfolding receive_client
  receive_client-IsReceived s c texts ms rest restores v carries few reqs =
      elim (Bool-cases (ltb c.buffer_in.length 4)) [
        | inl short ↦ rw short (nothing_there texts carries reqs short)
        | inr long ↦ rw long (
            receive_loop-IsReceived (suc c.buffer_in.length) s c texts ms rest restores v
              (omega arith) carries few reqs)
      ]
    where
      nothing_there :
          (texts : List (List ℕ))
          → Carries zlib c.compression texts rest (contents c.buffer_in)
          → AreRequests c.handle texts ms
          → ltb c.buffer_in.length 4 ≡ true
          → IsReceived s c ms rest (s, c, ok)
      nothing_there [] carries reqs short =
          unfold Carries AreRequests in
          record {
            server =
                ap (λ t. record s { methods = t })
                  (sym (ap (λ t. s.methods ++ t) reqs ∙ append-nil s.methods));
            client = refl;
            left = carries;
            ends = refl;
          }
      nothing_there (text ∷ texts) carries reqs short =
          unfold Carries in
          (let (front, more, framed, t, small, fits, q, rest_carries) = carries in
            let few : c.buffer_in.length < 4 = ground arith in
            absurd (
              omega (
                arith,
                few,
                frame-length zlib c.compression text front framed,
                length-contents c.buffer_in v,
                ap length q,
                length-append front more,
              )))
