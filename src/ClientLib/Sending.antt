-- ===== src/ClientLib/Sending.antt =====
-- What the end of mbus_client_run of src/client/client.c puts into the output buffer.
pub mod Arrival
use mbus.Base.{
  ℕ, ◌+◌, ◌-◌, ◌^◌, ◌≤◌, ◌<◌, ◌≡◌, refl, sym, ap, subst, ◌∙◌, Bool, true, false, Option, some, List,
  [], ◌∷◌, ◌++◌, append-nil, append_assoc, length, length-append, String, str_eq, Exec, done, ◌>>=◌,
  Rc, ok, arith, map,
}
use mbus.Buffer.{Buffer, contents, IsValid}
use mbus.Buffer.Laws.{Available, length-contents}
use mbus.Compress.{Compression}
use mbus.Frame.{push_string}
use mbus.Frame.Encode.{frame, Appends, push_string-frame}
use mbus.Frame.Bytes.{IsText}
use mbus.Method.{type_event}
use mbus.ClientLib.{Runtime, MbusClient, Request, RequestStatus, success, Notice}
use mbus.ClientLib.Requests.{strcmp_case, request_get_type}
use mbus.ClientLib.Reset.{conclude, conclude_event, client_reset}
use mbus.ClientLib.Flush.{request_sent, flush_pushed, flush}
use mbus.ClientLib.Outcomes.{IsEvent, Reports, heard, heard-none, heard-heard, conclude-Reports}

module _ {J : Type 0} (rt : Runtime J) where
  open rt use {zlib, memory}

  -- A request with its frame, of a text without a zero and below 2 ^ 31 bytes, as its frame.
  pub record IsFramed (compression : Compression) (r : Request J) (bytes : List ℕ) : Type 0 where
    pub framed : frame zlib compression r.string ≡ some bytes
    pub text : IsText r.string
    pub short : length r.string < 2 ^ 31
    pub short_frame : length bytes < 2 ^ 31

  -- A queue with the bytes of its frames, the commands in it, and what the program hears of its
  -- events.
  pub data Sends (compression : Compression)
      : List (Request J) → List ℕ → List (Request J) → List (Notice J) → Type 0 where
    nothing_queued : Sends compression [] [] [] []
    event_first :
        (r : Request J) (rs w : List (Request J)) (front bytes : List ℕ) (ns : List (Notice J))
        (f : RequestStatus → List (Notice J))
        → IsFramed compression r front
        → IsEvent rt r
        → Reports rt r f
        → Sends compression rs bytes w ns
        → Sends compression (r ∷ rs) (front ++ bytes) w (f success ++ ns)
    command_first :
        (r : Request J) (rs w : List (Request J)) (front bytes : List ℕ) (ns : List (Notice J))
        (type : String)
        → IsFramed compression r front
        → request_get_type rt r ≡ some type
        → str_eq type type_event ≡ false
        → Sends compression rs bytes w ns
        → Sends compression (r ∷ rs) (front ++ bytes) (r ∷ w) ns

  request_sent-event :
      (r : Request J) (f : RequestStatus → List (Notice J)) (c : MbusClient J)
      → IsEvent rt r
      → Reports rt r f
      → request_sent rt c r ≡ done (heard rt c (f success))
  unfolding request_sent strcmp_case
  request_sent-event r f c e h =
      let same : conclude rt (client_reset rt) c r success ≡ conclude_event rt c r success =
        unfold conclude in rw e refl in
      rw e (sym same ∙ conclude-Reports rt (client_reset rt) r f c success h)

  request_sent-command :
      (r : Request J) (c : MbusClient J) (type : String)
      → request_get_type rt r ≡ some type
      → str_eq type type_event ≡ false
      → request_sent rt c r ≡ done (record c { pendings = c.pendings ++ (r ∷ []) })
  unfolding request_sent strcmp_case
  request_sent-command r c type e n = rw (e, n) refl

  -- The client when its queue is flushed.
  abbrev pub flushed : MbusClient J → Buffer → List (Request J) → List (Notice J) → MbusClient J
  flushed c b w ns = record c {
    requests = [];
    outgoing = b;
    pendings = c.pendings ++ w;
    notices = c.notices ++ ns;
  }

  abbrev pub Flushes :
      MbusClient J → List (Request J) → List ℕ → List (Request J) → List (Notice J) → Type 0
  Flushes c q bytes w ns =
      (b : Buffer) × (flush rt q (record c { requests = q }) ≡ done (flushed c b w ns, ok))
      × IsValid b
      × (contents b ≡ contents c.outgoing ++ bytes)

  -- One request: its frame is in the buffer, and the rest of the queue follows.
  flush_first :
      (c : MbusClient J) (r : Request J) (rest : List (Request J)) (front : List ℕ)
      → Appends c.outgoing front (push_string zlib memory c.outgoing c.compression r.string)
      → (b : Buffer) × (flush rt (r ∷ rest) (record c { requests = r ∷ rest }) ≡ (
          request_sent rt (record c { outgoing = b; requests = rest }) r >>= λ c'.
          flush rt rest c'))
        × IsValid b
        × (contents b ≡ contents c.outgoing ++ front)
  unfolding flush flush_pushed
  flush_first c r rest front (b, e, v, k) = (
    b,
    ap
        (λ x.
          x >>= flush_pushed rt (λ c'. flush rt rest c') (record c { requests = r ∷ rest }) r rest)
        e,
    v,
    k,
  )

  module _ (can : Available memory) where
    room :
        (c : MbusClient J) (b : Buffer) (front bytes : List ℕ)
        → IsValid c.outgoing
        → IsValid b
        → contents b ≡ contents c.outgoing ++ front
        → c.outgoing.length + length (front ++ bytes) ≤ 2 ^ 32 - 4096
        → b.length + length bytes ≤ 2 ^ 32 - 4096
    room c b front bytes v w k h = omega (
      arith,
      length-contents c.outgoing v,
      length-contents b w,
      ap length k,
      length-append (contents c.outgoing) front,
      length-append front bytes,
    )

    pushed :
        (c : MbusClient J) (r : Request J) (front bytes : List ℕ)
        → IsValid c.outgoing
        → IsFramed c.compression r front
        → c.outgoing.length + length (front ++ bytes) ≤ 2 ^ 32 - 4096
        → Appends c.outgoing front (push_string zlib memory c.outgoing c.compression r.string)
    pushed c r front bytes v x h =
        push_string-frame memory can zlib c.outgoing c.compression r.string front v
          (omega (arith, x.short)) x.framed (omega (arith, length-append front bytes))

    flush_all :
        (m : Compression) (q : List (Request J)) (bytes : List ℕ) (w : List (Request J))
        (ns : List (Notice J))
        → Sends m q bytes w ns
        → (c : MbusClient J) → c.compression ≡ m
        → IsValid c.outgoing
        → c.outgoing.length + length bytes ≤ 2 ^ 32 - 4096
        → Flushes c q bytes w ns
    unfolding flush
    flush_all m _ _ _ _ nothing_queued c z v h = (
      c.outgoing,
      ap (λ p. done (record c { requests = []; pendings = p }, ok)) (sym (append-nil c.pendings))
          ∙ ap
              (λ n. done (record c { requests = []; pendings = c.pendings ++ []; notices = n }, ok))
              (sym (append-nil c.notices)),
      v,
      sym (append-nil (contents c.outgoing)),
    )
    flush_all m _ _ w _ (event_first r rs _ front bytes ns f x e p s) c z v h =
        let (b, step, u, k) =
          flush_first c r rs front
            (pushed c r front bytes v (subst (λ k. IsFramed k r front) (sym z) x) h) in
        let c' : MbusClient J = record c { outgoing = b; notices = c.notices ++ f success } in
        let (b', later, u', k') =
          flush_all m rs bytes w ns s c' z u (room c b front bytes v u k h) in
        (
          b',
          step
              ∙ (ap (λ y. y >>= λ c''. flush rt rs c'')
                    (request_sent-event r f (record c { outgoing = b; requests = rs }) e p)
                  ∙ (later
                      ∙ ap (λ n. done (record (flushed c b' w ns) { notices = n }, ok))
                          (append_assoc c.notices (f success) ns))),
          u',
          k' ∙ (ap (λ y. y ++ bytes) k ∙ append_assoc (contents c.outgoing) front bytes),
        )
    flush_all m _ _ _ ns (command_first r rs w front bytes _ type x e n s) c z v h =
        let (b, step, u, k) =
          flush_first c r rs front
            (pushed c r front bytes v (subst (λ k. IsFramed k r front) (sym z) x) h) in
        let c' : MbusClient J = record c { outgoing = b; pendings = c.pendings ++ (r ∷ []) } in
        let (b', later, u', k') =
          flush_all m rs bytes w ns s c' z u (room c b front bytes v u k h) in
        (
          b',
          step
              ∙ (ap (λ y. y >>= λ c''. flush rt rs c'')
                    (request_sent-command r (record c { outgoing = b; requests = rs }) type e n)
                  ∙ (later
                      ∙ ap (λ p. done (record (flushed c b' w ns) { pendings = p }, ok))
                          (append_assoc c.pendings (r ∷ []) w))),
          u',
          k' ∙ (ap (λ y. y ++ bytes) k ∙ append_assoc (contents c.outgoing) front bytes),
        )

    -- A flush of a queue whose requests have frames, to a well-formed output buffer, where memory is
    -- available and the frames stay below the last chunk of a 32-bit size, succeeds: the frames are
    -- behind the bytes in the buffer in the order of the queue, which is empty, the commands are behind
    -- those that wait for an answer, the program has heard of the success of the events, and nothing
    -- else changes.
    pub flush-Flushes :
        (q : List (Request J)) (bytes : List ℕ) (w : List (Request J)) (ns : List (Notice J))
        (c : MbusClient J)
        → IsValid c.outgoing
        → Sends c.compression q bytes w ns
        → c.outgoing.length + length bytes ≤ 2 ^ 32 - 4096
        → Flushes c q bytes w ns
    flush-Flushes q bytes w ns c v s h = flush_all c.compression q bytes w ns s c refl v h
