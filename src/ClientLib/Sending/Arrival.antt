-- ===== src/ClientLib/Sending/Arrival.antt =====
-- What src/client/client.c puts into its output buffer, at the server of src/server/server.c.
use mbus.Base.{ℕ, ◌+◌, ◌-◌, ◌^◌, ◌≤◌, ◌≡◌, refl, sym, subst, List, [], map, length, Returns, arith}
use mbus.Buffer.{contents, IsValid}
use mbus.Buffer.Laws.{Available}
use mbus.Compress.{Compression}
use mbus.Frame.Decode.{Restores}
use mbus.Method.{Method}
use mbus.Client.{Client}
use mbus.Server.{Server, Env}
use mbus.Server.Receive.{receive_client}
use mbus.Server.Receive.Order.{Carries, AreRequests, IsReceived, receive_client-IsReceived}
use mbus.ClientLib.{Runtime, MbusClient, Request, Notice}
use mbus.ClientLib.Sending.{
  Sends, nothing_queued, event_first, command_first, Flushes, flush-Flushes,
}

module _ {J : Type 0} (rt : Runtime J) where
  abbrev pub strings : List (Request J) → List (List ℕ)
  strings q = map (λ r. r.string) q

  Sends-Carries :
      (k : Compression) (q : List (Request J)) (bytes : List ℕ) (w : List (Request J))
      (ns : List (Notice J))
      → Sends rt k q bytes w ns
      → Carries rt.zlib k (strings q) [] bytes
  unfolding Carries
  Sends-Carries k _ _ _ _ nothing_queued = refl
  Sends-Carries k _ _ w _ (event_first r rs _ front bytes ns f x e p s) = (
    front,
    bytes,
    x.framed,
    x.text,
    x.short,
    x.short_frame,
    refl,
    Sends-Carries k rs bytes w ns s,
  )
  Sends-Carries k _ _ _ ns (command_first r rs w front bytes _ type x e n s) = (
    front,
    bytes,
    x.framed,
    x.text,
    x.short,
    x.short_frame,
    refl,
    Sends-Carries k rs bytes w ns s,
  )

  -- The client library and the server put together: where a client flushes a queue whose requests
  -- have frames, to a well-formed output buffer with room for them, and the server's well-formed
  -- input buffer for it holds those frames, under the same compression, one that restores what it
  -- compressed, and the texts are requests that the server takes, then the flush succeeds with the
  -- frames behind the bytes in the output buffer, and the server's loop ends well with the requests
  -- of the whole queue, in its order, behind those that it has.
  pub flush-arrives :
      (e : Env J) (s : Server J) (peer : Client J) (c : MbusClient J) (q : List (Request J))
      (bytes : List ℕ) (w : List (Request J)) (ns : List (Notice J)) (ms : List (Method J))
      → rt.zlib ≡ e.zlib
      → c.compression ≡ peer.compression
      → Restores e.zlib
      → Available rt.memory
      → IsValid c.outgoing
      → Sends rt c.compression q bytes w ns
      → c.outgoing.length + length bytes ≤ 2 ^ 32 - 4096
      → IsValid peer.buffer_in
      → contents peer.buffer_in ≡ bytes
      → AreRequests e peer.handle (strings q) ms
      → Flushes rt c q bytes w ns × Returns (IsReceived e s peer ms []) (receive_client e s peer)
  flush-arrives e s peer c q bytes w ns ms z k restores can v sends h v' there known =
      let carried : Carries e.zlib peer.compression (strings q) [] (contents peer.buffer_in) =
        subst (λ x. Carries e.zlib peer.compression (strings q) [] x) (sym there)
          (subst (λ x. Carries e.zlib x (strings q) [] bytes) k
            (subst (λ x. Carries x c.compression (strings q) [] bytes) z
              (Sends-Carries c.compression q bytes w ns sends))) in
      (
        flush-Flushes rt can q bytes w ns c v sends h,
        receive_client-IsReceived e s peer (strings q) ms [] restores v' carried (omega arith)
            known,
      )
