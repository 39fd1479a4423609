-- ===== src/Frame/RoundTrip.antt =====
-- From the sender's output buffer to the receiver's input buffer and back to the text.
use mbus.Base.{
  ℕ, ◌+◌, ◌^◌, ◌<◌, ◌≡◌, ◌∙◌, ap, sym, some, List, [], ◌++◌, length, length-append, drop,
  drop-append_exact, inl, inr, done, ok, arith,
}
use mbus.Buffer.{Buffer, Memory, contents, shift, IsValid, u32}
use mbus.Buffer.Laws.{Available, length-contents, shift-contents}
use mbus.Compress.{Compression, Zlib}
use mbus.Frame.{message, push_string, next_frame}
use mbus.Frame.Bytes.{IsText}
use mbus.Frame.Encode.{frame, push_string-frame}
use mbus.Frame.Decode.{Restores, next_frame-frame}

-- A round that takes the frame of `s` off the front and leaves `rest`.
abbrev pub Takes : Zlib → Compression → Buffer → List ℕ → List ℕ → Type 0
Takes z c b s rest =
    (n : ℕ) × (b' : Buffer) × (next_frame z c b ≡ done (message s n))
    × (shift b (u32 (4 + n)) ≡ done (b', ok))
    × IsValid b'
    × (contents b' ≡ rest)

-- On a well-formed buffer that begins with the frame of a text without a zero byte, a round and
-- the shift behind it yield the text, take off that frame and no more, and keep the buffer well
-- formed, if the compression restores what it compressed, and the text and the frame are shorter
-- than 2 ^ 31.
pub next_frame-shift :
    (z : Zlib) (c : Compression) (b : Buffer) (s bytes rest : List ℕ)
    → IsText s
    → Restores z
    → IsValid b
    → frame z c s ≡ some bytes
    → length s < 2 ^ 31
    → length bytes < 2 ^ 31
    → contents b ≡ bytes ++ rest
    → Takes z c b s rest
next_frame-shift z c b s bytes rest t restores v e small fits q =
    let (n, round, whole) = next_frame-frame z c b s bytes rest t restores v e small fits q in
    let used : b.length ≡ length bytes + length rest =
      omega (arith, length-contents b v, ap length q, length-append bytes rest) in
    let (b', w, shifted) = shift-contents b (u32 (4 + n)) v in
    elim shifted [
      | inl (h, done_lem, left) ↦ (
        n,
        b',
        round,
        done_lem,
        w,
        left ∙ ap (drop (u32 (4 + n))) q ∙ drop-append_exact bytes rest (u32 (4 + n)) (omega arith),
      )
      | inr (h, failed, same) ↦ absurd (omega arith)
    ]

-- A text without a zero byte that is pushed into an empty, well-formed output buffer is what the
-- receiver takes off the front of any well-formed buffer that begins with those bytes, under
-- either method, if memory is available, the compression restores what it compressed, and the
-- text and the frame are shorter than 2 ^ 31.
pub next_frame-push_string :
    (m : Memory) (z : Zlib) (c : Compression) (out out' b : Buffer) (s bytes rest : List ℕ)
    → Available m
    → Restores z
    → IsText s
    → IsValid out
    → out.length ≡ 0
    → frame z c s ≡ some bytes
    → length s < 2 ^ 31
    → length bytes < 2 ^ 31
    → push_string z m out c s ≡ done (out', ok)
    → IsValid b
    → contents b ≡ contents out' ++ rest
    → Takes z c b s rest
next_frame-push_string m z c out out' b s bytes rest can restores t v empty e small fits p w r =
    let (made, pushed, _, q) =
      push_string-frame m can z out c s bytes v (omega arith) e (omega arith) in
    let same : made ≡ out' = cc in
    let sent : contents out' ≡ bytes =
      ap contents (sym same) ∙ q ∙ ap (λ k. k ++ bytes) (nothing out empty) in
    next_frame-shift z c b s bytes rest t restores w e small fits (r ∙ ap (λ k. k ++ rest) sent)
  where
    nothing : (b : Buffer) → b.length ≡ 0 → contents b ≡ []
    nothing b h = rw h
