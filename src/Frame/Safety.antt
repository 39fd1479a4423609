-- ===== src/Frame/Safety.antt =====
-- The receive loop on bytes that are no whole frame, and on lengths that a peer made up.
use mbus.Base.{
  ℕ, suc, ◌+◌, ◌-◌, ◌^◌, ◌≤◌, ◌<◌, ◌≡◌, ◌∙◌, ap, sym, some, List, ◌∷◌, ◌++◌, append_assoc, length,
  length-append, take, drop, take-append-drop, take-append_exact, take-append, ◌⊎◌, inl, inr,
  Bool-cases, done, fault, arith, ltb,
}
use mbus.Buffer.{Buffer, contents, IsValid}
use mbus.Buffer.Laws.{length-contents}
use mbus.Compress.{Compression, method_none, Zlib}
use mbus.Frame.{incomplete, message, be32, read_expected, next_frame}
use mbus.Frame.Bytes.{length-be32, IsText, strndup-inside, strndup-outside}
use mbus.Frame.Encode.{frame}
use mbus.Frame.Decode.{block-contents, next_frame-be32, frame_parts}

-- Four bytes in use that begin a frame are its length.
header_of :
    (n : ℕ) (used payload more : List ℕ)
    → 4 ≤ length used
    → be32 n ++ payload ≡ used ++ more
    → used ≡ be32 n ++ drop 4 used
header_of n used payload more h e =
    sym (take-append-drop 4 used)
    ∙ ap (λ t. t ++ drop 4 used)
        (sym (take-append 4 used more h)
          ∙ sym (ap (take 4) e)
          ∙ take-append_exact (be32 n) payload 4 (sym (length-be32 n)))

short_round :
    (z : Zlib) (c : Compression) (memory : List ℕ) (available n : ℕ)
    → available < n
    → n < 2 ^ 31
    → read_expected z c memory available n ≡ done incomplete
unfolding read_expected
short_round z c memory available n h small = ground arith

-- While a well-formed buffer holds a proper part of the front of a frame shorter than 2 ^ 31,
-- the round waits.
pub next_frame-prefix :
    (z : Zlib) (c : Compression) (b : Buffer) (s bytes rest : List ℕ) (x : ℕ)
    → IsValid b
    → frame z c s ≡ some bytes
    → length bytes < 2 ^ 31
    → bytes ≡ contents b ++ (x ∷ rest)
    → next_frame z c b ≡ done incomplete
next_frame-prefix z c b s bytes rest x v e small q = elim (Bool-cases (ltb b.length 4)) [
  | inl short ↦ unfold next_frame in ground arith
  | inr header ↦
      let long : 4 ≤ b.length = ground arith in
      let (payload, parts) = frame_parts z c s bytes e in
      let used = length-contents b v in
      let n : length payload + 4 ≡ length bytes = omega (
        arith,
        ap length parts,
        length-append (be32 (length payload)) payload,
        length-be32 (length payload),
      ) in
      let total : length bytes ≡ b.length + suc (length rest) =
        omega (arith, ap length q, length-append (contents b) (x ∷ rest), used) in
      let front =
        header_of (length payload) (contents b) payload (x ∷ rest) (omega (arith, used))
          (sym parts ∙ q) in
      next_frame-be32 z c b (length payload) _
        (block-contents b
          ∙ ap (λ t. t ++ drop b.length b.block) front
          ∙ append_assoc (be32 (length payload)) (drop 4 (contents b)) (drop b.length b.block))
        long (omega arith)
      ∙ short_round z c _ (b.length - 4) (length payload) (omega arith) (omega arith)
]

-- Without compression, a length below 2 ^ 31 in front of a well-formed buffer keeps the round
-- inside the block: it waits, or yields a text no longer than announced.
pub next_frame-inside :
    (z : Zlib) (b : Buffer) (n : ℕ) (rest : List ℕ)
    → IsValid b
    → b.block ≡ be32 n ++ rest
    → n < 2 ^ 31
    → (next_frame z method_none b ≡ done incomplete)
      ⊎ ((s : List ℕ) × (next_frame z method_none b ≡ done (message s n)) × (length s ≤ n))
next_frame-inside z b n rest v e small = elim (Bool-cases (ltb b.length 4)) [
  | inl short ↦ inl (unfold next_frame in ground arith)
  | inr header ↦
      let round = next_frame-be32 z method_none b n rest e (ground arith) (omega arith) in
      elim (Bool-cases (ltb (b.length - 4) n)) [
        | inl short ↦
            inl (round ∙ short_round z method_none rest (b.length - 4) n (ground arith) small)
        | inr enough ↦
            let room : n ≤ length rest =
              ground (arith, v, ap length e, length-append (be32 n) rest, length-be32 n) in
            let (s, found, l) = strndup-inside rest n room in
            inr (s, round ∙ unfold read_expected in ground (arith, found), l)
      ]
]

-- Without compression, a length of 2 ^ 31 or more in front of a well-formed buffer of four bytes
-- at least, whose block is shorter than announced and has no zero byte behind the length, makes
-- the round read past the end of the block.
pub next_frame-overread :
    (z : Zlib) (b : Buffer) (n : ℕ) (rest : List ℕ)
    → IsValid b
    → 4 ≤ b.length
    → b.block ≡ be32 n ++ rest
    → 2 ^ 31 ≤ n
    → n < 2 ^ 32
    → IsText rest
    → length rest < n
    → next_frame z method_none b ≡ fault
next_frame-overread z b n rest v h e lo hi t over =
    next_frame-be32 z method_none b n rest e h hi
    ∙ unfold read_expected in ground (arith, strndup-outside rest n t over)
