-- ===== src/Frame/Decode.antt =====
-- What the receive loop of mbus_server_run_timeout makes of the bytes of a frame.
use mbus.Base.{
  ℕ, ◌+◌, ◌-◌, ◌^◌, ◌≤◌, ◌<◌, ◌≡◌, ◌∙◌, refl, ap, sym, subst, some, List, [], ◌++◌, append_assoc,
  append-nil, length, length-append, take, drop, take-append-drop, take-append_exact,
  drop-append_exact, inl, inr, Option-cases, done, arith,
}
use mbus.Base.Int.{pos}
use mbus.Buffer.{Buffer, contents, IsValid}
use mbus.Buffer.Laws.{length-contents}
use mbus.Compress.{Compression, method_none, method_zlib, Zlib, compress_data, uncompress_data}
use mbus.Frame.{message, be32, read32, unpack, read_expected, next_frame}
use mbus.Frame.Bytes.{read32-be32, length-be32, IsText, strndup-append}
use mbus.Frame.Encode.{frame, frame_compressed}

-- The documented behaviour of zlib: a text is restored from what it was compressed to, into a
-- destination of its own length, and nothing is compressed to no bytes.
abbrev pub Restores : Zlib → Type 0
Restores z =
    (s c : List ℕ)
    → compress_data z method_zlib s ≡ some c
    → (0 < length c) × (z.uncompress (length s) c ≡ some s)

-- The block begins with the bytes in use.
pub block-contents : (b : Buffer) → b.block ≡ contents b ++ drop b.length b.block
block-contents b = sym (take-append-drop b.length b.block)

-- A round on a block that begins with a length.
pub next_frame-be32 :
    (z : Zlib) (c : Compression) (b : Buffer) (n : ℕ) (rest : List ℕ)
    → b.block ≡ be32 n ++ rest
    → 4 ≤ b.length
    → n < 2 ^ 32
    → next_frame z c b ≡ read_expected z c rest (b.length - 4) n
unfolding next_frame
next_frame-be32 z c b n rest e h w = ground (
  arith,
  e,
  ap read32 e ∙ read32-be32 n rest w,
  ap (drop 4) e ∙ drop-append_exact (be32 n) rest 4 (sym (length-be32 n)),
)

-- With the whole of a plain frame in use the round yields its text.
plain_round :
    (z : Zlib) (s rest : List ℕ) (available : ℕ)
    → IsText s
    → length s ≤ available
    → read_expected z method_none (s ++ rest) available (length s) ≡ done (message s (length s))
unfolding read_expected
plain_round z s rest available t h = ground (arith, strndup-append s rest (length s) t refl)

-- uncompress gives the text back.
uncompressed_text :
    (z : Zlib) (s c : List ℕ)
    → Restores z
    → compress_data z method_zlib s ≡ some c
    → uncompress_data z method_zlib (pos (length s)) (pos (length c)) c ≡ some s
unfolding compress_data uncompress_data
uncompressed_text z s c restores e = ground (arith, restores s c e)

unpack_lem :
    (z : Zlib) (s c rest : List ℕ)
    → IsText s
    → Restores z
    → compress_data z method_zlib s ≡ some c
    → length s < 2 ^ 31
    → length c + 4 < 2 ^ 31
    → unpack z (be32 (length s) ++ (c ++ rest)) (length c + 4) (length s)
      ≡ done (message s (length c + 4))
unfolding unpack
unpack_lem z s c rest t restores e small packed = ground (
  arith,
  drop-append_exact (be32 (length s)) (c ++ rest) 4 (sym (length-be32 (length s))),
  ap (λ (k : ℕ). take k (c ++ rest)) minus ∙ take-append_exact c rest (length c) refl,
  length-append c rest,
  uncompressed_text z s c restores e,
  strndup-append s [] (length s) t refl,
  append-nil s,
  (restores s c e).0,
)
  where
    minus : length c + 4 - 4 ≡ length c
    minus = omega arith

packed_round :
    (z : Zlib) (s c rest : List ℕ) (available : ℕ)
    → IsText s
    → Restores z
    → compress_data z method_zlib s ≡ some c
    → length s < 2 ^ 31
    → length c + 4 < 2 ^ 31
    → length c + 4 ≤ available
    → read_expected z method_zlib (be32 (length s) ++ (c ++ rest)) available (length c + 4)
      ≡ done (message s (length c + 4))
unfolding read_expected
packed_round z s c rest available t restores e small packed h = ground (
  arith,
  read32-be32 (length s) (c ++ rest) (omega arith),
  unpack_lem z s c rest t restores e small packed,
)

-- What a frame is made of: the length, and as many bytes.
pub frame_parts :
    (z : Zlib) (c : Compression) (s bytes : List ℕ)
    → frame z c s ≡ some bytes
    → (payload : List ℕ) × (bytes ≡ be32 (length payload) ++ payload)
unfolding frame
frame_parts z method_none s bytes e = (s, cc)
frame_parts z method_zlib s bytes e = elim (Option-cases (compress_data z method_zlib s)) [
  | inl bad ↦ cc (ap (frame_compressed (length s)) bad)
  | inr (p, good) ↦
      let same : be32 (length p + 4) ++ (be32 (length s) ++ p) ≡ bytes =
        cc (ap (frame_compressed (length s)) good) in
      let n : length p + 4 ≡ length (be32 (length s) ++ p) =
        omega (arith, length-append (be32 (length s)) p, length-be32 (length s)) in
      (be32 (length s) ++ p, sym same ∙ ap (λ (k : ℕ). be32 k ++ (be32 (length s) ++ p)) n)
]

behind_length : (m n : ℕ) (x y : List ℕ) → be32 m ++ x ≡ be32 n ++ y → x ≡ y
behind_length m n x y e =
    sym (drop-append_exact (be32 m) x 4 (sym (length-be32 m)))
    ∙ ap (drop 4) e
    ∙ drop-append_exact (be32 n) y 4 (sym (length-be32 n))

expected_frame :
    (z : Zlib) (c : Compression) (s payload rest : List ℕ) (available : ℕ)
    → IsText s
    → Restores z
    → frame z c s ≡ some (be32 (length payload) ++ payload)
    → length s < 2 ^ 31
    → length payload < 2 ^ 31
    → length payload ≤ available
    → read_expected z c (payload ++ rest) available (length payload)
      ≡ done (message s (length payload))
unfolding frame
expected_frame z method_none s payload rest available t restores e small packed h =
    let same : s ≡ payload = behind_length (length s) (length payload) s payload (cc) in
    subst
      (λ p.
        length p ≤ available
        → read_expected z method_none (p ++ rest) available (length p)
          ≡ done (message s (length p)))
      same (plain_round z s rest available t) h
expected_frame z method_zlib s payload rest available t restores e small packed h =
    elim (Option-cases (compress_data z method_zlib s)) [
      | inl bad ↦ cc (ap (frame_compressed (length s)) bad)
      | inr (p, good) ↦
          let same : be32 (length s) ++ p ≡ payload =
            behind_length (length p + 4) (length payload) (be32 (length s) ++ p) payload
              (cc (ap (frame_compressed (length s)) good)) in
          let n : length p + 4 ≡ length payload =
            omega
              (arith, ap length same, length-append (be32 (length s)) p, length-be32 (length s)) in
          let split : payload ++ rest ≡ be32 (length s) ++ (p ++ rest) =
            ap (λ t. t ++ rest) (sym same) ∙ append_assoc (be32 (length s)) p rest in
          rw (split, ← n)
            (packed_round z s p rest available t restores good small (omega arith) (omega arith))
    ]

-- With a whole frame in front of the bytes in use, a round yields the text that was pushed and
-- the length that takes the frame off, under the conditions of next_frame-shift.
pub next_frame-frame :
    (z : Zlib) (c : Compression) (b : Buffer) (s bytes rest : List ℕ)
    → IsText s
    → Restores z
    → IsValid b
    → frame z c s ≡ some bytes
    → length s < 2 ^ 31
    → length bytes < 2 ^ 31
    → contents b ≡ bytes ++ rest
    → (n : ℕ) × (next_frame z c b ≡ done (message s n)) × (n + 4 ≡ length bytes)
next_frame-frame z c b s bytes rest t restores v e small fits q =
    let (payload, parts) = frame_parts z c s bytes e in
    let four = length-be32 (length payload) in
    let n : length payload + 4 ≡ length bytes =
      omega (arith, ap length parts, length-append (be32 (length payload)) payload, four) in
    let used : b.length ≡ length bytes + length rest =
      omega (arith, length-contents b v, ap length q, length-append bytes rest) in
    let tail : List ℕ = rest ++ drop b.length b.block in
    let block : b.block ≡ be32 (length payload) ++ (payload ++ tail) =
      block-contents b
      ∙ ap (λ t. t ++ drop b.length b.block) (q ∙ ap (λ t. t ++ rest) parts)
      ∙ simp append_assoc in
    (
      length payload,
      next_frame-be32 z c b (length payload) (payload ++ tail) block (omega arith) (omega arith)
          ∙ expected_frame z c s payload tail (b.length - 4) t restores (e ∙ ap some parts) small
              (omega arith) (omega arith),
      n,
    )
