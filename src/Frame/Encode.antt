-- ===== src/Frame/Encode.antt =====
-- What mbus_buffer_push_string appends.
use mbus.Base.{
  ℕ, ◌+◌, ◌-◌, ◌^◌, ◌≤◌, ◌<◌, ◌≡◌, ◌∙◌, ap, Option, none, some, List, ◌++◌, append_assoc, length,
  length-append, subst, inl, inr, Option-cases, Exec, done, Rc, ok, arith,
}
use mbus.Buffer.{Buffer, Memory, contents, IsValid, u32}
use mbus.Buffer.Laws.{Available, push-contents, length-contents}
use mbus.Compress.{Compression, method_none, method_zlib, Zlib, compress_data}
use mbus.Frame.{be32, then_push, push_compressed, push_string}
use mbus.Frame.Bytes.{length-be32}

pub frame_compressed : ℕ → Option (List ℕ) → Option (List ℕ)
frame_compressed n none = none
frame_compressed n (some c) = some (be32 (length c + 4) ++ (be32 n ++ c))

-- The frame of a text; there is none where the compression fails.
unfoldable pub frame : Zlib → Compression → List ℕ → Option (List ℕ)
unfolding frame_compressed
frame z method_none s = some (be32 (length s) ++ s)
frame z method_zlib s = frame_compressed (length s) (compress_data z method_zlib s)

-- The run ends well, and appends the bytes.
abbrev pub Appends : Buffer → List ℕ → Exec (Buffer × Rc) → Type 0
Appends b bytes r =
    (b' : Buffer) × (r ≡ done (b', ok)) × IsValid b' × (contents b' ≡ contents b ++ bytes)

pub frame-length : (z : Zlib) (c : Compression) (s f : List ℕ) → frame z c s ≡ some f → 4 ≤ length f
unfolding frame
frame-length z method_none s f h =
    let e : be32 (length s) ++ s ≡ f = cc in
    omega (arith, ap length e, length-append (be32 (length s)) s, length-be32 (length s))
frame-length z method_zlib s f h = elim (Option-cases (compress_data z method_zlib s)) [
  | inl bad ↦ cc (ap (frame_compressed (length s)) bad)
  | inr (p, good) ↦
      let e : be32 (length p + 4) ++ (be32 (length s) ++ p) ≡ f =
        cc (ap (frame_compressed (length s)) good) in
      omega (
        arith,
        ap length e,
        length-append (be32 (length p + 4)) (be32 (length s) ++ p),
        length-be32 (length p + 4),
      )
]

module _ (m : Memory) (can : Available m) where
  then_push-Appends :
      (b : Buffer) (front bytes : List ℕ) (r : Exec (Buffer × Rc))
      → IsValid b
      → Appends b front r
      → b.length + length (front ++ bytes) ≤ 2 ^ 32 - 4096
      → Appends b (front ++ bytes) (then_push m r bytes)
  then_push-Appends b front bytes r w (b', e, v, c) h =
      let l : b'.length ≡ b.length + length front = omega (
        arith,
        length-contents b' v,
        length-contents b w,
        ap length c,
        length-append (contents b) front,
      ) in
      let (b'', e', v', c') =
        push-contents m b' bytes can v (omega (arith, l, length-append front bytes)) in
      (
        b'',
        rw e e',
        v',
        c' ∙ ap (λ (t : List ℕ). t ++ bytes) c ∙ append_assoc (contents b) front bytes,
      )

  push_plain :
      (z : Zlib) (b : Buffer) (s : List ℕ)
      → IsValid b
      → b.length + length (be32 (length s) ++ s) ≤ 2 ^ 32 - 4096
      → Appends b (be32 (length s) ++ s) (push_string z m b method_none s)
  unfolding push_string
  push_plain z b s v h =
      let n = length-append (be32 (length s)) s in
      let fits : u32 (length s) ≡ length s = omega (arith, n) in
      rw fits (
        then_push-Appends b (be32 (length s)) s _ v
          (push-contents m b (be32 (length s)) can v (omega (arith, n))) h)

  push_packed :
      (z : Zlib) (b : Buffer) (s c : List ℕ)
      → IsValid b
      → length s < 2 ^ 32
      → compress_data z method_zlib s ≡ some c
      → b.length + length (be32 (length c + 4) ++ (be32 (length s) ++ c)) ≤ 2 ^ 32 - 4096
      → Appends b (be32 (length c + 4) ++ (be32 (length s) ++ c)) (push_string z m b method_zlib s)
  unfolding push_string
  push_packed z b s c v small e h =
      let n = length-append (be32 (length c + 4)) (be32 (length s) ++ c) in
      let k = length-append (be32 (length s)) c in
      let l = length-append (be32 (length c + 4)) (be32 (length s)) in
      let four = length-be32 (length s) in
      let four' = length-be32 (length c + 4) in
      let packed_length : u32 (length c + 4) ≡ length c + 4 = omega (arith, n, k) in
      let text_length : u32 (length s) ≡ length s = omega arith in
      let regroup = append_assoc (be32 (length c + 4)) (be32 (length s)) c in
      rw (e, push_compressed, packed_length, text_length, ← regroup)
        (then_push-Appends b (be32 (length c + 4) ++ be32 (length s)) c _ v
          (then_push-Appends b (be32 (length c + 4)) (be32 (length s)) _ v
            (push-contents m b (be32 (length c + 4)) can v (omega (arith, n)))
            (omega (arith, n, k, l)))
          (rw regroup h))

  -- A push of a text shorter than 2 ^ 32 to a well-formed buffer succeeds and appends its frame,
  -- under either method, if there is a frame, memory is available, and the bytes in use and the
  -- frame stay below the last chunk of a 32-bit size.
  pub push_string-frame :
      (z : Zlib) (b : Buffer) (c : Compression) (s : List ℕ) (bytes : List ℕ)
      → IsValid b
      → length s < 2 ^ 32
      → frame z c s ≡ some bytes
      → b.length + length bytes ≤ 2 ^ 32 - 4096
      → Appends b bytes (push_string z m b c s)
  unfolding frame
  push_string-frame z b method_none s bytes v small e h =
      let e' : be32 (length s) ++ s ≡ bytes = cc in
      subst (λ t. Appends b t (push_string z m b method_none s)) e'
        (push_plain z b s v (omega (arith, ap length e')))
  push_string-frame z b method_zlib s bytes v small e h =
      elim (Option-cases (compress_data z method_zlib s)) [
        | inl bad ↦ cc (ap (frame_compressed (length s)) bad)
        | inr (p, good) ↦
            let e' : be32 (length p + 4) ++ (be32 (length s) ++ p) ≡ bytes =
              cc (ap (frame_compressed (length s)) good) in
            subst (λ t. Appends b t (push_string z m b method_zlib s)) e'
              (push_packed z b s p v small good (omega (arith, ap length e')))
      ]
