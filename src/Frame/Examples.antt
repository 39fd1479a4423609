-- ===== src/Frame/Examples.antt =====
-- The theorems about frames at concrete inputs, with a compression that puts one byte in front.
use mbus.Base.{
  ℕ, ◌+◌, ◌^◌, ◌≤◌, ◌≡◌, ◌⊎◌, refl, true, Option, none, some, List, [], ◌∷◌, ◌++◌, length, leb,
  if◌then◌else◌, replicate, length-replicate, length-append, ◌≢◌, replicate-All, done, fault, arith,
}
use mbus.Buffer.{Buffer, Memory, create, push, reserve, grow, grow_fuel, reallocate, write, IsValid}
use mbus.Compress.{method_none, method_zlib, Zlib, compress_data}
use mbus.Frame.{incomplete, message, be32, push_string, next_frame}
use mbus.Frame.Encode.{frame}
use mbus.Frame.Decode.{Restores}
use mbus.Frame.Safety.{next_frame-prefix, next_frame-inside, next_frame-overread}
use mbus.Frame.RoundTrip.{Takes, next_frame-shift, next_frame-push_string}

abbrev plenty : Memory
plenty = record {
  realloc_succeeds = λ n. true;
  malloc_succeeds = λ n. true;
  junk = λ n. replicate n 0;
  length_junk = λ n. length-replicate n 0;
}

uncompress : ℕ → List ℕ → Option (List ℕ)
uncompress n [] = none
uncompress n (x ∷ s) = if leb (length s) n then some s else none

abbrev tagged : Zlib
tagged = record { enabled = true; compress2 = λ s. some (120 ∷ s); uncompress = uncompress }

tagged-Restores : Restores tagged
unfolding compress_data uncompress
tagged-Restores [] c e = cc
tagged-Restores (x ∷ s) [] e = absurd (ground arith)
tagged-Restores (x ∷ s) (y ∷ c) e = ground arith

abbrev bell : ℕ
bell = 7

abbrev block_of : List ℕ → ℕ → Buffer
block_of bytes pad = record {
  length = length bytes;
  size = 4096;
  block = bytes ++ replicate pad bell;
}

block_of-IsValid :
    (bytes : List ℕ) (pad : ℕ) → length bytes + pad ≡ 4096 → IsValid (block_of bytes pad)
block_of-IsValid bytes pad h = record {
  within = omega arith;
  allocated = omega (arith, length-append bytes (replicate pad bell), length-replicate pad bell);
  aligned = refl;
  word = omega arith;
}

-- "hi" in a plain frame, with one byte more behind it.
abbrev hi : Buffer
hi = block_of (0 ∷ 0 ∷ 0 ∷ 2 ∷ 104 ∷ 105 ∷ 0 ∷ []) 4089

hi-IsValid : IsValid hi
hi-IsValid = block_of-IsValid (0 ∷ 0 ∷ 0 ∷ 2 ∷ 104 ∷ 105 ∷ 0 ∷ []) 4089 refl

seven-ne-zero : bell ≢ 0
seven-ne-zero = omega arith

next_frame-shift_example : Takes tagged method_none hi (104 ∷ 105 ∷ []) (0 ∷ [])
unfolding frame be32
next_frame-shift_example =
    next_frame-shift tagged method_none hi (104 ∷ 105 ∷ []) (0 ∷ 0 ∷ 0 ∷ 2 ∷ 104 ∷ 105 ∷ [])
      (0 ∷ []) (omega arith) tagged-Restores hi-IsValid refl (omega arith) (omega arith) refl

-- Under a compression, the length counts the four bytes of the inner length too.
packed : List ℕ
packed = 0 ∷ 0 ∷ 0 ∷ 7 ∷ 0 ∷ 0 ∷ 0 ∷ 2 ∷ 120 ∷ 104 ∷ 105 ∷ []

-- The same bytes in the sender's buffer, and in a receiver's with a byte more behind them.
abbrev sent : Buffer
sent = record {
  length = 11;
  size = 4096;
  block = 0 ∷ 0 ∷ 0 ∷ 7 ∷ 0 ∷ 0 ∷ 0 ∷ 2 ∷ 120 ∷ 104 ∷ 105 ∷ replicate 4085 0;
}

abbrev received : Buffer
received = block_of (0 ∷ 0 ∷ 0 ∷ 7 ∷ 0 ∷ 0 ∷ 0 ∷ 2 ∷ 120 ∷ 104 ∷ 105 ∷ 0 ∷ []) 4084

next_frame-push_string_example : Takes tagged method_zlib received (104 ∷ 105 ∷ []) (0 ∷ [])
unfolding frame be32 create compress_data packed push_string push reserve grow grow_fuel reallocate
    write replicate
next_frame-push_string_example =
    next_frame-push_string plenty tagged method_zlib create sent received (104 ∷ 105 ∷ []) packed
      (0 ∷ []) (λ n. refl) tagged-Restores (omega arith) (omega arith) refl refl (omega arith)
      (omega arith) refl
      (block_of-IsValid (0 ∷ 0 ∷ 0 ∷ 7 ∷ 0 ∷ 0 ∷ 0 ∷ 2 ∷ 120 ∷ 104 ∷ 105 ∷ 0 ∷ []) 4084 refl) refl

-- The first five of the six bytes.
abbrev cut : Buffer
cut = block_of (0 ∷ 0 ∷ 0 ∷ 2 ∷ 104 ∷ []) 4091

next_frame-prefix_example : next_frame tagged method_none cut ≡ done incomplete
unfolding frame be32
next_frame-prefix_example =
    next_frame-prefix tagged method_none cut (104 ∷ 105 ∷ []) (0 ∷ 0 ∷ 0 ∷ 2 ∷ 104 ∷ 105 ∷ []) []
      105 (block_of-IsValid (0 ∷ 0 ∷ 0 ∷ 2 ∷ 104 ∷ []) 4091 refl) refl (omega arith) refl

next_frame-inside_example :
    (next_frame tagged method_none hi ≡ done incomplete)
    ⊎ ((s : List ℕ) × (next_frame tagged method_none hi ≡ done (message s 2)) × (length s ≤ 2))
unfolding be32
next_frame-inside_example =
    next_frame-inside tagged hi 2 (104 ∷ 105 ∷ 0 ∷ replicate 4089 bell) hi-IsValid refl
      (omega arith)

-- A length with the top bit set, in front of a block without a zero byte.
abbrev made_up : Buffer
made_up = block_of (128 ∷ 0 ∷ 0 ∷ 0 ∷ []) 4092

next_frame-overread_example : next_frame tagged method_none made_up ≡ fault
unfolding be32
next_frame-overread_example =
    next_frame-overread tagged made_up (2 ^ 31) (replicate 4092 bell)
      (block_of-IsValid (128 ∷ 0 ∷ 0 ∷ 0 ∷ []) 4092 refl) (omega arith) refl (omega arith)
      (omega arith) (replicate-All _ 4092 bell seven-ne-zero)
      (omega (arith, length-replicate 4092 bell))
