-- ===== src/Frame.antt =====
-- The message frames on a connection: mbus_buffer_push_string of src/buffer/buffer.c, which writes
-- one, and the loop over a client's input buffer in mbus_server_run_timeout of
-- src/server/server.c, which takes them apart again.
--
-- A frame is a length of four bytes, most significant first, and so many bytes; under a compression
-- those begin with the length of the text before compression, in four bytes. A text is a list of
-- bytes without a zero.
pub mod Bytes
pub mod Encode
pub mod Decode
pub mod Safety
pub mod RoundTrip
mod Examples
use mbus.Base.{
  ℕ, zero, suc, ◌+◌, ◌-◌, ◌*◌, ◌/◌, ◌%◌, ◌^◌, ◌≤◌, ◌<◌, ◌≡◌, Bool, true, false, ◌&&◌, Option, none,
  some, List, [], ◌∷◌, ◌++◌, length, take, drop, leb, ltb, ◌==◌, if◌then◌else◌, Exec, done, fault,
  spin, ◌>>=◌, Rc, ok, fail,
}
use mbus.Base.Int.{ℤ, pos, negsuc}
use mbus.Buffer.{Buffer, Memory, push, u32}
use mbus.Compress.{Compression, method_none, method_zlib, Zlib, compress_data, uncompress_data}

-- htonl, and the four bytes in memory.
unfoldable pub be32 : ℕ → List ℕ
be32 n = (n / 2 ^ 24 % 256) ∷ (n / 2 ^ 16 % 256) ∷ (n / 2 ^ 8 % 256) ∷ (n % 256) ∷ []

-- memcpy of four bytes and ntohl; a read past the end of the memory is a fault.
unfoldable pub read32 : List ℕ → Exec ℕ
read32 (a ∷ b ∷ c ∷ d ∷ rest) = done (a * 2 ^ 24 + b * 2 ^ 16 + c * 2 ^ 8 + d)
read32 _ = fault

-- `rc = ...; if (rc != 0) goto bail;` before the next call.
abbrev then_push : Memory → Exec (Buffer × Rc) → List ℕ → Exec (Buffer × Rc)
then_push m (done (b, ok)) bytes = push m b bytes
then_push m (done (b, fail)) bytes = done (b, fail)
then_push m fault bytes = fault
then_push m spin bytes = spin

push_compressed : Memory → Buffer → List ℕ → Option (List ℕ) → Exec (Buffer × Rc)
push_compressed m b string none = done (b, fail)
push_compressed m b string (some compressed) =
    then_push m
      (then_push m (push m b (be32 (u32 (length compressed + 4)))) (be32 (u32 (length string))))
      compressed

unfoldable pub push_string : Zlib → Memory → Buffer → Compression → List ℕ → Exec (Buffer × Rc)
unfolding push_compressed
push_string z m b method_none string = then_push m (push m b (be32 (u32 (length string)))) string
push_string z m b method_zlib string =
    push_compressed m b string (compress_data z method_zlib string)

-- _strndup: the bytes before the first zero among the first `n` of the memory. The scan leaves the
-- memory if neither comes first.
unfoldable pub strndup : List ℕ → ℕ → Exec (List ℕ)
strndup memory zero = done []
strndup [] (suc n) = fault
strndup (c ∷ memory) (suc n) =
    let rest = strndup memory n >>= λ s. done (c ∷ s) in if c == 0 then done [] else rest

-- (int) of an unsigned number below 2 ^ 32.
abbrev pub to_int : ℕ → ℤ
to_int n = if ltb n (2 ^ 31) then pos n else negsuc (2 ^ 32 - n - 1)

-- What one round of the loop finds: too few bytes (`break`), a payload that does not uncompress
-- (`goto bail`), or a text and the length of the frame.
pub data Frame : Type 0 where
  incomplete : Frame
  undecodable : Frame
  message : List ℕ → ℕ → Frame

-- `end - ptr < (int32_t) expected`
unfoldable pub is_short : ℕ → ℕ → Bool
is_short available expected = ltb expected (2 ^ 31) && ltb available expected

-- The text in the destination of uncompress, if its length is the one announced.
unpacked : ℕ → ℕ → Option (List ℕ) → Exec Frame
unpacked expected uncompressed none = done undecodable
unpacked expected uncompressed (some text) =
    if length text == uncompressed
    then (strndup text uncompressed >>= λ string. done (message string expected))
    else done undecodable

-- `(int) (expected - sizeof(uncompressed))`, and a source that lies in the memory.
unpack : Zlib → List ℕ → ℕ → ℕ → Exec Frame
unfolding unpacked
unpack z memory expected uncompressed =
    let srclen = to_int (u32 (expected + 2 ^ 32 - 4)) in
    let source = drop 4 memory in
    if ltb 4 expected && (ltb expected (2 ^ 31 + 4) && ltb (length source) (expected - 4))
    then fault
    else unpacked expected uncompressed
        (uncompress_data z method_zlib (to_int uncompressed) srclen (take (expected - 4) source))

-- `memory` is the block behind the length, and `available` counts its bytes in use.
unfoldable pub read_payload : Zlib → Compression → List ℕ → ℕ → Exec Frame
unfolding unpack
read_payload z method_none memory expected =
    strndup memory expected >>= λ string. done (message string expected)
read_payload z method_zlib memory expected =
    read32 memory >>= λ uncompressed. unpack z memory expected uncompressed

pub read_expected : Zlib → Compression → List ℕ → ℕ → ℕ → Exec Frame
unfolding is_short read_payload
read_expected z c memory available expected =
    if is_short available expected then done incomplete else read_payload z c memory expected

-- One round, up to the call of server_handle_method.
unfoldable pub next_frame : Zlib → Compression → Buffer → Exec Frame
unfolding read_expected
next_frame z c b =
    if ltb b.length 4
    then done incomplete
    else read32 b.block >>= λ expected. read_expected z c (drop 4 b.block) (b.length - 4) expected
