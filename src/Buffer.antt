-- ===== src/Buffer.antt =====
-- src/buffer/buffer.c: a growable byte buffer, `struct mbus_buffer`.
--
-- `block` is the allocated memory, all of it, as a list of bytes; `length` and `size` are the
-- fields of type `unsigned int`, whose arithmetic wraps at 2 ^ 32. The allocator is the parameter
-- `Memory`. `spin` stands for a growth loop that never ends.
pub mod Growth
pub mod Laws
mod Examples
use mbus.Base.{
  ℕ, zero, suc, ◌+◌, ◌-◌, ◌%◌, ◌^◌, ◌≤◌, ◌<◌, ◌≡◌, Bool, true, false, List, [], ◌∷◌, ◌++◌, length,
  take, drop, leb, ltb, ◌==◌, if◌then◌else◌, Exec, done, fault, spin, ◌>>=◌, Rc, ok, fail,
}

pub record Buffer : Type 0 where
  pub length : ℕ
  pub size : ℕ
  pub block : List ℕ

-- What malloc and realloc do at each size, and what new memory holds.
pub record Memory : Type 0 where
  pub realloc_succeeds : ℕ → Bool
  pub malloc_succeeds : ℕ → Bool
  pub junk : ℕ → List ℕ
  pub length_junk : (n : ℕ) → length (junk n) ≡ n

abbrev pub u32 : ℕ → ℕ
u32 n = n % 2 ^ 32

unfoldable pub create : Buffer
create = record { length = 0; size = 0; block = [] }

unfoldable pub reset : Buffer → Buffer
reset b = record b { length = 0 }

unfoldable pub set_length : Buffer → ℕ → Buffer × Rc
set_length b n = if ltb b.size n then (b, fail) else (record b { length = n }, ok)

-- `while (buffer->size < length) buffer->size += 4096;`
unfoldable pub grow : ℕ → ℕ → ℕ → Exec ℕ
grow zero size n = spin
grow (suc fuel) size n = elim (ltb size n) [
  | true ↦ grow fuel (u32 (size + 4096)) n
  | false ↦ done size
]

-- Within 2 ^ 20 rounds every value of `size` that the loop can reach has come up.
unfoldable pub grow_fuel : ℕ
grow_fuel = 2 ^ 20 + 1

-- realloc, and where it fails malloc and a copy of the `length` bytes in use.
unfoldable pub reallocate : Memory → Buffer → ℕ → Buffer × Rc
reallocate m b size =
    if m.realloc_succeeds size
    then (record b { size = size; block = b.block ++ m.junk (size - length b.block) }, ok)
    else if m.malloc_succeeds size
    then (record b { size = size; block = take b.length b.block ++ m.junk (size - b.length) }, ok)
    else (record b { size = size }, fail)

unfoldable pub reserve : Memory → Buffer → ℕ → Exec (Buffer × Rc)
reserve m b n =
    if leb n b.size
    then done (b, ok)
    else grow grow_fuel b.size n >>= λ size. done (reallocate m b size)

-- memcpy and memmove to an offset of a block.
unfoldable pub write : List ℕ → ℕ → List ℕ → Exec (List ℕ)
write block offset bytes =
    if leb (offset + length bytes) (length block)
    then done (take offset block ++ (bytes ++ drop (offset + length bytes) block))
    else fault

push_reserved : Buffer × Rc → List ℕ → Exec (Buffer × Rc)
push_reserved (b, fail) bytes = done (b, fail)
push_reserved (b, ok) bytes = write b.block b.length bytes >>= λ block.
    done (record b { block = block; length = u32 (b.length + length bytes) }, ok)

unfoldable pub push : Memory → Buffer → List ℕ → Exec (Buffer × Rc)
unfolding push_reserved
push m b bytes =
    reserve m b (u32 (b.length + length bytes)) >>= λ reserved. push_reserved reserved bytes

unfoldable pub shift : Buffer → ℕ → Exec (Buffer × Rc)
shift b n =
    if n == 0
    then done (b, ok)
    else if ltb b.length n
    then done (b, fail)
    else write b.block 0 (take (b.length - n) (drop n b.block)) >>= λ block.
        done (record b { block = block; length = b.length - n }, ok)

-- The bytes in use.
abbrev pub contents : Buffer → List ℕ
contents b = take b.length b.block

pub record IsValid (b : Buffer) : Type 0 where
  pub within : b.length ≤ b.size
  pub allocated : length b.block ≡ b.size
  pub aligned : b.size % 4096 ≡ 0
  pub word : b.size < 2 ^ 32
