-- ===== src/Buffer/Laws.antt =====
-- mbus_buffer_push and mbus_buffer_shift as operations on the bytes in use.
use mbus.Base.{
  ℕ, zero, suc, ◌+◌, ◌-◌, ◌^◌, ◌≤◌, ◌<◌, ◌≡◌, ◌∙◌, refl, ap, sym, true, false, ◌||◌, inl, inr, List,
  [], ◌∷◌, ◌++◌, ◌⊎◌, append_assoc, length, length-append, take, drop, length-take, length-drop,
  take-append_exact, leb, Bool-cases, done, fault, spin, ok, fail, arith,
}
use mbus.Buffer.{
  Buffer, Memory, u32, grow, grow_fuel, reallocate, reserve, write, push_reserved, push, shift,
  contents, IsValid,
}
use mbus.Buffer.Growth.{Grown, grow_ends, grow_spins, reallocate_lem}

pub length-contents : (b : Buffer) → IsValid b → length (contents b) ≡ b.length
length-contents b v = length-take b.length b.block (omega (arith, v))

-- The allocator never runs out.
abbrev pub Available : Memory → Type 0
Available m = (size : ℕ) → (m.realloc_succeeds size || m.malloc_succeeds size) ≡ true

-- A reserved buffer has the room asked for and the bytes that it had.
pub record Reserved (b : Buffer) (n : ℕ) (b' : Buffer) : Type 0 where
  pub valid : IsValid b'
  pub room : n ≤ b'.size
  pub kept_length : b'.length ≡ b.length
  pub kept : contents b' ≡ contents b

grow_fuel_ends :
    (b : Buffer) (n : ℕ)
    → IsValid b
    → n ≤ 2 ^ 32 - 4096
    → (s : ℕ) × (grow grow_fuel b.size n ≡ done s) × Grown b.size n s
unfolding grow_fuel
grow_fuel_ends b n v h = grow_ends (2 ^ 20) b.size n v.aligned v.word h (omega arith)

reserve_full :
    (m : Memory) (b : Buffer) (n s : ℕ)
    → b.size < n
    → grow grow_fuel b.size n ≡ done s
    → reserve m b n ≡ done (reallocate m b s)
unfolding reserve
reserve_full m b n s full e = ground (arith, e)

reserve_grown :
    (m : Memory) (b : Buffer) (n : ℕ)
    → Available m
    → IsValid b
    → n ≤ 2 ^ 32 - 4096
    → b.size < n
    → (b' : Buffer) × (reserve m b n ≡ done (b', ok)) × Reserved b n b'
reserve_grown m b n can v h full =
    let (s, e, g) = grow_fuel_ends b n v h in
    let r = reallocate_lem m b s v g.1 g.2 g.3 (can s) in
    (
      (reallocate m b s).0,
      ground (arith, reserve_full m b n s full e, r),
      record { valid = r.0; room = omega arith; kept_length = r.2; kept = r.3 },
    )

-- A reservation of a well-formed buffer, below the last chunk of a 32-bit size, ends and
-- succeeds where memory is available: the room is there, the bytes in use are kept, and the
-- buffer is well formed.
pub reserve_lem :
    (m : Memory) (b : Buffer) (n : ℕ)
    → Available m
    → IsValid b
    → n ≤ 2 ^ 32 - 4096
    → (b' : Buffer) × (reserve m b n ≡ done (b', ok)) × Reserved b n b'
reserve_lem m b n can v h = elim (Bool-cases (leb n b.size)) [
  | inl fits ↦ (b, unfold reserve in rw fits, ground arith)
  | inr full ↦ reserve_grown m b n can v h (ground arith)
]

-- What a write leaves, where it fits.
write_lem :
    (block : List ℕ) (offset : ℕ) (bytes : List ℕ)
    → offset + length bytes ≤ length block
    → (block' : List ℕ) × (write block offset bytes ≡ done block')
      × (length block' ≡ length block)
      × (take (offset + length bytes) block' ≡ take offset block ++ bytes)
unfolding write
write_lem block offset bytes h = (
  take offset block ++ (bytes ++ drop (offset + length bytes) block),
  ground arith,
  omega (
    arith,
    length-append (take offset block) (bytes ++ drop (offset + length bytes) block),
    length-append bytes (drop (offset + length bytes) block),
    length-take offset block,
    length-drop (offset + length bytes) block,
  ),
  rw (← append_assoc) (
      take-append_exact (take offset block ++ bytes) _ _
        (omega (arith, length-append (take offset block) bytes, length-take offset block))),
)

-- A push to a well-formed buffer succeeds, appends the bytes and keeps the buffer well formed,
-- if memory is available and the sum of the lengths stays below the last chunk of a 32-bit size.
pub push-contents :
    (m : Memory) (b : Buffer) (bytes : List ℕ)
    → Available m
    → IsValid b
    → b.length + length bytes ≤ 2 ^ 32 - 4096
    → (b' : Buffer) × (push m b bytes ≡ done (b', ok))
      × IsValid b'
      × (contents b' ≡ contents b ++ bytes)
push-contents m b bytes can v h =
    let fits : u32 (b.length + length bytes) ≡ b.length + length bytes = omega arith in
    let (r, e, reserved) = reserve_lem m b (b.length + length bytes) can v h in
    let room : r.length + length bytes ≤ length r.block = omega (arith, reserved) in
    let (block, written, size, bytes') = write_lem r.block r.length bytes room in
    (
      record r { block = block; length = u32 (r.length + length bytes) },
      unfold push push_reserved in ground (arith, fits, e, written),
      record {
        within = omega (arith, reserved);
        allocated = size ∙ reserved.valid.allocated;
        aligned = reserved.valid.aligned;
        word = reserved.valid.word;
      },
      ground (arith, bytes', reserved, fits),
    )

-- Where the sum of the lengths does not fit 32 bits, the push of fewer than 2 ^ 32 bytes to a
-- well-formed buffer writes past the end of the block.
pub push_wraps :
    (m : Memory) (b : Buffer) (bytes : List ℕ)
    → IsValid b
    → length bytes < 2 ^ 32
    → 2 ^ 32 ≤ b.length + length bytes
    → push m b bytes ≡ fault
unfolding push reserve write
push_wraps m b bytes v h w = ground arith

take-nil : (k : ℕ) → ◌≡◌ {A = List ℕ} (take k []) []
take-nil zero = refl
take-nil (suc k) = refl

drop-take : (n l : ℕ) (xs : List ℕ) → n ≤ l → drop n (take l xs) ≡ take (l - n) (drop n xs)
drop-take zero l xs h = ap (λ (k : ℕ). take k xs) (omega arith)
drop-take (suc n) zero xs h = elim h [ ]
drop-take (suc n) (suc l) [] h = sym (take-nil (suc l - suc n))
drop-take (suc n) (suc l) (x ∷ xs) h =
    drop-take n l xs (omega arith) ∙ ap (λ (k : ℕ). take k (drop n xs)) (omega arith)

abbrev Shifted : Buffer → ℕ → Buffer → Type 0
Shifted b n b' = IsValid b' × (shift b n ≡ done (b', ok)) × (contents b' ≡ drop n (contents b))

shift_lem : (b : Buffer) (n : ℕ) → IsValid b → n ≤ b.length → (b' : Buffer) × Shifted b n b'
shift_lem b zero v h = (b, (v, unfold shift in refl, refl))
shift_lem b (suc k) v h =
    let n = suc k in
    let moved : List ℕ = take (b.length - n) (drop n b.block) in
    let size : length moved ≡ b.length - n =
      length-take (b.length - n) (drop n b.block) (omega (arith, length-drop n b.block, v)) in
    let (block, written, same, front) = write_lem b.block 0 moved (omega (arith, v, size)) in
    (
      record b { block = block; length = b.length - n },
      (
        record {
          within = omega (arith, v);
          allocated = same ∙ v.allocated;
          aligned = v.aligned;
          word = v.word;
        },
        unfold shift in ground (arith, written),
        ap (λ (l : ℕ). take l block) (omega (arith, size))
            ∙ front
            ∙ sym (drop-take n b.length b.block h),
      ),
    )

-- A shift of a well-formed buffer drops that many bytes from the front, or fails and changes
-- nothing where there are fewer; the buffer stays well formed.
pub shift-contents :
    (b : Buffer) (n : ℕ)
    → IsValid b
    → (b' : Buffer) × IsValid b'
      × (((n ≤ b.length) × (shift b n ≡ done (b', ok)) × (contents b' ≡ drop n (contents b)))
          ⊎ ((b.length < n) × (shift b n ≡ done (b', fail)) × (b' ≡ b)))
shift-contents b n v = elim (Bool-cases (leb n b.length)) [
  | inl enough ↦
      let (b', s) = shift_lem b n v (ground arith) in (b', s.0, inl (ground arith, s.1, s.2))
  | inr short ↦ (b, v, inr (ground arith, unfold shift in ground arith, refl))
]

-- The growth that an allocation fails leaves `size` raised over the old block.
reserve_fails :
    (m : Memory) (b : Buffer) (n : ℕ)
    → ((size : ℕ) → (m.realloc_succeeds size || m.malloc_succeeds size) ≡ false)
    → IsValid b
    → n ≤ 2 ^ 32 - 4096
    → b.size < n
    → (s : ℕ) × (reserve m b n ≡ done (record b { size = s }, fail)) × (n ≤ s)
reserve_fails m b n none_left v h full =
    let (s, e, g) = grow_fuel_ends b n v h in
    (s, reserve_full m b n s full e ∙ unfold reallocate in ground (arith, none_left s), g.0)

-- If no allocation succeeds, a push to a well-formed buffer that needs to grow, to a sum of
-- lengths below the last chunk of a 32-bit size, fails, and the same push made again writes past
-- the block.
pub push_after_failure :
    (m : Memory) (b : Buffer) (bytes : List ℕ)
    → ((size : ℕ) → (m.realloc_succeeds size || m.malloc_succeeds size) ≡ false)
    → IsValid b
    → b.length + length bytes ≤ 2 ^ 32 - 4096
    → b.size < b.length + length bytes
    → (b' : Buffer) × (push m b bytes ≡ done (b', fail)) × (push m b' bytes ≡ fault)
push_after_failure m b bytes none_left v h full =
    let n = b.length + length bytes in
    let fits : u32 n ≡ n = omega arith in
    let (s, e, g) = reserve_fails m b n none_left v h full in
    (
      record b { size = s },
      unfold push push_reserved in ground (arith, fits, e),
      unfold push push_reserved reserve write in ground (arith, fits, g, v),
    )

-- A push to a well-formed buffer never returns if the sum of the lengths is above the last chunk
-- of a 32-bit size and fits 32 bits.
pub push_spins :
    (m : Memory) (b : Buffer) (bytes : List ℕ)
    → IsValid b
    → 2 ^ 32 - 4096 < b.length + length bytes
    → b.length + length bytes < 2 ^ 32
    → push m b bytes ≡ spin
unfolding push reserve
push_spins m b bytes v lo hi =
    ground (arith, v, grow_spins grow_fuel b.size (u32 (b.length + length bytes)) v.aligned v.word)
