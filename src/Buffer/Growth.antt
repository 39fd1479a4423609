-- ===== src/Buffer/Growth.antt =====
-- The growth loop of mbus_buffer_reserve, and the memory that it leaves.
use mbus.Base.{
  ℕ, zero, suc, ◌+◌, ◌-◌, ◌*◌, ◌%◌, ◌^◌, ◌≤◌, ◌<◌, ◌≡◌, ◌∙◌, refl, ap, true, ◌||◌, inl, inr, ◌⊎◌,
  length, length-append, take, length-take, take-append, take-append_exact, ltb, Bool-cases, done,
  spin, ok, arith,
}
use mbus.Buffer.{Buffer, Memory, u32, grow, reallocate, contents, IsValid}

-- What the loop ends with: the smallest multiple of the chunk that holds `n`.
abbrev pub Grown : ℕ → ℕ → ℕ → Type 0
Grown size n s =
    (n ≤ s) × (size ≤ s) × (s % 4096 ≡ 0) × (s < 2 ^ 32) × ((s ≡ size) ⊎ (s < n + 4096))

grow_more :
    (fuel size n : ℕ)
    → size < n
    → n ≤ 2 ^ 32 - 4096
    → grow (suc fuel) size n ≡ grow fuel (size + 4096) n
unfolding grow
grow_more fuel size n h fits = ground (arith, ap (λ (t : ℕ). grow fuel t n) next)
  where
    next : u32 (size + 4096) ≡ size + 4096
    next = omega arith

pub grow_ends :
    (fuel size n : ℕ)
    → size % 4096 ≡ 0
    → size < 2 ^ 32
    → n ≤ 2 ^ 32 - 4096
    → n ≤ size + 4096 * fuel
    → (s : ℕ) × (grow (suc fuel) size n ≡ done s) × Grown size n s
unfolding grow
grow_ends zero size n al w h f = (size, ground arith, omega arith)
grow_ends (suc fuel) size n al w h f = elim (Bool-cases (ltb size n)) [
  | inl more ↦
      let below : size < n = ground arith in
      let (s, e, g) = grow_ends fuel (size + 4096) n (omega arith) (omega arith) h (omega arith) in
      (s, grow_more (suc fuel) size n below h ∙ e, omega arith)
  | inr enough ↦ (size, ground arith, ground arith)
]

-- Above the last multiple of the chunk that fits a word, the loop never ends.
pub grow_spins :
    (fuel size n : ℕ)
    → size % 4096 ≡ 0
    → size < 2 ^ 32
    → 2 ^ 32 - 4096 < n
    → grow fuel size n ≡ spin
unfolding grow
grow_spins zero size n al w h = refl
grow_spins (suc fuel) size n al w h = ground (arith, grow_spins fuel (u32 (size + 4096)) n)

-- The allocator yields a block of the size asked for, and the bytes in use stay.
pub reallocate_lem :
    (m : Memory) (b : Buffer) (size : ℕ)
    → IsValid b
    → b.size ≤ size
    → size % 4096 ≡ 0
    → size < 2 ^ 32
    → ((m.realloc_succeeds size || m.malloc_succeeds size) ≡ true)
    → let r = reallocate m b size in
      IsValid r.0
      × (r.0.size ≡ size)
      × (r.0.length ≡ b.length)
      × (contents r.0 ≡ contents b)
      × (r.1 ≡ ok)
unfolding reallocate
reallocate_lem m b size v le al w can = ground (
  arith,
  v,
  length-append b.block (m.junk (size - length b.block)),
  length-append (take b.length b.block) (m.junk (size - b.length)),
  length-take b.length b.block,
  m.length_junk (size - length b.block),
  m.length_junk (size - b.length),
  take-append b.length b.block (m.junk (size - length b.block)),
  take-append_exact (take b.length b.block) (m.junk (size - b.length)) b.length,
)
