-- ===== src/Frame/Bytes.antt =====
-- The four bytes of a length, and the scan for the zero that ends a C string.
use mbus.Base.{
  ℕ, zero, suc, ◌^◌, ◌≤◌, ◌<◌, ◌≡◌, ◌≢◌, refl, ap, List, [], ◌∷◌, ◌++◌, length, All, done, fault,
  arith,
}
use native.Mathlib.Decide.{ℕ_discrete}
use mbus.Frame.{be32, read32, strndup}

pub read32-be32 : (n : ℕ) (rest : List ℕ) → n < 2 ^ 32 → read32 (be32 n ++ rest) ≡ done n
unfolding read32 be32
read32-be32 n rest h = ap done (omega arith)

pub length-be32 : (n : ℕ) → length (be32 n) ≡ 4
unfolding be32
length-be32 n = refl

-- The bytes of a C string: none is zero.
abbrev pub IsText : List ℕ → Type 0
IsText = All (λ c. c ≢ 0)

-- The scan returns a text that fills the `n` bytes asked for, whatever follows it.
pub strndup-append :
    (s rest : List ℕ) (n : ℕ) → IsText s → n ≡ length s → strndup (s ++ rest) n ≡ done s
unfolding strndup
strndup-append [] [] zero t e = refl
strndup-append [] (x ∷ rest) zero t e = refl
strndup-append [] rest (suc n) t e = absurd (omega arith)
strndup-append (c ∷ s) rest zero t e = absurd (omega arith)
strndup-append (c ∷ s) rest (suc n) t e =
    ground (arith, t.0, strndup-append s rest n t.1 (omega arith))

-- Asked for bytes that the memory has, the scan stays inside it.
pub strndup-inside :
    (memory : List ℕ) (n : ℕ)
    → n ≤ length memory
    → (s : List ℕ) × (strndup memory n ≡ done s) × (length s ≤ n)
unfolding strndup
strndup-inside [] zero h = ([], refl, omega arith)
strndup-inside (c ∷ memory) zero h = ([], refl, omega arith)
strndup-inside [] (suc n) h = elim h [ ]
strndup-inside (c ∷ memory) (suc n) h = elim (ℕ_discrete c 0) [
  | yes z ↦ ([], ground arith, omega arith)
  | no nz ↦
      let (s, e, l) = strndup-inside memory n (omega arith) in
      (c ∷ s, ground (arith, e), omega arith)
]

-- Asked for more than the memory has, the scan leaves it, if no byte there is zero.
pub strndup-outside :
    (memory : List ℕ) (n : ℕ) → IsText memory → length memory < n → strndup memory n ≡ fault
unfolding strndup
strndup-outside memory zero t h = elim h [ ]
strndup-outside [] (suc n) t h = refl
strndup-outside (c ∷ memory) (suc n) t h =
    ground (arith, t.0, strndup-outside memory n t.1 (omega arith))
