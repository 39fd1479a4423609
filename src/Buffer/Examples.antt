-- ===== src/Buffer/Examples.antt =====
-- The theorems about the buffer at concrete inputs, and runs.
use mbus.Base.{
  zero, ◌-◌, ◌^◌, ◌<◌, ◌≤◌, ◌≡◌, ◌⊎◌, refl, true, false, [], ◌∷◌, replicate, length-replicate, done,
  fault, spin, ok, fail, arith,
}
use mbus.Buffer.{
  Buffer, Memory, create, reserve, push, shift, grow, grow_fuel, reallocate, write, push_reserved,
  contents, IsValid,
}
use mbus.Buffer.Laws.{
  Reserved, reserve_lem, push-contents, push_wraps, push_after_failure, push_spins, shift-contents,
}

-- Memory that is there, filled with zeros, and memory that is not.
abbrev plenty : Memory
plenty = record {
  realloc_succeeds = λ n. true;
  malloc_succeeds = λ n. true;
  junk = λ n. replicate n 0;
  length_junk = λ n. length-replicate n 0;
}

abbrev exhausted : Memory
exhausted = record {
  realloc_succeeds = λ n. false;
  malloc_succeeds = λ n. false;
  junk = λ n. replicate n 0;
  length_junk = λ n. length-replicate n 0;
}

create-IsValid : IsValid create
unfolding create
create-IsValid = omega arith

-- Three bytes in use in a block of one chunk.
abbrev three : Buffer
three = record { length = 3; size = 4096; block = 1 ∷ 2 ∷ 3 ∷ replicate 4093 0 }

three-IsValid : IsValid three
three-IsValid = record {
  within = omega arith;
  allocated = omega (arith, length-replicate 4093 zero);
  aligned = refl;
  word = omega arith;
}

-- A block that is in use to its end.
abbrev whole : Buffer
whole = record { length = 4096; size = 4096; block = replicate 4096 1 }

whole-IsValid : IsValid whole
whole-IsValid = record {
  within = omega arith;
  allocated = length-replicate 4096 1;
  aligned = refl;
  word = omega arith;
}

push_shift_run :
    (push plenty create (5 ∷ 6 ∷ 7 ∷ []))
    ≡ done (record { length = 3; size = 4096; block = 5 ∷ 6 ∷ 7 ∷ replicate 4093 0 }, ok)
unfolding push push_reserved create reserve grow grow_fuel reallocate write replicate
push_shift_run = refl

push-contents_example :
    (b' : Buffer) × (push plenty three (4 ∷ []) ≡ done (b', ok))
    × IsValid b'
    × (contents b' ≡ 1 ∷ 2 ∷ 3 ∷ 4 ∷ [])
push-contents_example = push-contents plenty three (4 ∷ []) (λ n. refl) three-IsValid (omega arith)

push_wraps_example : push plenty three (replicate (2 ^ 32 - 1) 0) ≡ fault
push_wraps_example =
    push_wraps plenty three (replicate (2 ^ 32 - 1) 0) three-IsValid
      (omega (arith, length-replicate (2 ^ 32 - 1) zero))
      (omega (arith, length-replicate (2 ^ 32 - 1) zero))

push_after_failure_example :
    (b' : Buffer) × (push exhausted whole (9 ∷ []) ≡ done (b', fail))
    × (push exhausted b' (9 ∷ []) ≡ fault)
push_after_failure_example =
    push_after_failure exhausted whole (9 ∷ []) (λ n. refl) whole-IsValid (omega arith)
      (omega arith)

shift-contents_example :
    (b' : Buffer) × IsValid b'
    × (((2 ≤ 3) × (shift three 2 ≡ done (b', ok)) × (contents b' ≡ 3 ∷ []))
        ⊎ ((3 < 2) × (shift three 2 ≡ done (b', fail)) × (b' ≡ three)))
shift-contents_example = shift-contents three 2 three-IsValid

reserve_lem_example :
    (b' : Buffer) × (reserve plenty whole 5000 ≡ done (b', ok)) × Reserved whole 5000 b'
reserve_lem_example = reserve_lem plenty whole 5000 (λ n. refl) whole-IsValid (omega arith)

push_spins_example : push plenty three (replicate (2 ^ 32 - 10) 0) ≡ spin
push_spins_example =
    push_spins plenty three (replicate (2 ^ 32 - 10) 0) three-IsValid
      (omega (arith, length-replicate (2 ^ 32 - 10) zero))
      (omega (arith, length-replicate (2 ^ 32 - 10) zero))
