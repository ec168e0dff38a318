-- ===== src/CString/Copy.antt =====
-- Lengths and copies of strings and buffers.
use synapse_kernel.Prelude.{
  ℕ, zero, suc, ◌+◌, ◌-◌, ◌%◌, ◌≤◌, ◌<◌, ◌≡◌, ◌≢◌, refl, none, some, List, [], ◌∷◌, ◌++◌, arith,
  length, take, drop, replicate, All, ==_ne,
}
use synapse_kernel.CString.{strlen, strlen_from, strcpy, strncpy, strncpy_pad, memset, memcpy}

-- The bytes of a string before its terminator.
abbrev pub NonZero : List ℕ → Type 0
NonZero s = All (λ c. c ≢ 0) s

strlen_from-length :
    (s rest : List ℕ) (i : ℕ) → NonZero s → strlen_from (s ++ 0 ∷ rest) i ≡ some (i + length s)
unfolding strlen_from
strlen_from-length [] rest i nz = ground arith
strlen_from-length (c ∷ s) rest i nz =
    rw (==_ne c 0 nz.0) (ground (arith, strlen_from-length s rest (i + 1) nz.1))

-- strlen of a string with terminator is the number of the bytes before the terminator, whatever
-- stands behind it.
pub strlen-length : (s rest : List ℕ) → NonZero s → strlen (s ++ 0 ∷ rest) ≡ some (length s)
unfolding strlen
strlen-length s rest nz = ground (arith, strlen_from-length s rest 0 nz)

-- strcpy of a string into a buffer with room for it and its terminator stores both, and leaves
-- the rest of the buffer as it was.
pub strcpy_lem :
    (dest s rest : List ℕ)
    → NonZero s
    → length s < length dest
    → strcpy dest (s ++ 0 ∷ rest) ≡ some (s ++ 0 ∷ drop (suc (length s)) dest)
unfolding strcpy
strcpy_lem [] s rest nz h = absurd (omega arith)
strcpy_lem (d ∷ dest) [] rest nz h = refl
strcpy_lem (d ∷ dest) (c ∷ s) rest nz h =
    rw (==_ne c 0 nz.0) (rw (strcpy_lem dest s rest nz.1 (omega arith)))

-- strcpy into a buffer with no room for the terminator writes outside of the buffer.
pub strcpy-none :
    (dest s rest : List ℕ) → NonZero s → length dest ≤ length s → strcpy dest (s ++ 0 ∷ rest) ≡ none
unfolding strcpy
strcpy-none [] [] rest nz h = refl
strcpy-none [] (c ∷ s) rest nz h = refl
strcpy-none (d ∷ dest) [] rest nz h = absurd (omega arith)
strcpy-none (d ∷ dest) (c ∷ s) rest nz h =
    rw (==_ne c 0 nz.0) (rw (strcpy-none dest s rest nz.1 (omega arith)))

pad :
    (dest : List ℕ) (k : ℕ)
    → k ≤ length dest
    → strncpy_pad dest k ≡ some (replicate k 0 ++ drop k dest)
unfolding strncpy_pad
pad dest zero h = refl
pad [] (suc k) h = absurd (omega arith)
pad (d ∷ dest) (suc k) h = rw (pad dest k (omega arith))

-- strncpy of a string into a buffer of at least `count` bytes: a string shorter than `count` is
-- stored with zeros up to `count`; of a longer one, or one of `count` bytes, the first `count`
-- bytes are stored, with no terminator. What stands behind `count` stays.
pub strncpy_lem :
    (dest s rest : List ℕ) (count : ℕ)
    → NonZero s
    → count ≤ length dest
    → strncpy dest (s ++ 0 ∷ rest) count
      ≡ some (take count s ++ replicate (count - length s) 0 ++ drop count dest)
unfolding strncpy
strncpy_lem dest s rest zero nz h = let e : 0 - length s ≡ 0 = omega arith in rw e
strncpy_lem [] s rest (suc k) nz h = absurd (omega arith)
strncpy_lem (d ∷ dest) [] rest (suc k) nz h =
    let e : suc k - 0 ≡ suc k = omega arith in rw e (rw (pad dest k (omega arith)))
strncpy_lem (d ∷ dest) (c ∷ s) rest (suc k) nz h =
    let e : suc k - suc (length s) ≡ k - length s = omega arith in
    rw e (rw (==_ne c 0 nz.0) (rw (strncpy_lem dest s rest k nz.1 (omega arith))))

-- memset stores the low byte of `c` in the first `n` bytes of a buffer of at least `n` bytes.
pub memset_lem :
    (ptr : List ℕ) (c n : ℕ)
    → n ≤ length ptr
    → memset ptr c n ≡ some (replicate n (c % 256) ++ drop n ptr)
unfolding memset
memset_lem ptr c zero h = refl
memset_lem [] c (suc n) h = absurd (omega arith)
memset_lem (p ∷ ptr) c (suc n) h = rw (memset_lem ptr c n (omega arith))

-- memcpy stores the first `len` bytes of the source in the first `len` bytes of the target, when
-- both have as many.
pub memcpy_lem :
    (dest src : List ℕ) (len : ℕ)
    → len ≤ length dest
    → len ≤ length src
    → memcpy dest src len ≡ some (take len src ++ drop len dest)
unfolding memcpy
memcpy_lem dest src zero h k = refl
memcpy_lem dest [] (suc len) h k = absurd (omega arith)
memcpy_lem [] (c ∷ src) (suc len) h k = absurd (omega arith)
memcpy_lem (d ∷ dest) (c ∷ src) (suc len) h k =
    rw (memcpy_lem dest src len (omega arith) (omega arith))
