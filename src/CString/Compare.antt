-- ===== src/CString/Compare.antt =====
-- The comparisons of strings and buffers, and the case of letters.
use synapse_kernel.Prelude.{
  ℕ, zero, suc, ◌≤◌, ◌<◌, ◌≡◌, refl, some, List, [], ◌∷◌, ◌++◌, arith, length, take, ◌==◌,
  if◌then◌else◌, ℤ, pos, negsuc, Bool-cases, inl, inr, ltb, ◌⊎◌,
}
use mathlib.Core.Logic.{◌↔◌}
use mathlib.Core.List.{map}
use synapse_kernel.CString.{strncmp, istrncmp, memcmp, tolower, toupper}
use synapse_kernel.CString.Copy.{NonZero}

-- strncmp of two strings with terminators returns 0 exactly when their first `n` bytes before
-- the terminator are the same.
pub strncmp-eq-zero_iff :
    (s1 s2 r1 r2 : List ℕ) (n : ℕ)
    → NonZero s1
    → NonZero s2
    → (strncmp (s1 ++ 0 ∷ r1) (s2 ++ 0 ∷ r2) n ≡ some (pos 0)) ↔ (take n s1 ≡ take n s2)
unfolding strncmp
strncmp-eq-zero_iff s1 s2 r1 r2 zero z1 z2 = ((λ e. refl), (λ e. refl))
strncmp-eq-zero_iff [] [] r1 r2 (suc n) z1 z2 = ((λ e. refl), (λ e. refl))
strncmp-eq-zero_iff [] (c ∷ s2) r1 r2 (suc n) z1 z2 = ((λ e. ground (arith, z2.0)), (λ e. cc))
strncmp-eq-zero_iff (c ∷ s1) [] r1 r2 (suc n) z1 z2 = ((λ e. ground (arith, z1.0)), (λ e. cc))
strncmp-eq-zero_iff (c ∷ s1) (d ∷ s2) r1 r2 (suc n) z1 z2 =
    let ih = strncmp-eq-zero_iff s1 s2 r1 r2 n z1.1 z2.1 in
    ((λ e. ground (arith, z1.0, ih.0)), (λ e. ground (arith, z1.0, ih.1)))

tolower-eq-zero : (c : ℕ) → tolower c ≡ 0 → c ≡ 0
unfolding tolower
tolower-eq-zero c h = ground arith

tolower-zero : tolower 0 ≡ 0
unfolding tolower
tolower-zero = refl

-- istrncmp of two strings with terminators returns 0 exactly when their first `n` bytes before
-- the terminator are the same after tolower.
pub istrncmp-eq-zero_iff :
    (s1 s2 r1 r2 : List ℕ) (n : ℕ)
    → NonZero s1
    → NonZero s2
    → (istrncmp (s1 ++ 0 ∷ r1) (s2 ++ 0 ∷ r2) n ≡ some (pos 0))
      ↔ (take n (map tolower s1) ≡ take n (map tolower s2))
unfolding istrncmp
istrncmp-eq-zero_iff s1 s2 r1 r2 zero z1 z2 = ((λ e. refl), (λ e. refl))
istrncmp-eq-zero_iff [] [] r1 r2 (suc n) z1 z2 = ((λ e. refl), (λ e. refl))
istrncmp-eq-zero_iff [] (c ∷ s2) r1 r2 (suc n) z1 z2 =
    ((λ e. ground (arith, z2.0, tolower-eq-zero c, tolower-zero)), (λ e. cc))
istrncmp-eq-zero_iff (c ∷ s1) [] r1 r2 (suc n) z1 z2 =
    ((λ e. ground (arith, z1.0, tolower-eq-zero c, tolower-zero)), (λ e. cc))
istrncmp-eq-zero_iff (c ∷ s1) (d ∷ s2) r1 r2 (suc n) z1 z2 =
    let ih = istrncmp-eq-zero_iff s1 s2 r1 r2 n z1.1 z2.1 in
    ((λ e. ground (arith, z1.0, ih.0)), (λ e. ground (arith, z1.0, ih.1)))

-- memcmp of buffers that both hold `count` bytes returns 0 exactly when these bytes are the
-- same, and never reads outside of them.
pub memcmp-eq-zero_iff :
    (s1 s2 : List ℕ) (count : ℕ)
    → count ≤ length s1
    → count ≤ length s2
    → ((r : ℤ) × (memcmp s1 s2 count ≡ some r))
      × ((memcmp s1 s2 count ≡ some (pos 0)) ↔ (take count s1 ≡ take count s2))
unfolding memcmp
memcmp-eq-zero_iff s1 s2 zero h k = ((pos 0, refl), ((λ e. refl), (λ e. refl)))
memcmp-eq-zero_iff [] s2 (suc n) h k = absurd (omega arith)
memcmp-eq-zero_iff (c ∷ s1) [] (suc n) h k = absurd (omega arith)
memcmp-eq-zero_iff (c ∷ s1) (d ∷ s2) (suc n) h k =
    let ih = memcmp-eq-zero_iff s1 s2 n (omega arith) (omega arith) in
    (
      elim (Bool-cases (c == d)) [
        | inl same ↦ rw same ih.0
        | inr other ↦ rw other (if ltb c d then negsuc 0 else pos 1, refl)
      ],
      ((λ e. ground (arith, ih.1.0)), (λ e. ground (arith, ih.1.1))),
    )

-- toupper undoes tolower on a capital letter, tolower undoes toupper on a small one, and both
-- leave every other byte as it is.
pub toupper-tolower :
    (c : ℕ)
    → (65 ≤ c → c ≤ 90 → (toupper (tolower c) ≡ c) × (97 ≤ tolower c))
      × (97 ≤ c → c ≤ 122 → tolower (toupper c) ≡ c)
      × ((c < 65) ⊎ (90 < c) → tolower c ≡ c)
      × ((c < 97) ⊎ (122 < c) → toupper c ≡ c)
unfolding toupper tolower
toupper-tolower c =
    ((λ lo hi. ground arith), (λ lo hi. ground arith), (λ h. ground arith), (λ h. ground arith))
