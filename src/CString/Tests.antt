-- ===== src/CString/Tests.antt =====
-- The string theorems at small strings.
use synapse_kernel.Prelude.{ℕ, ◌≡◌, refl, some, List, [], ◌∷◌, arith, pos}
use synapse_kernel.CString.{strnlen, strncpy, tonumericdigit}
use synapse_kernel.CString.Copy.{NonZero, strncpy_lem}

-- "ab", "AB" and "abc"
abbrev ab : List ℕ
ab = 97 ∷ 98 ∷ []

abbrev upper_ab : List ℕ
upper_ab = 65 ∷ 66 ∷ []

abbrev abc : List ℕ
abc = 97 ∷ 98 ∷ 99 ∷ []

ab-NonZero : NonZero ab
ab-NonZero = omega arith

upper_ab-NonZero : NonZero upper_ab
upper_ab-NonZero = omega arith

abc-NonZero : NonZero abc
abc-NonZero = omega arith

strnlen_stops : strnlen abc 2 ≡ some 2
unfolding strnlen
strnlen_stops = refl

digit_seven : tonumericdigit 55 ≡ pos 7
unfolding tonumericdigit
digit_seven = refl

-- Three bytes of room: the terminator is not stored.
strncpy_lem_example :
    strncpy (1 ∷ 2 ∷ 3 ∷ 4 ∷ []) (97 ∷ 98 ∷ 99 ∷ 0 ∷ []) 3 ≡ some (97 ∷ 98 ∷ 99 ∷ 4 ∷ [])
strncpy_lem_example = strncpy_lem (1 ∷ 2 ∷ 3 ∷ 4 ∷ []) abc [] 3 abc-NonZero (omega arith)
