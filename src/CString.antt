-- ===== src/CString.antt =====
-- core/string/string.c and core/memory/memory.c over buffers.
-- A pointer is the list of the bytes from it to the end of its buffer; `none` is an access outside
-- of a buffer. `char` is unsigned, as on AArch64. A count is not negative.
pub mod Copy
pub mod Compare
mod Tests
use synapse_kernel.Prelude.{
  ℕ, zero, suc, ◌+◌, ◌-◌, ◌%◌, Option, none, some, Bool, true, false, ◌&&◌, ◌||◌, not, List, [],
  ◌∷◌, leb, ltb, ◌==◌, if◌then◌else◌, ℤ, pos, negsuc, sub_ℕ,
}
use mathlib.Core.Option

unfoldable pub tolower : ℕ → ℕ
tolower c = if leb 65 c && leb c 90 then c + 32 else c

unfoldable pub toupper : ℕ → ℕ
toupper c = if leb 97 c && leb c 122 then c - 32 else c

-- The loop of strlen, with `i`.
unfoldable pub strlen_from : List ℕ → ℕ → Option ℕ
strlen_from [] i = none
strlen_from (c ∷ str) i = let rest = strlen_from str (i + 1) in if c == 0 then some i else rest

unfoldable pub strlen : List ℕ → Option ℕ
unfolding strlen_from
strlen str = strlen_from str 0

-- The loop of strnlen_terminator, with the rounds left and `i`.
unfoldable pub strnlen_from : List ℕ → ℕ → ℕ → ℕ → Option ℕ
strnlen_from str zero terminator i = some i
strnlen_from [] (suc k) terminator i = none
strnlen_from (c ∷ str) (suc k) terminator i =
    let rest = strnlen_from str k terminator (i + 1) in
    if c == 0 || c == terminator then some i else rest

unfoldable pub strnlen : List ℕ → ℕ → Option ℕ
unfolding strnlen_from
strnlen str max = strnlen_from str max 0 0

unfoldable pub strnlen_terminator : List ℕ → ℕ → ℕ → Option ℕ
unfolding strnlen_from
strnlen_terminator str max terminator = strnlen_from str max terminator 0

unfoldable pub istrncmp : List ℕ → List ℕ → ℕ → Option ℤ
istrncmp s1 s2 zero = some (pos 0)
istrncmp [] s2 (suc n) = none
istrncmp (u1 ∷ s1) [] (suc n) = none
istrncmp (u1 ∷ s1) (u2 ∷ s2) (suc n) =
    let rest = istrncmp s1 s2 n in
    if not (u1 == u2) && not (tolower u1 == tolower u2)
    then some (sub_ℕ u1 u2)
    else if u1 == 0
    then some (pos 0)
    else rest

unfoldable pub strncmp : List ℕ → List ℕ → ℕ → Option ℤ
strncmp str1 str2 zero = some (pos 0)
strncmp [] str2 (suc n) = none
strncmp (u1 ∷ str1) [] (suc n) = none
strncmp (u1 ∷ str1) (u2 ∷ str2) (suc n) =
    let rest = strncmp str1 str2 n in
    if not (u1 == u2) then some (sub_ℕ u1 u2) else if u1 == 0 then some (pos 0) else rest

-- The buffer at `dest` after the copy.
unfoldable pub strcpy : List ℕ → List ℕ → Option (List ℕ)
strcpy dest [] = none
strcpy [] (c ∷ src) = none
strcpy (d ∷ dest) (c ∷ src) =
    let rest = Option.map (λ r. c ∷ r) (strcpy dest src) in if c == 0 then some (0 ∷ dest) else rest

-- The second loop of strncpy.
unfoldable pub strncpy_pad : List ℕ → ℕ → Option (List ℕ)
strncpy_pad dest zero = some dest
strncpy_pad [] (suc k) = none
strncpy_pad (d ∷ dest) (suc k) = Option.map (λ r. 0 ∷ r) (strncpy_pad dest k)

unfoldable pub strncpy : List ℕ → List ℕ → ℕ → Option (List ℕ)
unfolding strncpy_pad
strncpy dest src zero = some dest
strncpy dest [] (suc k) = none
strncpy [] (c ∷ src) (suc k) = none
strncpy (d ∷ dest) (c ∷ src) (suc k) =
    let rest = Option.map (λ r. c ∷ r) (strncpy dest src k) in
    if c == 0 then strncpy_pad (d ∷ dest) (suc k) else rest

unfoldable pub isdigit : ℕ → Bool
isdigit c = leb 48 c && leb c 57

unfoldable pub tonumericdigit : ℕ → ℤ
tonumericdigit c = sub_ℕ c 48

unfoldable pub memset : List ℕ → ℕ → ℕ → Option (List ℕ)
memset ptr c zero = some ptr
memset [] c (suc n) = none
memset (p ∷ ptr) c (suc n) = Option.map (λ r. (c % 256) ∷ r) (memset ptr c n)

unfoldable pub memcmp : List ℕ → List ℕ → ℕ → Option ℤ
memcmp s1 s2 zero = some (pos 0)
memcmp [] s2 (suc count) = none
memcmp (c1 ∷ s1) [] (suc count) = none
memcmp (c1 ∷ s1) (c2 ∷ s2) (suc count) =
    let rest = memcmp s1 s2 count in
    if not (c1 == c2) then some (if ltb c1 c2 then negsuc 0 else pos 1) else rest

-- For buffers that do not overlap.
unfoldable pub memcpy : List ℕ → List ℕ → ℕ → Option (List ℕ)
memcpy dest src zero = some dest
memcpy dest [] (suc len) = none
memcpy [] (s ∷ src) (suc len) = none
memcpy (d ∷ dest) (s ∷ src) (suc len) = Option.map (λ r. s ∷ r) (memcpy dest src len)
