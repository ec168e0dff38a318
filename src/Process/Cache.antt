-- ===== src/Process/Cache.antt =====
-- process_memory_flush_icache of core/process/process_memory.c: the cache maintenance for a region of
-- memory, as the instructions that are issued, in order.
use synapse_kernel.Prelude.{
  ℕ, zero, suc, ◌+◌, ◌-◌, ◌*◌, ◌/◌, ◌%◌, ◌^◌, ◌≤◌, ◌<◌, ◌≡◌, refl, arith, Status, eok, List, [],
  ◌∷◌, ◌++◌, ltb, if◌then◌else◌, true,
}
use mathlib.Core.List.{Mem, mem-cons_self, mem-cons_of_mem, mem-append, mem-append_right}
use mathlib.Core.Logic.Or
use synapse_kernel.Task.{Ptr}

pub data CacheOp : Type 0 where
  dc_civac ic_ivau : ℕ → CacheOp
  isb dsb_ish : CacheOp

-- `line_size`
abbrev pub line_size : ℕ
line_size = 64

-- `for (current = start_aligned; current < end_aligned; current += line_size)`, with the rounds left.
unfoldable pub lines_from : (ℕ → CacheOp) → ℕ → ℕ → ℕ → List CacheOp
lines_from op zero current end_aligned = []
lines_from op (suc rounds) current end_aligned =
    let rest = lines_from op rounds (current + line_size) end_aligned in
    if ltb current end_aligned then op current ∷ rest else []

-- The two loops with the barriers behind them.
abbrev maintenance : List CacheOp → List CacheOp → List CacheOp
maintenance cleaned invalidated =
    let last = invalidated ++ isb ∷ [] in let rest = isb ∷ dsb_ish ∷ last in cleaned ++ rest

-- There are as many rounds as lines between the two addresses, which are multiples of 64.
unfoldable pub process_memory_flush_icache : Ptr → ℕ → Status × List CacheOp
process_memory_flush_icache addr size =
    let end_addr = (addr + size) % 2 ^ 64 in
    let start_aligned = addr / line_size * line_size in
    let end_aligned = (end_addr + line_size - 1) % 2 ^ 64 / line_size * line_size in
    let rounds = (end_aligned - start_aligned) / line_size in
    (
      eok,
      maintenance (lines_from dc_civac rounds start_aligned end_aligned)
          (lines_from ic_ivau rounds start_aligned end_aligned),
    )

Mem-maintenance :
    (op op' : CacheOp) (cleaned invalidated : List CacheOp)
    → Mem op cleaned
    → Mem op' invalidated
    → Mem op (maintenance cleaned invalidated) × Mem op' (maintenance cleaned invalidated)
Mem-maintenance op op' cleaned invalidated m m' = (
  mem-append.1 (Or.inl m),
  mem-append_right cleaned
      (mem-cons_of_mem isb (mem-cons_of_mem dsb_ish (mem-append.1 (Or.inl m')))),
)

Mem-lines_from :
    (op : ℕ → CacheOp) (rounds current end_aligned n : ℕ)
    → n < rounds
    → current + n * line_size < end_aligned
    → Mem (op (current + n * line_size)) (lines_from op rounds current end_aligned)
unfolding lines_from
Mem-lines_from op zero current end_aligned n lt below = absurd (omega arith)
Mem-lines_from op (suc rounds) current end_aligned zero lt below =
    let first : ltb current end_aligned ≡ true = ground arith in
    let here : current + 0 * line_size ≡ current = omega arith in rw (first, here) mem-cons_self
Mem-lines_from op (suc rounds) current end_aligned (suc n) lt below =
    let first : ltb current end_aligned ≡ true = ground arith in
    let next : current + suc n * line_size ≡ current + line_size + n * line_size = omega arith in
    rw (first, next)
      (mem-cons_of_mem (op current)
        (Mem-lines_from op rounds (current + line_size) end_aligned n (omega arith) (omega arith)))

-- For a region that ends 64 bytes or more before the end of the address space the call succeeds, and
-- for each byte of the region its line of the data cache is cleaned, and its line of the
-- instruction cache invalidated.
pub process_memory_flush_icache-covers :
    (addr size a : ℕ)
    → addr + size + line_size ≤ 2 ^ 64
    → addr ≤ a
    → a < addr + size
    → let line = a / line_size * line_size in
      let (res, ops) = process_memory_flush_icache addr size in
      (res ≡ eok) × Mem (dc_civac line) ops × Mem (ic_ivau line) ops
unfolding process_memory_flush_icache
process_memory_flush_icache-covers addr size a space lo hi =
    let n = a / 64 - addr / 64 in
    let start = addr / 64 * 64 in
    let end = ((addr + size) % 2 ^ 64 + 64 - 1) % 2 ^ 64 / 64 * 64 in
    let rounds = (end - start) / 64 in
    let at : a / 64 * 64 ≡ start + n * 64 = omega arith in
    let inside : start + n * 64 < end = omega arith in
    let few : n < rounds = omega arith in
    let cleaned : Mem (dc_civac (a / 64 * 64)) (lines_from dc_civac rounds start end) =
      rw at (Mem-lines_from dc_civac rounds start end n few inside) in
    let code : Mem (ic_ivau (a / 64 * 64)) (lines_from ic_ivau rounds start end) =
      rw at (Mem-lines_from ic_ivau rounds start end n few inside) in
    let (first, second) =
      Mem-maintenance (dc_civac (a / 64 * 64)) (ic_ivau (a / 64 * 64))
        (lines_from dc_civac rounds start end) (lines_from ic_ivau rounds start end) cleaned code in
    (refl, first, second)
