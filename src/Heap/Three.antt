-- ===== src/Heap/Three.antt =====
-- Three allocations of one block each, and their release in two orders.
use synapse_kernel.Prelude.{ℕ, ◌+◌, ◌≤◌, ◌≡◌, ap, ◌∙◌, arith, fun_ext}
use synapse_kernel.Heap.{Heap}
use synapse_kernel.Heap.Kheap.{kmalloc, kfree}
use synapse_kernel.Heap.Alloc.{blocks_of}
use synapse_kernel.Heap.Free.{Sized}
use synapse_kernel.Heap.Prefix.{Prefix}
use synapse_kernel.Heap.Single.{
  with_entries, with_entry, address_of, kmalloc-single, with_entry-Prefix, kfree-single,
}

module _ (heap : Heap) (k : ℕ) where
  -- The heap after each of the allocations.
  abbrev pub taken₁ : Heap
  taken₁ = with_entry heap k 0x41

  abbrev pub taken₂ : Heap
  taken₂ = with_entry taken₁ (k + 1) 0x41

  abbrev pub taken₃ : Heap
  taken₃ = with_entry taken₂ (k + 2) 0x41

module _ (heap : Heap) (k a b c : ℕ) (z : Sized heap) (prefix : Prefix heap k)
    (fits : k + 3 ≤ heap.table.total) (one_a : blocks_of a ≡ 1) (one_b : blocks_of b ≡ 1)
    (one_c : blocks_of c ≡ 1) where
  pub malloc₁ : kmalloc a heap ≡ (address_of heap k, (taken₁ heap k))
  malloc₁ = kmalloc-single heap k a prefix one_a (omega arith)

  prefix₁ : Prefix (taken₁ heap k) (k + 1)
  prefix₁ = with_entry-Prefix heap k prefix

  pub malloc₂ : kmalloc b (taken₁ heap k) ≡ (address_of heap (k + 1), (taken₂ heap k))
  malloc₂ = kmalloc-single (taken₁ heap k) (k + 1) b prefix₁ one_b (omega arith)

  prefix₂ : Prefix (taken₂ heap k) (k + 2)
  prefix₂ =
      let at : k + 2 ≡ k + 1 + 1 = omega arith in
      rw at (with_entry-Prefix (taken₁ heap k) (k + 1) prefix₁)

  pub malloc₃ : kmalloc c (taken₂ heap k) ≡ (address_of heap (k + 2), (taken₃ heap k))
  malloc₃ = kmalloc-single (taken₂ heap k) (k + 2) c prefix₂ one_c (omega arith)

  resized : (e : ℕ → ℕ) → Sized (with_entries heap e)
  resized e = record { few = z.few; addressable = z.addressable }

  -- The first, the second and the third released in this order.
  pub in_order :
      kfree
        (address_of heap (k + 2))
        (kfree (address_of heap (k + 1)) (kfree (address_of heap k) (taken₃ heap k)))
      ≡ heap
  in_order =
      let f₁ = with_entry (taken₃ heap k) k 0 in
      let f₂ = with_entry f₁ (k + 1) 0 in
      rw
        (
          kfree-single (taken₃ heap k) k (resized (taken₃ heap k).table.entries) (omega arith)
              (ground arith),
          kfree-single f₁ (k + 1) (resized f₁.table.entries) (omega arith) (ground arith),
        )
        (kfree-single f₂ (k + 2) (resized f₂.table.entries) (omega arith) (ground arith)
          ∙ ap (with_entries heap) (fun_ext (λ j. ground (arith, prefix.unused j))))

  -- The second, the third and the first.
  pub first_last :
      kfree
        (address_of heap k)
        (kfree (address_of heap (k + 2)) (kfree (address_of heap (k + 1)) (taken₃ heap k)))
      ≡ heap
  first_last =
      let f₁ = with_entry (taken₃ heap k) (k + 1) 0 in
      let f₂ = with_entry f₁ (k + 2) 0 in
      rw
        (
          kfree-single (taken₃ heap k) (k + 1) (resized (taken₃ heap k).table.entries) (omega arith)
              (ground arith),
          kfree-single f₁ (k + 2) (resized f₁.table.entries) (omega arith) (ground arith),
        )
        (kfree-single f₂ k (resized f₂.table.entries) (omega arith) (ground arith)
          ∙ ap (with_entries heap) (fun_ext (λ j. ground (arith, prefix.unused j))))
