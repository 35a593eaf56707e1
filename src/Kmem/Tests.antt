-- ===== src/Kmem/Tests.antt =====
-- Runs of the kernel heap of src/kmem/kmalloc.c and src/kmem/kfree.c, and the theorems at them.
use tomato_os.Base.{ℕ, ◌+◌, ◌≤◌, ◌≡◌, refl, true, false, List, [], ◌∷◌, arith}
use tomato_os.Kmem.{
  MetaBlock, Kmem, heap_size, data_of, put, align4, find_block, search_heap, extend_heap, sbrk,
  place, kmalloc, is_addr_valid, kfree, krealloc, grow, trim, release, merge_back, drop_last,
  get_last_block, last_from,
}
use tomato_os.Kmem.Chain.{Cell, HeapIs}
use tomato_os.Kmem.Find.{first_fit}
use tomato_os.Kmem.Malloc.{data_or_null, Placed, kmalloc-Placed}
use tomato_os.Kmem.Free.{kfree-brk, kfree-last_block}

abbrev no_block : MetaBlock
no_block = record { free = false; size = 0; next = 0; prev = 0; ptr = 0 }

abbrev boot : Kmem
boot = record {
  brk = 0x1000;
  endp = 0x1000 + heap_size;
  base = 0;
  block = λ a. no_block;
  byte = λ a. 0;
}

-- One block of 100 bytes in use, and one of 8 bytes that is free.
abbrev busy : Kmem
busy = record {
  brk = 0x1000 + 188;
  endp = 0x1000 + heap_size;
  base = 0x1000;
  block =
      put
        (put (λ a. no_block) 0x1000
          (record { free = false; size = 100; next = 0x1000 + 140; prev = 0; ptr = 0x1028 }))
        (0x1000 + 140)
        (record { free = true; size = 8; next = 0; prev = 0x1000; ptr = 0x1000 + 180 });
  byte = λ a. 0;
}

abbrev busy_cells : List Cell
busy_cells =
    record { addr = 0x1000; size = 100; free = false }
    ∷ record { addr = 0x1000 + 140; size = 8; free = true }
    ∷ []

busy-HeapIs : HeapIs 0x1000 busy busy_cells
busy-HeapIs = record {
  start = omega arith;
  fits = omega arith;
  limit = refl;
  below = omega arith;
  chain = (refl, omega arith, ground arith, (refl, omega arith, ground arith, (refl, omega arith)));
}

-- Two blocks are made, the second behind the 40 bytes of a header and 100 of data.
malloc_twice : (kmalloc (kmalloc boot 100).1 5).0 ≡ 0x1000 + 180
unfolding kmalloc place extend_heap sbrk align4 search_heap find_block
malloc_twice = refl

free_last : (kfree (kmalloc (kmalloc boot 100).1 5).1 (0x1000 + 180)).base ≡ 0
unfolding kmalloc place extend_heap sbrk align4 search_heap find_block kfree is_addr_valid release
    merge_back drop_last get_last_block last_from
free_last = refl

-- Shrinking a block in place gives the rest back.
realloc_shrinks : (krealloc busy 0x1028 20).0 ≡ 0x1028
unfolding krealloc grow align4 trim
realloc_shrinks = refl

-- Growing over the free block behind keeps the address.
realloc_absorbs : (krealloc busy 0x1028 140).0 ≡ 0x1028
unfolding krealloc grow align4 trim
realloc_absorbs = refl

kmalloc-Placed_example :
    (b : ℕ) × (k' : Kmem) × (kmalloc busy 6 ≡ (data_or_null b, k'))
    × Placed 0x1000 busy (align4 6) busy_cells (b, k')
unfolding align4
kmalloc-Placed_example = kmalloc-Placed 0x1000 6 busy busy_cells (omega arith) busy-HeapIs

kfree-brk_example : busy.brk ≤ (kfree busy 0x1028).brk
kfree-brk_example = kfree-brk busy 0x1028

kfree-last_block_example :
    let (p, k') = kmalloc busy 64 in
    (p ≡ data_of busy.brk) × ((kfree k' p).base ≡ 0) × ((q : ℕ) → kfree (kfree k' p) q ≡ kfree k' p)
unfolding align4 first_fit
kfree-last_block_example =
    kfree-last_block 0x1000 64 busy (record { addr = 0x1000; size = 100; free = false })
      (record { addr = 0x1000 + 140; size = 8; free = true } ∷ []) (omega arith) busy-HeapIs refl
      (omega arith) (omega arith)
