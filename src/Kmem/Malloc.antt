-- ===== src/Kmem/Malloc.antt =====
-- `kmalloc` of src/kmem/kmalloc.c against an allocator on lists of cells.
use tomato_os.Base.{
  ℕ, ◌+◌, ◌-◌, ◌%◌, ◌≤◌, ◌<◌, ◌≡◌, ◌≢◌, ◌^◌, true, List, [], ◌∷◌, ◌++◌, arith, ◌==◌, if◌then◌else◌,
  refl, dec_lt, ℕ_discrete, ne→==,
}
use tomato_os.Kmem.{
  Kmem, heap_size, meta_block_size, data_of, put, align4, sbrk, extend_heap, search_heap, place,
  kmalloc,
}
use tomato_os.Kmem.Chain.{Cell, end_of, Chain-length, Chain-le, HeapIs}
use tomato_os.Kmem.Find.{first_fit, before_fit, find_block-first_fit}
use tomato_os.Kmem.Carve.{after, reuse, reuse-Chain}
use tomato_os.Kmem.Append.{new_cell, new_block, linked, before_fit-bounds, append-Chain}

-- For a request of 1 to 2^64 - 4 bytes, `align4` gives the least multiple of 4 that is no smaller.
pub align4_bounds :
    (x : ℕ) → 0 < x → x ≤ 2 ^ 64 - 4 → (x ≤ align4 x) × (align4 x < x + 4) × (align4 x % 4 ≡ 0)
unfolding align4
align4_bounds x pos small = omega arith

-- How the heap goes on after `place k s`, from one that holds the cells `cs`.
pub data Placed (heap : ℕ) (k : Kmem) (s : ℕ) (cs : List Cell) : ℕ × Kmem → Type 0 where
  reused :
      {k' : Kmem}
      → first_fit s cs ≢ 0
      → HeapIs heap k' (reuse s cs)
      → k'.brk ≡ k.brk
      → Placed heap k s cs (first_fit s cs, k')
  extended :
      {k' : Kmem}
      → first_fit s cs ≡ 0
      → HeapIs heap k' (cs ++ new_cell k.brk s ∷ [])
      → k'.brk ≡ k.brk + meta_block_size + s
      → Placed heap k s cs (k.brk, k')
  failed : first_fit s cs ≡ 0 → k.endp < k.brk + meta_block_size + s → Placed heap k s cs (0, k)

module _ (heap s : ℕ) (k : Kmem) (cs : List Cell) (h : HeapIs heap k cs)
    (small : k.endp + meta_block_size + s < 2 ^ 64) where
  search_heap-first_fit : search_heap k s ≡ (first_fit s cs, before_fit s k.base cs)
  unfolding search_heap
  search_heap-first_fit =
      find_block-first_fit heap_size k.block s k.base heap k.brk k.base cs h.start
        (omega (arith, Chain-length k.block heap k.brk k.base cs h.chain, h.below, h.limit)) h.chain

  extend_heap_full :
      (last : ℕ) → k.endp < k.brk + meta_block_size + s → extend_heap k last s ≡ (0, k)
  unfolding extend_heap sbrk
  extend_heap_full last full = ground (arith, h.below)

  extend_heap_room :
      (last : ℕ)
      → k.brk + meta_block_size + s ≤ k.endp
      → extend_heap k last s ≡ (
        k.brk,
        record k {
          brk = k.brk + meta_block_size + s;
          block =
              if last == 0
              then put k.block k.brk (new_block k.brk s)
              else linked k.block s k.brk last;
        },
      )
  unfolding extend_heap sbrk
  extend_heap_room last room = ground (arith, h.below)

module _ (k : Kmem) (s : ℕ) where
  place_empty :
      {b : ℕ} {k' : Kmem}
      → k.base ≡ 0
      → extend_heap k 0 s ≡ (b, k')
      → place k s ≡ (b, if b == 0 then k' else record k' { base = b })
  unfolding place
  place_empty e x = let none_yet : (k.base == 0) ≡ true = ground arith in rw (none_yet, x)

  place_found :
      {b l : ℕ}
      → k.base ≢ 0
      → search_heap k s ≡ (b, l)
      → b ≢ 0
      → place k s ≡ (b, record k { block = after k.block s b })
  unfolding place
  place_found ne x ne' = rw (x, ne→== _ _ ne, ne→== _ _ ne')

  place_none : {l : ℕ} → k.base ≢ 0 → search_heap k s ≡ (0, l) → place k s ≡ extend_heap k l s
  unfolding place
  place_none ne x = rw (x, ne→== _ _ ne)

module _ (heap s : ℕ) (k : Kmem) (small : k.endp + meta_block_size + s < 2 ^ 64) where
  place-Placed_empty : HeapIs heap k [] → Placed heap k s [] (place k s)
  unfolding first_fit
  place-Placed_empty h = elim (dec_lt k.endp (k.brk + meta_block_size + s)) [
    | yes full ↦
        rw (place_empty k s h.chain.0 (extend_heap_full heap s k [] h small 0 full))
          (failed refl full)
    | no room ↦
        rw
          (
            place_empty k s h.chain.0 (extend_heap_room heap s k [] h small 0 (omega arith)),
            ne→== k.brk 0 (omega (arith, h.start, h.chain.1)),
          )
          (extended refl
            (record {
              start = h.start;
              fits = h.fits;
              limit = h.limit;
              below = omega arith;
              chain = (refl, h.chain.1, ground arith, (ground arith, omega arith));
            })
            refl)
  ]

  module _ (c : Cell) (cs : List Cell) (h : HeapIs heap k (c ∷ cs)) where
    pub based : k.base ≢ 0
    based = omega (arith, h.chain.0, h.chain.1, h.start)

    pub base-lt-brk : k.base < k.brk
    base-lt-brk =
        omega
          (arith, h.chain.0, Chain-le k.block (end_of c) k.brk (k.block c.addr).next cs h.chain.3)

    unfoldable pub last : ℕ
    last = before_fit s k.base (c ∷ cs)

    pub last_bounds : (1 ≤ last) × (last < k.brk)
    unfolding last
    last_bounds =
        before_fit-bounds k.block s k.brk heap k.base k.base 1 (c ∷ cs) h.chain
          (omega (arith, based)) h.start base-lt-brk

    place-Placed_reused : first_fit s (c ∷ cs) ≢ 0 → Placed heap k s (c ∷ cs) (place k s)
    place-Placed_reused ne =
        rw (place_found k s based (search_heap-first_fit heap s k (c ∷ cs) h small) ne) (
          reused ne
            (record {
              start = h.start;
              fits = h.fits;
              limit = h.limit;
              below = h.below;
              chain =
                  reuse-Chain k.block s heap k.brk k.base (c ∷ cs)
                    (omega (arith, h.below, h.limit, h.fits)) ne h.chain;
            })
            refl)

    search_last : first_fit s (c ∷ cs) ≡ 0 → search_heap k s ≡ (0, last)
    unfolding last
    search_last e = rw (search_heap-first_fit heap s k (c ∷ cs) h small, e)

    -- The heap after a block is made at the break.
    unfoldable pub at_break : Kmem
    at_break = record k { brk = k.brk + meta_block_size + s; block = linked k.block s k.brk last }

    pub place-at_break :
        first_fit s (c ∷ cs) ≡ 0
        → k.brk + meta_block_size + s ≤ k.endp
        → place k s ≡ (k.brk, at_break)
    unfolding last at_break
    place-at_break e room =
        rw
          (
            place_none k s based (search_last e),
            extend_heap_room heap s k (c ∷ cs) h small last room,
            ne→== last 0 (omega (arith, last_bounds)),
          )
          refl

    place-Placed_extended : first_fit s (c ∷ cs) ≡ 0 → Placed heap k s (c ∷ cs) (place k s)
    unfolding last
    place-Placed_extended e = elim (dec_lt k.endp (k.brk + meta_block_size + s)) [
      | yes full ↦
          rw
            (
              place_none k s based (search_last e),
              extend_heap_full heap s k (c ∷ cs) h small last full,
            )
            (failed e full)
      | no room ↦
          rw
            (
              place_none k s based (search_last e),
              extend_heap_room heap s k (c ∷ cs) h small last (omega arith),
              ne→== last 0 (omega (arith, last_bounds)),
            )
            (extended e
              (record {
                start = h.start;
                fits = h.fits;
                limit = h.limit;
                below = omega arith;
                chain = append-Chain k.block s k.brk heap k.base k.base c cs e h.start h.chain;
              })
              refl)
    ]

  -- The same for `kmalloc` behind its rounding.
  pub place-Placed : (cs : List Cell) → HeapIs heap k cs → Placed heap k s cs (place k s)
  place-Placed [] h = place-Placed_empty h
  place-Placed (c ∷ cs) h = elim (ℕ_discrete (first_fit s (c ∷ cs)) 0) [
    | yes e ↦ place-Placed_extended c cs h e
    | no ne ↦ place-Placed_reused c cs h ne
  ]

-- The result of `kmalloc` for the block `b`.
abbrev pub data_or_null : ℕ → ℕ
data_or_null b = if b == 0 then 0 else data_of b

-- `kmalloc` on a heap that holds the cells `cs`, and whose end is so far below 2^64 that the request
-- cannot wrap: the first free block that is large enough is put to use, and split where 44 bytes or
-- more are left over; where there is none, a block is made at the break; and where the heap is full
-- as well, the result is null and nothing changes. Each time the list of blocks holds exactly the
-- cells that the list allocator gives, in order of address and apart from one another.
pub kmalloc-Placed :
    (heap size : ℕ) (k : Kmem) (cs : List Cell)
    → k.endp + meta_block_size + align4 size < 2 ^ 64
    → HeapIs heap k cs
    → (b : ℕ) × (k' : Kmem) × (kmalloc k size ≡ (data_or_null b, k'))
      × Placed heap k (align4 size) cs (b, k')
unfolding kmalloc
kmalloc-Placed heap size k cs small h =
    let (b, k') = place k (align4 size) in
    (b, k', refl, place-Placed heap (align4 size) k small cs h)
