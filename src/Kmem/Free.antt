-- ===== src/Kmem/Free.antt =====
-- `kfree` of src/kmem/kfree.c: the break, and the block that was made last.
use tomato_os.Base.{ℕ, ◌+◌, ◌-◌, ◌≤◌, ◌<◌, ◌≡◌, ◌≢◌, ◌^◌, true, List, ◌∷◌, arith, refl, ne→==}
use tomato_os.Kmem.{
  MetaBlock, Kmem, meta_block_size, data_of, set_free, align4, merge_back, is_addr_valid, cbrk,
  drop_last, release, kfree, kmalloc,
}
use tomato_os.Kmem.Chain.{Cell, HeapIs}
use tomato_os.Kmem.Find.{first_fit}
use tomato_os.Kmem.Malloc.{based, base-lt-brk, last, last_bounds, at_break, place-at_break}
use tomato_os.Kmem.Append.{linked}

drop_last-brk : (k : Kmem) (b : ℕ) → k.brk ≤ (drop_last k b).brk
unfolding drop_last cbrk
drop_last-brk k b = ground arith

release-brk : (k : Kmem) (b : ℕ) → k.brk ≤ (release k b).brk
unfolding release
release-brk k b =
    let step = merge_back (set_free k.block b true) b in
    ground (arith, drop_last-brk (record k { block = step.1 }) step.0)

-- `kfree` never gives memory back: whatever the state of the heap and whatever the pointer, the
-- break is no lower than before, since `cbrk` refuses every address below the break.
pub kfree-brk : (k : Kmem) (p : ℕ) → k.brk ≤ (kfree k p).brk
unfolding kfree
kfree-brk k p = ground (arith, release-brk k (p - meta_block_size))

drop_last-base : (k : Kmem) (b : ℕ) → (k.block b).prev ≡ 0 → (drop_last k b).base ≡ 0
unfolding drop_last cbrk
drop_last-base k b e = ground arith

release-base :
    (k : Kmem) (b : ℕ) → (k.block b).prev ≡ 0 → (k.block b).next ≡ 0 → (release k b).base ≡ 0
unfolding release merge_back
release-base k b e e' =
    let m = set_free k.block b true in ground (arith, drop_last-base (record k { block = m }) b)

kfree-base_zero : (k : Kmem) (q : ℕ) → k.base ≡ 0 → kfree k q ≡ k
unfolding kfree is_addr_valid
kfree-base_zero k q e = ground arith

-- The state right behind a block that was made at the break.
module _ (k : Kmem) (s l : ℕ) (pos : 0 < s) (ne : l ≢ k.brk) (based : k.base ≢ 0)
    (lt : k.base < k.brk) where
  abbrev grown : Kmem
  grown = record k { brk = k.brk + meta_block_size + s; block = linked k.block s k.brk l }

  abbrev freed : ℕ → MetaBlock
  freed = set_free grown.block k.brk true

  grown_valid : is_addr_valid grown (data_of k.brk) ≡ true
  unfolding is_addr_valid
  grown_valid = ground arith

  grown_ends : ((grown.block k.brk).prev ≡ 0) × ((grown.block k.brk).next ≡ 0)
  grown_ends = ground arith

  kfree_drops : (kfree grown (data_of k.brk)).base ≡ 0
  unfolding kfree
  kfree_drops = ground (arith, grown_valid, release-base grown k.brk grown_ends.0 grown_ends.1)

-- Freeing a block that was just made at the break, behind others, empties the list: the first block
-- becomes null, although the blocks before are still in use, and from then on no call of `kfree`
-- has any effect until a new first block is made.
pub kfree-last_block :
    (heap size : ℕ) (k : Kmem) (c : Cell) (cs : List Cell)
    → k.endp + meta_block_size + align4 size < 2 ^ 64
    → HeapIs heap k (c ∷ cs)
    → first_fit (align4 size) (c ∷ cs) ≡ 0
    → 0 < align4 size
    → k.brk + meta_block_size + align4 size ≤ k.endp
    → let (p, k') = kmalloc k size in
      (p ≡ data_of k.brk) × ((kfree k' p).base ≡ 0) × ((q : ℕ) → kfree (kfree k' p) q ≡ kfree k' p)
unfolding kmalloc at_break
kfree-last_block heap size k c cs small h none_fits pos room =
    let s = align4 size in
    let l = last heap s k small c cs h in
    let b = last_bounds heap s k small c cs h in
    let made = place-at_break heap s k small c cs h none_fits room in
    let dropped =
      kfree_drops k s l pos (omega (arith, b.1)) (based heap s k small c cs h)
        (base-lt-brk heap s k small c cs h) in
    rw (made, ne→== k.brk 0 (omega (arith, b.1))) (refl, dropped, λ q. kfree-base_zero _ q dropped)
