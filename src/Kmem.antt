-- ===== src/Kmem.antt =====
-- The kernel heap of src/kmem/kmalloc.c, src/kmem/kfree.c and src/kmem/krealloc.c: blocks in a
-- linked list between `heap` and the break. `block a` is the header that stands at address `a`, and
-- `byte a` a byte of a block's data; headers and data that overlap are not modelled; Kmem/Chain is
-- about the blocks of the list. A null pointer is 0.
pub mod Chain
pub mod Find
pub mod Carve
pub mod Append
pub mod Malloc
pub mod Free
mod Tests
use tomato_os.Base.{
  ℕ, zero, suc, ◌+◌, ◌-◌, ◌*◌, ◌/◌, ◌^◌, Bool, true, false, ◌&&◌, ◌||◌, not, ltb, leb, ◌==◌,
  if◌then◌else◌,
}
use tomato_os.Base.Word.{add64, sub64}

-- HEAP_SIZE
abbrev pub heap_size : ℕ
heap_size = 16 * 1024 * 1024

-- META_BLOCK_SIZE: the offset of `data` in `struct meta_block`.
abbrev pub meta_block_size : ℕ
meta_block_size = 40

-- `(void *)-1`
abbrev pub bad_pointer : ℕ
bad_pointer = 2 ^ 64 - 1

-- `struct meta_block`
pub record MetaBlock : Type 0 where
  pub free : Bool
  pub size : ℕ
  pub next : ℕ
  pub prev : ℕ
  pub ptr : ℕ

pub record Kmem : Type 0 where
  pub brk : ℕ
  pub endp : ℕ
  pub base : ℕ
  pub block : ℕ → MetaBlock
  pub byte : ℕ → ℕ

-- `block->data`
abbrev pub data_of : ℕ → ℕ
data_of b = b + meta_block_size

abbrev pub put : (ℕ → MetaBlock) → ℕ → MetaBlock → ℕ → MetaBlock
put m a b c = if a == c then b else m c

abbrev pub set_next : (ℕ → MetaBlock) → ℕ → ℕ → ℕ → MetaBlock
set_next m a n = put m a (record (m a) { next = n })

abbrev pub set_prev : (ℕ → MetaBlock) → ℕ → ℕ → ℕ → MetaBlock
set_prev m a n = put m a (record (m a) { prev = n })

abbrev pub set_free : (ℕ → MetaBlock) → ℕ → Bool → ℕ → MetaBlock
set_free m a f = put m a (record (m a) { free = f })

pub align4 : ℕ → ℕ
align4 x = add64 (sub64 x 1 / 4 * 4) 4

-- `heap` is the address of the array of that name.
pub kmem_init : (heap : ℕ) → Kmem → Kmem
kmem_init heap k = record k { brk = heap; endp = heap + heap_size; base = 0 }

pub sbrk : Kmem → (size : ℕ) → ℕ × Kmem
sbrk k size =
    if size == 0
    then (k.brk, k)
    else if ltb k.endp (add64 k.brk size)
    then (bad_pointer, k)
    else (k.brk, record k { brk = add64 k.brk size })

-- The loop of `find_block` at block `b`: the block found, or null, and the block before it.
pub find_block : ℕ → (ℕ → MetaBlock) → (size last b : ℕ) → ℕ × ℕ
find_block zero m size last b = (b, last)
find_block (suc f) m size last b =
    let rest = find_block f m size b (m b).next in
    if not (b == 0) && (not (m b).free || ltb (m b).size size) then rest else (b, last)

-- `split` on the headers.
pub split : (ℕ → MetaBlock) → (b size : ℕ) → ℕ → MetaBlock
split m b size =
    let old = m b in
    let new = data_of b + size in
    let fresh : MetaBlock = record {
      free = true;
      size = sub64 (sub64 old.size size) meta_block_size;
      next = old.next;
      prev = b;
      ptr = data_of new;
    } in
    let m' = put (put m new fresh) b (record old { next = new; size = size }) in
    if old.next == 0 then m' else set_prev m' old.next new

-- `if (block->size - s >= (META_BLOCK_SIZE + 4)) split(block, s);`
pub trim : (ℕ → MetaBlock) → (b s : ℕ) → ℕ → MetaBlock
trim m b s = if leb (meta_block_size + 4) (sub64 (m b).size s) then split m b s else m

pub extend_heap : Kmem → (last size : ℕ) → ℕ × Kmem
extend_heap k last size =
    let old_break = (sbrk k 0).0 in
    let (new_break, k') = sbrk k (add64 meta_block_size size) in
    let fresh : MetaBlock = record {
      free = false;
      size = size;
      next = 0;
      prev = 0;
      ptr = data_of old_break;
    } in
    let m = put k'.block old_break fresh in
    if new_break == bad_pointer
    then (0, k')
    else (old_break, record k' { block = if last == 0 then m else set_next m last old_break })

-- The search of `kmalloc` from the first block on; the fuel is more than the heap has blocks.
pub search_heap : Kmem → (s : ℕ) → ℕ × ℕ
search_heap k s = find_block heap_size k.block s k.base k.base

-- `kmalloc` behind `align4`. The result is the block, or null.
pub place : Kmem → (s : ℕ) → ℕ × Kmem
place k s =
    let (b, last) = search_heap k s in
    let (fresh, k') = extend_heap k last s in
    let (first, k'') = extend_heap k 0 s in
    if k.base == 0
    then (first, if first == 0 then k'' else record k'' { base = first })
    else if b == 0
    then (fresh, k')
    else (b, record k { block = set_free (trim k.block b s) b false })

pub kmalloc : Kmem → (size : ℕ) → ℕ × Kmem
kmalloc k size = let (b, k') = place k (align4 size) in (if b == 0 then 0 else data_of b, k')

-- `merge_blocks`, which returns the block that it is given.
pub merge_blocks : (ℕ → MetaBlock) → (b : ℕ) → ℕ → MetaBlock
merge_blocks m b =
    let n = (m b).next in
    let merged = put m b (record (m b) {
      size = add64 (m b).size (add64 meta_block_size (m n).size);
      next = (m n).next;
    }) in
    let m' = if not (n == 0) && (m n).free then merged else m in
    if (m' b).next == 0 then m' else set_prev m' (m' b).next b

-- The loop of `get_last_block`.
pub last_from : ℕ → (ℕ → MetaBlock) → ℕ → ℕ
last_from zero m b = b
last_from (suc f) m b =
    let rest = last_from f m (m b).next in if not (b == 0) && not ((m b).next == 0) then rest else b

pub get_last_block : Kmem → ℕ
get_last_block k = last_from heap_size k.block k.base

pub is_addr_valid : Kmem → (p : ℕ) → Bool
is_addr_valid k p =
    not (k.base == 0) && (ltb k.base p && ltb p k.brk) && p == (k.block (p - meta_block_size)).ptr

-- `cbrk`; its result is not used.
pub cbrk : Kmem → (addr : ℕ) → Kmem
cbrk k addr = if leb k.endp addr || ltb addr k.brk then k else record k { brk = addr }

-- The end of `kfree` for a block with none behind it.
pub drop_last : Kmem → (b : ℕ) → Kmem
drop_last k b =
    let prev = (k.block b).prev in
    let k' =
      if prev == 0 then record k { base = 0 } else record k { block = set_next k.block prev 0 } in
    if b == get_last_block k' then cbrk k' b else k'

-- The block that `kfree` goes on with, and the headers, once it has merged with the block before.
pub merge_back : (ℕ → MetaBlock) → (b : ℕ) → ℕ × (ℕ → MetaBlock)
merge_back m b =
    let prev = (m b).prev in
    if not (prev == 0) && (m prev).free then (prev, merge_blocks m prev) else (b, m)

pub release : Kmem → (b : ℕ) → Kmem
release k b =
    let (c, m) = merge_back (set_free k.block b true) b in
    if (m c).next == 0
    then drop_last (record k { block = m }) c
    else record k { block = merge_blocks m c }

pub kfree : Kmem → (p : ℕ) → Kmem
kfree k p = if is_addr_valid k p then release k (p - meta_block_size) else k

-- The loop of `krealloc` that copies `n` bytes from `src` to `dst`, from byte `i` on.
pub copy_bytes : (ℕ → ℕ) → (dst src i n : ℕ) → ℕ → ℕ
copy_bytes m dst src i zero = m
copy_bytes m dst src i (suc n) =
    copy_bytes (λ a. if dst + i == a then m (src + i) else m a) dst src (i + 1) n

-- `krealloc` for a pointer that is not null and a size that is not 0: the block shrinks in place,
-- or grows over the free block behind it, or moves.
pub grow : Kmem → (p size : ℕ) → ℕ × Kmem
grow k p size =
    let s = align4 size in
    let b = p - meta_block_size in
    let n = (k.block b).next in
    let combined = add64 (add64 (k.block b).size meta_block_size) (k.block n).size in
    let widened = put k.block b (record (k.block b) { size = combined; next = (k.block n).next }) in
    let relinked = if (widened b).next == 0 then widened else set_prev widened (widened b).next b in
    let (q, k') = kmalloc k size in
    let room = (k'.block (q - meta_block_size)).size in
    let have = (k'.block b).size in
    let moved = record k' {
      byte = copy_bytes k'.byte q p 0 (if ltb have room then have else room);
    } in
    if leb s (k.block b).size
    then (p, record k { block = trim k.block b s })
    else if not (n == 0) && (k.block n).free && leb s combined
    then (p, record k { block = trim relinked b s })
    else if q == 0
    then (0, k')
    else (q, kfree moved p)

pub krealloc : Kmem → (p size : ℕ) → ℕ × Kmem
krealloc k p size =
    if p == 0 then kmalloc k size else if size == 0 then (0, kfree k p) else grow k p size
