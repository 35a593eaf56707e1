-- ===== src/Kmem/Find.antt =====
-- `find_block` of src/kmem/kmalloc.c: the first free block that is large enough.
use tomato_os.Base.{
  ℕ, zero, suc, ◌<◌, ◌≡◌, Bool, ◌&&◌, List, [], ◌∷◌, arith, length, leb, if◌then◌else◌,
}
use tomato_os.Kmem.{MetaBlock, find_block}
use tomato_os.Kmem.Chain.{Cell, end_of, Chain}

-- A free block of at least `size` bytes.
abbrev pub suits : ℕ → Cell → Bool
suits size c = c.free && leb size c.size

-- The address of the first cell that suits, or 0.
unfoldable pub first_fit : ℕ → List Cell → ℕ
first_fit size [] = 0
first_fit size (c ∷ cs) = if suits size c then c.addr else first_fit size cs

-- The address of the cell before it, or of the last cell; `last` where there is none.
unfoldable pub before_fit : (size last : ℕ) → List Cell → ℕ
before_fit size last [] = last
before_fit size last (c ∷ cs) = if suits size c then last else before_fit size c.addr cs

pub find_block-first_fit :
    (f : ℕ) (m : ℕ → MetaBlock) (size last lo hi p : ℕ) (cs : List Cell)
    → 0 < lo
    → length cs < f
    → Chain m lo hi p cs
    → find_block f m size last p ≡ (first_fit size cs, before_fit size last cs)
unfolding find_block first_fit before_fit
find_block-first_fit zero m size last lo hi p cs pos fuel h = absurd (omega arith)
find_block-first_fit (suc f) m size last lo hi p [] pos fuel h = ground (arith, h.0)
find_block-first_fit (suc f) m size last lo hi p (c ∷ cs) pos fuel (at, above, holds, rest) =
    ground (
      arith,
      find_block-first_fit f m size p (end_of c) hi (m c.addr).next cs (omega arith) (omega arith)
          rest,
    )
