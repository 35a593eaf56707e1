-- ===== src/Kmem/Chain.antt =====
-- The block list of src/kmem/kmalloc.c as a list of cells: in order of address, apart from one
-- another, and below the break.
use tomato_os.Base.{
  ℕ, ◌+◌, ◌*◌, ◌^◌, ◌≤◌, ◌<◌, ◌≡◌, ◌⊎◌, inl, inr, Bool, List, [], ◌∷◌, arith, length,
}
use mathlib.Core.Path.{sym, subst, subst₂}
use tomato_os.Kmem.{MetaBlock, Kmem, heap_size, meta_block_size, data_of}

-- What a caller can know of a block.
pub record Cell : Type 0 where
  pub addr : ℕ
  pub size : ℕ
  pub free : Bool

-- The address behind a block's data.
abbrev pub end_of : Cell → ℕ
end_of c = c.addr + meta_block_size + c.size

-- The header of a block says what the cell says.
pub record Holds (m : ℕ → MetaBlock) (c : Cell) : Type 0 where
  pub size : (m c.addr).size ≡ c.size
  pub free : (m c.addr).free ≡ c.free
  pub ptr : (m c.addr).ptr ≡ data_of c.addr

-- From `p` the `next` pointers lead through the cells to null. The blocks lie between `lo` and `hi`,
-- each behind the end of the one before.
abbrev pub Chain : (ℕ → MetaBlock) → (lo hi p : ℕ) → List Cell → Type 0
Chain m lo hi p [] = (p ≡ 0) × (lo ≤ hi)
Chain m lo hi p (c ∷ cs) =
    (p ≡ c.addr) × (lo ≤ c.addr) × Holds m c × Chain m (end_of c) hi (m c.addr).next cs

-- Two headers that differ at most in `prev`.
pub record SameLink (a b : MetaBlock) : Type 0 where
  pub size : a.size ≡ b.size
  pub free : a.free ≡ b.free
  pub ptr : a.ptr ≡ b.ptr
  pub next : a.next ≡ b.next

pub Holds-cong :
    (m m' : ℕ → MetaBlock) (c : Cell) → SameLink (m' c.addr) (m c.addr) → Holds m c → Holds m' c
Holds-cong m m' c s h = ground arith

-- A chain survives a change that spares the links of the addresses from `lo` on.
pub Chain-frame :
    (m m' : ℕ → MetaBlock) (lo hi p : ℕ) (cs : List Cell)
    → ((a : ℕ) → lo ≤ a → SameLink (m' a) (m a))
    → Chain m lo hi p cs
    → Chain m' lo hi p cs
Chain-frame m m' lo hi p [] same h = h
Chain-frame m m' lo hi p (c ∷ cs) same (at, above, holds, rest) =
    let s : SameLink (m' c.addr) (m c.addr) = same c.addr above in
    (
      at,
      above,
      Holds-cong m m' c s holds,
      subst (λ n. Chain m' (end_of c) hi n cs) (sym s.next)
          (Chain-frame m m' (end_of c) hi (m c.addr).next cs (λ a le. same a (omega arith)) rest),
    )

-- A block in front of a chain, whose start and lower end are given by equations.
pub Chain-cons :
    {m : ℕ → MetaBlock} (lo hi : ℕ) {p n e : ℕ} (c : Cell) (cs : List Cell)
    → p ≡ c.addr
    → lo ≤ c.addr
    → Holds m c
    → (m c.addr).next ≡ n
    → end_of c ≡ e
    → Chain m e hi n cs
    → Chain m lo hi p (c ∷ cs)
Chain-cons {m} lo hi c cs at above holds next end rest =
    (at, above, holds, subst₂ (λ e n. Chain m e hi n cs) (sym end) (sym next) rest)

pub Chain-lower :
    (m : ℕ → MetaBlock) (lo' lo hi p : ℕ) (cs : List Cell)
    → lo' ≤ lo
    → Chain m lo hi p cs
    → Chain m lo' hi p cs
Chain-lower m lo' lo hi p [] le h = (h.0, omega (arith, h.1))
Chain-lower m lo' lo hi p (c ∷ cs) le (at, above, holds, rest) = (at, omega arith, holds, rest)

pub Chain-le : (m : ℕ → MetaBlock) (lo hi p : ℕ) (cs : List Cell) → Chain m lo hi p cs → lo ≤ hi
Chain-le m lo hi p [] h = h.1
Chain-le m lo hi p (c ∷ cs) (at, above, holds, rest) =
    omega (arith, Chain-le m (end_of c) hi (m c.addr).next cs rest)

pub Chain-start :
    (m : ℕ → MetaBlock) (lo hi p : ℕ) (cs : List Cell) → Chain m lo hi p cs → (p ≡ 0) ⊎ (lo ≤ p)
Chain-start m lo hi p [] h = inl h.0
Chain-start m lo hi p (c ∷ cs) (at, above, holds, rest) = inr (omega arith)

-- The headers alone take 40 bytes for each block.
pub Chain-length :
    (m : ℕ → MetaBlock) (lo hi p : ℕ) (cs : List Cell)
    → Chain m lo hi p cs
    → lo + length cs * meta_block_size ≤ hi
Chain-length m lo hi p [] h = omega (arith, h.1)
Chain-length m lo hi p (c ∷ cs) (at, above, holds, rest) =
    omega (arith, Chain-length m (end_of c) hi (m c.addr).next cs rest)

-- The heap: `heap` is not null and the array ends below 2^64; the list ends below the break.
pub record HeapIs (heap : ℕ) (k : Kmem) (cs : List Cell) : Type 0 where
  pub start : 0 < heap
  pub fits : heap + heap_size < 2 ^ 64
  pub limit : k.endp ≡ heap + heap_size
  pub below : k.brk ≤ k.endp
  pub chain : Chain k.block heap k.brk k.base cs
