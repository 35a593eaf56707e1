-- ===== src/Kmem/Carve.antt =====
-- A free block put to use by `kmalloc` of src/kmem/kmalloc.c, split in two where it is large.
use tomato_os.Base.{
  ℕ, ◌+◌, ◌-◌, ◌≤◌, ◌<◌, ◌≡◌, ◌≢◌, ◌⊎◌, inl, inr, ◌^◌, true, false, List, [], ◌∷◌, arith, leb,
  if◌then◌else◌, Bool-cases, refl,
}
use tomato_os.Base.Word.{sub64}
use tomato_os.Kmem.{MetaBlock, meta_block_size, data_of, set_free, trim, split}
use tomato_os.Kmem.Chain.{
  Cell, end_of, Holds, Chain, Chain-frame, Chain-cons, Chain-lower, Holds-cong, Chain-le,
  Chain-start, SameLink,
}
use tomato_os.Kmem.Find.{suits, first_fit}

-- A free cell in use for `s` bytes; what is left becomes a free cell if it holds 4 bytes or more.
pub carve : ℕ → Cell → List Cell → List Cell
carve s c cs =
    if leb (meta_block_size + 4) (c.size - s)
    then record { addr = c.addr; size = s; free = false }
      ∷ record {
        addr = c.addr + meta_block_size + s;
        size = c.size - s - meta_block_size;
        free = true;
      }
      ∷ cs
    else record c { free = false } ∷ cs

-- The first cell that suits is put to use.
pub reuse : ℕ → List Cell → List Cell
reuse s [] = []
reuse s (c ∷ cs) = if suits s c then carve s c cs else c ∷ reuse s cs

-- What `split` and the end of `kmalloc` leave in the headers: the block, the one carved from it if
-- any, and all others, of which at most a `prev` differs.
module _ (m : ℕ → MetaBlock) (s b : ℕ) where
  abbrev pub after : ℕ → MetaBlock
  after = set_free (trim m b s) b false

  abbrev cut : ℕ
  cut = b + meta_block_size + s

  record Whole : Type 0 where
    tight : leb (meta_block_size + 4) ((m b).size - s) ≡ false
    taken : after b ≡ record (m b) { free = false }
    others : (a : ℕ) → a ≢ b → SameLink (after a) (m a)

  record Halved : Type 0 where
    roomy : leb (meta_block_size + 4) ((m b).size - s) ≡ true
    front_size : (after b).size ≡ s
    front_free : (after b).free ≡ false
    front_ptr : (after b).ptr ≡ (m b).ptr
    front_next : (after b).next ≡ cut
    back_size : (after cut).size ≡ (m b).size - s - meta_block_size
    back_free : (after cut).free ≡ true
    back_ptr : (after cut).ptr ≡ data_of cut
    back_next : (after cut).next ≡ (m b).next
    others : (a : ℕ) → a ≢ b → a ≢ cut → SameLink (after a) (m a)

module _ (m : ℕ → MetaBlock) (s b : ℕ) (enough : s ≤ (m b).size) (small : (m b).size < 2 ^ 64)
    (apart : ((m b).next ≡ 0) ⊎ (b + meta_block_size + (m b).size ≤ (m b).next)) where
  trim_whole : leb (meta_block_size + 4) (sub64 (m b).size s) ≡ false → Whole m s b
  unfolding trim
  trim_whole e = record {
    tight = ground arith;
    taken = ground arith;
    others = λ a ne. ground arith;
  }

  trim_halved : leb (meta_block_size + 4) (sub64 (m b).size s) ≡ true → Halved m s b
  unfolding trim split
  trim_halved e = record {
    roomy = ground arith;
    front_size = ground arith;
    front_free = ground arith;
    front_ptr = ground arith;
    front_next = ground arith;
    back_size = ground arith;
    back_free = ground arith;
    back_ptr = ground arith;
    back_next = ground arith;
    others = λ a ne ne'. ground arith;
  }

module _ (m : ℕ → MetaBlock) (s hi : ℕ) (c : Cell) (cs : List Cell) (holds : Holds m c)
    (enough : suits s c ≡ true) (small : hi < 2 ^ 64)
    (rest : Chain m (end_of c) hi (m c.addr).next cs) where
  abbrev Carved : Type 0
  Carved = Chain (after m s c.addr) c.addr hi c.addr (carve s c cs)

  whole-Carved : Whole m s c.addr → Carved
  unfolding carve
  whole-Carved w =
      let tight : leb (meta_block_size + 4) (c.size - s) ≡ false = ground (arith, w.tight) in
      rw tight (
        Chain-cons c.addr hi (record c { free = false }) cs refl (omega arith)
          (ground (arith, w.taken)) (ground (arith, w.taken)) refl
          (Chain-frame m _ (end_of c) hi _ cs (λ a le. w.others a (omega arith)) rest))

  halved-Carved : Halved m s c.addr → Carved
  unfolding carve
  halved-Carved w =
      let roomy : leb (meta_block_size + 4) (c.size - s) ≡ true = ground (arith, w.roomy) in
      let front : Cell = record { addr = c.addr; size = s; free = false } in
      let back : Cell = record {
        addr = cut m s c.addr;
        size = c.size - s - meta_block_size;
        free = true;
      } in
      rw roomy (
        Chain-cons c.addr hi front (back ∷ cs) refl (omega arith) (ground arith) w.front_next refl (
          Chain-cons (end_of front) hi back cs refl (omega arith) (ground arith) w.back_next
            (ground arith)
            (Chain-frame m _ (end_of c) hi _ cs (λ a le. w.others a (omega arith) (ground arith))
              rest)))

  carve-Chain : Carved
  carve-Chain =
      let fits : c.size < 2 ^ 64 =
        omega (arith, Chain-le m (end_of c) hi (m c.addr).next cs rest) in
      let le : s ≤ (m c.addr).size = ground arith in
      let lt : (m c.addr).size < 2 ^ 64 = ground arith in
      let apart : ((m c.addr).next ≡ 0)
          ⊎ (c.addr + meta_block_size + (m c.addr).size ≤ (m c.addr).next) =
        ground (arith, Chain-start m (end_of c) hi (m c.addr).next cs rest) in
      elim (Bool-cases (leb (meta_block_size + 4) (sub64 (m c.addr).size s))) [
        | inl roomy ↦ halved-Carved (trim_halved m s c.addr le lt apart roomy)
        | inr tight ↦ whole-Carved (trim_whole m s c.addr le lt apart tight)
      ]

first_fit-ge :
    (m : ℕ → MetaBlock) (s lo hi p : ℕ) (cs : List Cell)
    → Chain m lo hi p cs
    → first_fit s cs ≢ 0
    → lo ≤ first_fit s cs
unfolding first_fit
first_fit-ge m s lo hi p [] h ne = absurd (ne refl)
first_fit-ge m s lo hi p (c ∷ cs) (at, above, holds, rest) ne =
    ground (arith, first_fit-ge m s (end_of c) hi (m c.addr).next cs rest)

after-below : (m : ℕ → MetaBlock) (s b a : ℕ) → a < b → SameLink (after m s b a) (m a)
unfolding trim split
after-below m s b a lt = ground arith

-- Putting the first cell that suits to use is what the headers then say.
pub reuse-Chain :
    (m : ℕ → MetaBlock) (s lo hi p : ℕ) (cs : List Cell)
    → hi < 2 ^ 64
    → first_fit s cs ≢ 0
    → Chain m lo hi p cs
    → Chain (after m s (first_fit s cs)) lo hi p (reuse s cs)
unfolding first_fit reuse
reuse-Chain m s lo hi p [] small ne h = absurd (ne refl)
reuse-Chain m s lo hi p (c ∷ cs) small ne (at, above, holds, rest) = elim (Bool-cases (suits s c)) [
  | inl fit ↦
      rw (fit, at)
        (Chain-lower (after m s c.addr) lo c.addr hi c.addr (carve s c cs) above
          (carve-Chain m s hi c cs holds fit small rest))
  | inr unfit ↦
      let found : first_fit s cs ≢ 0 = ground arith in
      let b = first_fit s cs in
      let far : end_of c ≤ b = first_fit-ge m s (end_of c) hi (m c.addr).next cs rest found in
      let same : SameLink (after m s b c.addr) (m c.addr) =
        after-below m s b c.addr (omega arith) in
      rw unfit (
        Chain-cons lo hi c (reuse s cs) at above (Holds-cong m (after m s b) c same holds) same.next
          refl (reuse-Chain m s (end_of c) hi (m c.addr).next cs small found rest))
]
