-- ===== src/Kmem/Append.antt =====
-- A block put at the break by `extend_heap` of src/kmem/kmalloc.c.
use mathlib.Core.Path.{subst, sym, ◌∙◌}
use tomato_os.Base.{ℕ, ◌+◌, ◌≤◌, ◌<◌, ◌≡◌, ◌≢◌, false, List, [], ◌∷◌, ◌++◌, arith, refl}
use tomato_os.Kmem.{MetaBlock, meta_block_size, data_of, put, set_next}
use tomato_os.Kmem.Chain.{
  Cell, end_of, Holds, Holds-cong, Chain, Chain-cons, Chain-lower, Chain-le, SameLink,
}
use tomato_os.Kmem.Find.{suits, first_fit, before_fit}

-- The block that `extend_heap` makes.
abbrev pub new_cell : (addr s : ℕ) → Cell
new_cell addr s = record { addr = addr; size = s; free = false }

abbrev pub new_block : (addr s : ℕ) → MetaBlock
new_block addr s = record { free = false; size = s; next = 0; prev = 0; ptr = data_of addr }

module _ (m : ℕ → MetaBlock) (s hi : ℕ) where
  abbrev pub linked : ℕ → ℕ → MetaBlock
  linked l = set_next (put m hi (new_block hi s)) l hi

  abbrev top : ℕ
  top = hi + meta_block_size + s

  linked_new : (l : ℕ) → l ≢ hi → linked l hi ≡ new_block hi s
  linked_new l ne = ground arith

  linked_last : (l : ℕ) → l ≢ hi → linked l l ≡ record (m l) { next = hi }
  linked_last l ne = ground arith

  linked_other : (l a : ℕ) → a ≢ l → a ≢ hi → SameLink (linked l a) (m a)
  linked_other l a ne ne' = ground arith

  alone : (l : ℕ) → l ≢ hi → Chain (linked l) hi top hi (new_cell hi s ∷ [])
  alone l ne = (
    refl,
    omega arith,
    ground (arith, linked_new l ne),
    (ground (arith, linked_new l ne), omega arith),
  )

  before_fit-nil : (last : ℕ) → before_fit s last [] ≡ last
  unfolding before_fit
  before_fit-nil last = refl

  before_fit-cons :
      (last : ℕ) (c : Cell) (cs : List Cell)
      → suits s c ≡ false
      → before_fit s last (c ∷ cs) ≡ before_fit s c.addr cs
  unfolding before_fit
  before_fit-cons last c cs unfit = rw unfit

  -- The search ends at a block behind `lo`, and before the break.
  pub before_fit-bounds :
      (lo p last bound : ℕ) (cs : List Cell)
      → Chain m lo hi p cs
      → bound ≤ last
      → bound ≤ lo
      → last < hi
      → (bound ≤ before_fit s last cs) × (before_fit s last cs < hi)
  unfolding before_fit
  before_fit-bounds lo p last bound [] h b b' u = (b, u)
  before_fit-bounds lo p last bound (c ∷ cs) (at, above, holds, rest) b b' u = ground (
    arith,
    Chain-le m (end_of c) hi (m c.addr).next cs rest,
    before_fit-bounds (end_of c) (m c.addr).next c.addr bound cs rest,
  )

  pub append-Chain :
      (lo p last : ℕ) (c : Cell) (cs : List Cell)
      → first_fit s (c ∷ cs) ≡ 0
      → 0 < lo
      → Chain m lo hi p (c ∷ cs)
      → Chain (linked (before_fit s last (c ∷ cs))) lo top p (c ∷ cs ++ new_cell hi s ∷ [])
  unfolding first_fit
  append-Chain lo p last c [] none_fits pos (at, above, holds, rest) =
      let unfit : suits s c ≡ false = ground arith in
      let ne : c.addr ≢ hi = omega (arith, rest.1) in
      let l = c.addr in
      let held : Holds (linked l) c = ground (arith, linked_last l ne) in
      let next : (linked l l).next ≡ hi = ground (arith, linked_last l ne) in
      subst (λ l. Chain (linked l) lo top p (c ∷ new_cell hi s ∷ []))
        (sym (before_fit-cons last c [] unfit ∙ before_fit-nil c.addr))
        (Chain-cons lo top c (new_cell hi s ∷ []) at above held next refl
          (Chain-lower (linked l) (end_of c) hi top hi (new_cell hi s ∷ []) rest.1 (alone l ne)))
  append-Chain lo p last c (d ∷ cs) none_fits pos (at, above, holds, (at', above', holds', rest')) =
      let unfit : suits s c ≡ false = ground arith in
      let l = before_fit s c.addr (d ∷ cs) in
      let none_behind : first_fit s (d ∷ cs) ≡ 0 = ground arith in
      let far : (end_of c ≤ l) × (l < hi) =
        let unfit' : suits s d ≡ false = ground arith in
        ground (
          arith,
          before_fit-cons c.addr d cs unfit',
          before_fit-bounds (end_of d) (m d.addr).next d.addr (end_of c) cs rest',
          Chain-le m (end_of d) hi (m d.addr).next cs rest',
        ) in
      let same : SameLink (linked l c.addr) (m c.addr) =
        linked_other l c.addr (omega (arith, far)) (omega (arith, far)) in
      subst (λ l. Chain (linked l) lo top p (c ∷ d ∷ cs ++ new_cell hi s ∷ []))
        (sym (before_fit-cons last c (d ∷ cs) unfit))
        (Chain-cons lo top c (d ∷ cs ++ new_cell hi s ∷ []) at above
          (Holds-cong m (linked l) c same holds) same.next refl
          (append-Chain (end_of c) (m c.addr).next c.addr d cs none_behind (omega arith)
            (at', above', holds', rest')))
