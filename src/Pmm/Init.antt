-- ===== src/Pmm/Init.antt =====
-- `init_PMM` of src/mem/pmm.c: which region it picks, and which bits the bitmap starts with.
use mathlib.Core.Path.{subst}
use native.Mathlib.Nat.{le_trans}
use tomato_os.Base.{
  ℕ, ◌+◌, ◌/◌, ◌≤◌, ◌≡◌, ◌≢◌, ◌⊎◌, inl, inr, refl, Option, none, some, List, [], ◌∷◌, arith, ◌&&◌,
  ◌||◌, not, ◌==◌, ltb, Bool-cases, Option-cases,
}
use tomato_os.Pmm.{
  MemmapEntry, memmap_usable, Pmm, block_size, bitmap_pages, largest_usable, clear_bytes, init_pmm,
  start_in,
}
use tomato_os.Pmm.Bitmap.{Bytes, IsBytes, bitmap_test, bitmap_test-zero, bitmap_test-cong}
use tomato_os.Pmm.Runs.{bitmap_test-set_run, set_run-IsBytes}

-- Every usable entry is at most `n` long.
abbrev pub UsableUpTo : ℕ → List MemmapEntry → Type 0
UsableUpTo n [] = Unit {0}
UsableUpTo n (e ∷ es) = (e.kind ≡ memmap_usable → e.length ≤ n) × UsableUpTo n es

-- `b` is an entry of the map.
abbrev pub Listed : MemmapEntry → List MemmapEntry → Type 0
Listed b [] = ⊥
Listed b (e ∷ es) = (b ≡ e) ⊎ Listed b es

abbrev pub NoneUsable : List MemmapEntry → Type 0
NoneUsable [] = Unit {0}
NoneUsable (e ∷ es) = (e.kind ≢ memmap_usable) × NoneUsable es

-- A usable entry of the map that no usable entry exceeds in length, or the absence of any.
abbrev pub Largest : List MemmapEntry → Option MemmapEntry → Type 0
Largest es none = NoneUsable es
Largest es (some b) = Listed b es × (b.kind ≡ memmap_usable) × UsableUpTo b.length es

-- The same for the entries behind a best one so far.
abbrev LargestFrom : MemmapEntry → List MemmapEntry → Option MemmapEntry → Type 0
LargestFrom a es none = ⊥
LargestFrom a es (some b) =
    ((b ≡ a) ⊎ Listed b es)
    × (b.kind ≡ memmap_usable)
    × UsableUpTo b.length es
    × (a.length ≤ b.length)

LargestFrom-skip :
    (a e : MemmapEntry) (es : List MemmapEntry) (r : Option MemmapEntry)
    → (e.kind ≡ memmap_usable → e.length ≤ a.length)
    → LargestFrom a es r
    → LargestFrom a (e ∷ es) r
LargestFrom-skip a e es none low l = l
LargestFrom-skip a e es (some b) low (inl at, usable, most, le) =
    (inl at, usable, ((λ u. le_trans (low u) le), most), le)
LargestFrom-skip a e es (some b) low (inr at, usable, most, le) =
    (inr (inr at), usable, ((λ u. le_trans (low u) le), most), le)

LargestFrom-take :
    (a e : MemmapEntry) (es : List MemmapEntry) (r : Option MemmapEntry)
    → a.length ≤ e.length
    → LargestFrom e es r
    → LargestFrom a (e ∷ es) r
LargestFrom-take a e es none low l = l
LargestFrom-take a e es (some b) low (inl at, usable, most, le) =
    (inr (inl at), usable, ((λ u. le), most), le_trans low le)
LargestFrom-take a e es (some b) low (inr at, usable, most, le) =
    (inr (inr at), usable, ((λ u. le), most), le_trans low le)

largest_usable-LargestFrom :
    (a : MemmapEntry) (es : List MemmapEntry)
    → a.kind ≡ memmap_usable
    → LargestFrom a es (largest_usable (some a) es)
unfolding largest_usable
largest_usable-LargestFrom a [] h = (inl refl, h, tt, omega arith)
largest_usable-LargestFrom a (e ∷ es) h = elim (Bool-cases (e.kind == memmap_usable)) [
  | inr other ↦
      rw other
        (LargestFrom-skip a e es _ (λ u. absurd (ground arith)) (largest_usable-LargestFrom a es h))
  | inl usable ↦ elim (Bool-cases (ltb a.length e.length)) [
    | inl more ↦
        rw (usable, more)
          (LargestFrom-take a e es _ (ground arith)
            (largest_usable-LargestFrom e es (ground arith)))
    | inr less ↦
        rw (usable, less)
          (LargestFrom-skip a e es _ (λ u. ground arith) (largest_usable-LargestFrom a es h))
  ]
]

Largest-of_from :
    (e : MemmapEntry) (es : List MemmapEntry) (r : Option MemmapEntry)
    → LargestFrom e es r
    → Largest (e ∷ es) r
Largest-of_from e es none l = absurd l
Largest-of_from e es (some b) (at, usable, most, le) = (at, usable, ((λ u. le), most))

Largest-of_rest :
    (e : MemmapEntry) (es : List MemmapEntry) (r : Option MemmapEntry)
    → e.kind ≢ memmap_usable
    → Largest es r
    → Largest (e ∷ es) r
Largest-of_rest e es none other l = (other, l)
Largest-of_rest e es (some b) other (at, usable, most) =
    (inr at, usable, ((λ u. absurd (other u)), most))

-- `init_PMM` picks a usable entry of the map with the greatest length, and finds none exactly when
-- the map has no usable entry.
pub largest_usable-Largest : (es : List MemmapEntry) → Largest es (largest_usable none es)
unfolding largest_usable
largest_usable-Largest [] = tt
largest_usable-Largest (e ∷ es) = elim (Bool-cases (e.kind == memmap_usable)) [
  | inr other ↦ rw other (Largest-of_rest e es _ (ground arith) (largest_usable-Largest es))
  | inl usable ↦ rw usable (Largest-of_from e es _ (largest_usable-LargestFrom e es (ground arith)))
]

clear_bytes-IsBytes : (n : ℕ) (m : Bytes) → IsBytes m → IsBytes (clear_bytes n m)
unfolding clear_bytes
clear_bytes-IsBytes n m h b = ground (arith, h b)

bitmap_test-clear_bytes :
    (m : Bytes) (j : ℕ) → bitmap_test (clear_bytes 8 m) j ≡ (not (ltb j 64) && bitmap_test m j)
unfolding clear_bytes
bitmap_test-clear_bytes m j =
    ground (arith, bitmap_test-zero (clear_bytes 8 m) j, bitmap_test-cong (clear_bytes 8 m) m j)

module _ (e : MemmapEntry) (memory : Bytes) (bytes : IsBytes memory) where
  pub bitmap_test-start_in :
      (j : ℕ)
      → bitmap_test (start_in e memory).bitmap j ≡ (
          ltb j (bitmap_pages (start_in e memory).bitmap_size)
          || (not (ltb j 64) && bitmap_test memory j))
  unfolding start_in
  bitmap_test-start_in j =
      let marks = bitmap_pages ((e.length / block_size + 7) / 8) in
      ground (
        arith,
        bitmap_test-set_run j (clear_bytes 8 memory) 0 marks (clear_bytes-IsBytes 8 memory bytes),
        bitmap_test-clear_bytes memory j,
      )

  pub start_in-IsBytes : IsBytes (start_in e memory).bitmap
  unfolding start_in
  start_in-IsBytes = set_run-IsBytes _ _ _ (clear_bytes-IsBytes 8 memory bytes)

module _ (entries : List MemmapEntry) (memory : Bytes) {s : Pmm}
    (started : init_pmm entries memory ≡ some s) where
  -- `init_PMM` starts in one of the entries of the map: a longest usable one.
  pub started_in :
      (e : MemmapEntry) × (largest_usable none entries ≡ some e) × (start_in e memory ≡ s)
  unfolding init_pmm
  started_in = ground (arith, Option-cases (largest_usable none entries))

  -- At boot the bits of the pages that hold the bitmap are set. Behind them the bits of the first 64
  -- pages are clear, and from page 64 on a bit is what the region happened to hold, since only 8
  -- bytes of the bitmap are cleared.
  pub bitmap_test-init_pmm :
      IsBytes memory
      → (j : ℕ)
      → bitmap_test s.bitmap j
        ≡ (ltb j (bitmap_pages s.bitmap_size) || (not (ltb j 64) && bitmap_test memory j))
  bitmap_test-init_pmm bytes j =
      let (e, _, eq) = started_in in
      subst
        (λ t.
          bitmap_test t.bitmap j
          ≡ (ltb j (bitmap_pages t.bitmap_size) || (not (ltb j 64) && bitmap_test memory j)))
        eq (bitmap_test-start_in e memory bytes j)
