-- ===== src/Vfs/Search.antt =====
-- The searches of src/fs/vfs.c: a free inode, a free block, a file by its name.
use tomato_os.Base.{
  ℕ, zero, suc, ◌+◌, ◌≤◌, ◌<◌, ◌≡◌, refl, sym, ap, ◌∙◌, inl, inr, Bool, true, false, Option, none,
  some, arith, dec_lt, ◌==◌, if◌then◌else◌, Bool-cases,
}
use tomato_os.Base.Bytes.{Bytes}
use tomato_os.Vfs.{File, Inode, free_inode, free_block, find_file, same_name}
use mathlib.Core.Path.{subst}
use mathlib.Core.Bool.{true≢false}
use mathlib.Core.Option.{some-ne-none, some-injective}

-- The search for an index below `n`: the first from `i` on that passes `test`, or none.
pub data First (test : ℕ → Bool) (i n : ℕ) : Option ℕ → Type 0 where
  absent : ((j : ℕ) → i ≤ j → j < n → test j ≡ false) → First test i n none
  present :
      (j : ℕ)
      → i ≤ j
      → j < n
      → test j ≡ true
      → ((k : ℕ) → i ≤ k → k < j → test k ≡ false)
      → First test i n (some j)

-- The loop that all three searches are.
search_for : (test : ℕ → Bool) (i n : ℕ) → Option ℕ
search_for test i zero = none
search_for test i (suc n) = let rest = search_for test (i + 1) n in if test i then some i else rest

First-step :
    (test : ℕ → Bool) (i n : ℕ) {r : Option ℕ}
    → i < n
    → test i ≡ false
    → First test (i + 1) n r
    → First test i n r
First-step test i n lt no_i (absent none_found) = absent (λ j le lt'. elim (dec_lt i j) [
  | yes past ↦ none_found j (omega arith) lt'
  | no here ↦ subst (λ k. test k ≡ false) (omega arith) no_i
])
First-step test i n lt no_i (present j le lt' found least) =
    present j (omega arith) lt' found (λ k le' lt''. elim (dec_lt i k) [
      | yes past ↦ least k (omega arith) lt''
      | no here ↦ subst (λ l. test l ≡ false) (omega arith) no_i
    ])

search_for-First : (test : ℕ → Bool) (i n : ℕ) → First test i (i + n) (search_for test i n)
unfolding search_for
search_for-First test i zero = absent (λ j le lt. absurd (omega arith))
search_for-First test i (suc n) = elim (Bool-cases (test i)) [
  | inl found ↦
      rw found (present i (omega arith) (omega arith) found (λ k le lt. absurd (omega arith)))
  | inr no_i ↦ rw no_i (
      First-step test i (i + suc n) (omega arith) no_i (
        subst (λ m. First test (i + 1) m (search_for test (i + 1) n)) (omega arith)
          (search_for-First test (i + 1) n)))
]

search-First : (test : ℕ → Bool) (n : ℕ) → First test 0 n (search_for test 0 n)
search-First test n =
    subst (λ m. First test 0 m (search_for test 0 n)) (omega arith) (search_for-First test 0 n)

free_inode-search :
    (table : ℕ → Inode) (i n : ℕ) → free_inode table i n ≡ search_for (λ j. (table j).mode == 0) i n
unfolding free_inode search_for
free_inode-search table i zero = refl
free_inode-search table i (suc n) =
    ap (λ r. if (table i).mode == 0 then some i else r) (free_inode-search table (i + 1) n)

free_block-search :
    (blocks : ℕ → Bytes) (i n : ℕ) → free_block blocks i n ≡ search_for (λ j. blocks j 0 == 0) i n
unfolding free_block search_for
free_block-search blocks i zero = refl
free_block-search blocks i (suc n) =
    ap (λ r. if blocks i 0 == 0 then some i else r) (free_block-search blocks (i + 1) n)

find_file-search :
    (files : ℕ → File) (name : Bytes) (i n : ℕ)
    → find_file files name i n ≡ search_for (λ j. same_name (files j).name name) i n
unfolding find_file search_for
find_file-search files name i zero = refl
find_file-search files name i (suc n) =
    ap (λ r. if same_name (files i).name name then some i else r)
      (find_file-search files name (i + 1) n)

-- Each search gives the first index that passes its test.
pub free_inode-First :
    (table : ℕ → Inode) (n : ℕ) → First (λ j. (table j).mode == 0) 0 n (free_inode table 0 n)
free_inode-First table n =
    subst (First _ 0 n) (sym (free_inode-search table 0 n)) (search-First _ n)

pub free_block-First :
    (blocks : ℕ → Bytes) (n : ℕ) → First (λ j. blocks j 0 == 0) 0 n (free_block blocks 0 n)
free_block-First blocks n =
    subst (First _ 0 n) (sym (free_block-search blocks 0 n)) (search-First _ n)

pub find_file-First :
    (files : ℕ → File) (name : Bytes) (n : ℕ)
    → First (λ j. same_name (files j).name name) 0 n (find_file files name 0 n)
find_file-First files name n =
    subst (First _ 0 n) (sym (find_file-search files name 0 n)) (search-First _ n)

pub First-none :
    {test : ℕ → Bool} {i n : ℕ} {r : Option ℕ}
    → First test i n r
    → r ≡ none
    → (j : ℕ) → i ≤ j
    → j < n
    → test j ≡ false
First-none (absent f) e = f
First-none (present j le lt found least) e = absurd (some-ne-none _ e)

pub First-some :
    {test : ℕ → Bool} {i n : ℕ} {r : Option ℕ} (k : ℕ)
    → First test i n r
    → i ≤ k
    → k < n
    → test k ≡ true
    → ((j : ℕ) → i ≤ j → j < k → test j ≡ false)
    → r ≡ some k
First-some {test} k (absent f) le lt found least = absurd (true≢false (sym found ∙ f k le lt))
First-some {test} k (present j le' lt' found' least') le lt found least = elim (dec_lt j k) [
  | yes before ↦ absurd (true≢false (sym found' ∙ least j le' before))
  | no no_before ↦ elim (dec_lt k j) [
    | yes after ↦ absurd (true≢false (sym found ∙ least' k le after))
    | no same ↦ ap some (omega arith)
  ]
]

pub First-found :
    {test : ℕ → Bool} {i n : ℕ} {r : Option ℕ} (k : ℕ)
    → First test i n r
    → r ≡ some k
    → (k < n) × (test k ≡ true)
First-found k (absent f) e = absurd (some-ne-none k (sym e))
First-found {test} {i} {n} k (present j le lt found least) e =
    subst (λ m. (m < n) × (test m ≡ true)) (some-injective j k e) (lt, found)

pub First-absent :
    {test : ℕ → Bool} {i n : ℕ} {r : Option ℕ}
    → First test i n r
    → ((j : ℕ) → i ≤ j → j < n → test j ≡ false)
    → r ≡ none
First-absent (absent f) none_found = refl
First-absent (present j le lt found least) none_found =
    absurd (true≢false (sym found ∙ none_found j le lt))
