-- ===== src/Paging/Tree.antt =====
-- The tables of src/mem/paging.c as a tree below the root, and the walk of an address through it.
use tomato_os.Base.{
  ℕ, zero, suc, ◌+◌, ◌*◌, ◌/◌, ◌%◌, ◌^◌, ◌≤◌, ◌<◌, ◌≡◌, ap, ◌∙◌, ◌≢◌, inl, inr, true, Option, none,
  some, arith, if◌then◌else◌, Bool-cases,
}
use tomato_os.Base.Word.{add64}
use tomato_os.Pmm.{Pmm, block_size}
use tomato_os.Pmm.Bitmap.{bitmap_test}
use tomato_os.Pmm.Alloc.{IsValid, page_address}
use tomato_os.Paging.{
  PageEntry, Paging, frame, next_table, phys_to_virt, index, get_physical_address,
}

-- The region of the allocator starts at a page above address 0 and ends within the first 2^40 bytes,
-- which is as far as the shift of an entry's address reaches.
pub record IsRegion (p : Pmm) : Type 0 where
  pub valid : IsValid p
  pub above : 0 < p.physical_base
  pub aligned : p.physical_base % 4096 ≡ 0
  pub low : p.physical_base + p.total_pages * block_size ≤ 2 ^ 40

-- `t` is the address of a page that is in use.
abbrev pub Taken : Paging → ℕ → Type 0
Taken m t =
    (p : ℕ) × (p < m.pmm.total_pages)
    × (bitmap_test m.pmm.bitmap p ≡ true)
    × (t ≡ phys_to_virt m (page_address m.pmm p))

-- Each table has one place: its level, 4 at the root and 1 where pages are mapped, and the bits of
-- the addresses that lead to it. What is no table has level 0.
pub record IsTree (m : Paging) : Type 0 where
  pub region : IsRegion m.pmm
  pub level : ℕ → ℕ
  pub prefix : ℕ → ℕ
  pub root : (level m.pml4 ≡ 4) × (prefix m.pml4 ≡ 0)
  pub child :
      (t i : ℕ)
      → i < 512
      → 2 ≤ level t
      → (m.tables t i).present ≡ true
      → (suc (level (next_table m (m.tables t i))) ≡ level t)
        × (prefix (next_table m (m.tables t i)) ≡ prefix t * 512 + i)
  pub taken : (t : ℕ) → level t ≢ 0 → Taken m t

-- The index of `va` in a table of level `k + 1`, and the bits that lead to the table.
abbrev pub index_at : (va k : ℕ) → ℕ
index_at va k = index va (12 + 9 * k)

abbrev pub path_at : (va k : ℕ) → ℕ
path_at va k = va % 2 ^ 48 / 2 ^ (12 + 9 * suc k)

-- The table of level 1 that the walk from the table `t`, of level `k + 1`, comes to.
unfoldable pub reach : (m : Paging) (k t va : ℕ) → Option ℕ
reach m zero t va = some t
reach m (suc k) t va =
    let e = m.tables t (index_at va (suc k)) in
    let below = reach m k (next_table m e) va in if e.present then below else none

-- The end of the walk.
abbrev pub page_in : PageEntry → ℕ → ℕ
page_in e va = if e.present then add64 (frame e) (va % 4096) else 0

unfoldable pub final : (m : Paging) (va : ℕ) → Option ℕ → ℕ
final m va none = 0
final m va (some pt) = page_in (m.tables pt (index_at va 0)) va

pub get_physical_address-reach :
    (m : Paging) (va : ℕ) → get_physical_address m va ≡ final m va (reach m 3 m.pml4 va)
unfolding get_physical_address reach final
get_physical_address-reach m va = ground arith

-- The bits of an address fall into those that lead to a table and its index in the table.
pub path_at-suc : (va k : ℕ) → k < 3 → path_at va (suc k) * 512 + index_at va (suc k) ≡ path_at va k
path_at-suc va zero lt = omega arith
path_at-suc va (suc zero) lt = omega arith
path_at-suc va (suc (suc zero)) lt = omega arith
path_at-suc va (suc (suc (suc k))) lt = absurd (omega arith)

pub index_at-lt : (va k : ℕ) → index_at va k < 512
index_at-lt va k = omega arith

-- The level 1 table that a walk comes to has the place of the address.
pub reach-place :
    (m : Paging) (tree : IsTree m) (k t va : ℕ)
    → k ≤ 3
    → tree.level t ≡ suc k
    → tree.prefix t ≡ path_at va k
    → {pt : ℕ} → reach m k t va ≡ some pt
    → (tree.level pt ≡ 1) × (tree.prefix pt ≡ path_at va 0)
unfolding reach
reach-place m tree zero t va le at path h = ground arith
reach-place m tree (suc k) t va le at path {pt} h =
    let e = m.tables t (index_at va (suc k)) in
    elim (Bool-cases e.present) [
      | inr absent ↦ absurd (ground arith)
      | inl there ↦
          let c = tree.child t (index_at va (suc k)) (index_at-lt va (suc k)) (omega arith) there in
          reach-place m tree k (next_table m e) va (omega arith) (omega arith)
            (c.1
              ∙ ap (λ (p : ℕ). p * 512 + index_at va (suc k)) path
              ∙ path_at-suc va k (omega arith))
            (ground arith)
    ]
