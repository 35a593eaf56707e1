-- ===== src/Paging/Walk.antt =====
-- When two states of the tables of src/mem/paging.c lead from each address to the same place.
use tomato_os.Base.{
  ℕ, zero, suc, ◌≤◌, ◌≡◌, refl, ap, ◌≢◌, ◌⊎◌, inl, inr, true, false, arith, Bool-cases,
}
use tomato_os.Paging.{get_physical_address, Paging, zero_entry, next_table}
use tomato_os.Paging.Tree.{IsTree, reach, final, page_in, index_at, index_at-lt}

-- The entries of the tables of `m` are the same in `m'`, but for absent ones that lead to a table
-- `table` with nothing in it.
pub record Extends (m : Paging) (tree : IsTree m) (m' : Paging) (table : ℕ) : Type 0 where
  pub hhdm : m'.hhdm ≡ m.hhdm
  pub blank : (j : ℕ) → m'.tables table j ≡ zero_entry
  pub keeps :
      (x j : ℕ) → tree.level x ≢ 0 → (m.tables x j).present ≡ true → m'.tables x j ≡ m.tables x j
  pub absent :
      (x j : ℕ)
      → tree.level x ≢ 0
      → (m.tables x j).present ≡ false
      → ((m'.tables x j).present ≡ false)
        ⊎ ((2 ≤ tree.level x) × (next_table m' (m'.tables x j) ≡ table))

module _ (m m' : Paging) (tree : IsTree m) (table va : ℕ) (ext : Extends m tree m' table) where
  blank_final : (k : ℕ) → final m' va (reach m' k table va) ≡ 0
  unfolding final reach
  blank_final zero = rw (ext.blank (index_at va 0)) refl
  blank_final (suc k) = rw (ext.blank (index_at va (suc k))) refl

  pub final-reach :
      (k x : ℕ) → tree.level x ≡ suc k → final m' va (reach m' k x va) ≡ final m va (reach m k x va)
  unfolding final reach
  final-reach zero x at =
      let j = index_at va 0 in
      elim (Bool-cases (m.tables x j).present) [
        | inl there ↦ ap (λ e. page_in e va) (ext.keeps x j (omega arith) there)
        | inr gone ↦ elim (ext.absent x j (omega arith) gone) [
          | inl still ↦ rw (still, gone) refl
          | inr (high, _) ↦ absurd (omega arith)
        ]
      ]
  final-reach (suc k) x at =
      let j = index_at va (suc k) in
      elim (Bool-cases (m.tables x j).present) [
        | inl there ↦
            let e = m.tables x j in
            let same = ext.keeps x j (omega arith) there in
            let below =
              final-reach k (next_table m e)
                (omega (arith, (tree.child x j (index_at-lt va (suc k)) (omega arith) there).0)) in
            rw (same, there, ext.hhdm) below
        | inr gone ↦ elim (ext.absent x j (omega arith) gone) [
          | inl still ↦ rw (still, gone) refl
          | inr (high, leads) ↦ elim (Bool-cases (m'.tables x j).present) [
            | inr still ↦ rw (still, gone) refl
            | inl now ↦ rw (gone, now, leads) (blank_final k)
          ]
        ]
      ]

-- The tree has a table at the entry, and leads from all addresses to where it did before.
pub record Grown (m : Paging) (tree : IsTree m) (t i : ℕ) (m' : Paging) : Type 0 where
  pub grown : IsTree m'
  pub root : m'.pml4 ≡ m.pml4
  pub hhdm : m'.hhdm ≡ m.hhdm
  pub places :
      (x : ℕ) → tree.level x ≢ 0 → (grown.level x ≡ tree.level x) × (grown.prefix x ≡ tree.prefix x)
  pub keeps :
      (x j : ℕ) → tree.level x ≢ 0 → (m.tables x j).present ≡ true → m'.tables x j ≡ m.tables x j
  pub there : (m'.tables t i).present ≡ true
  pub same : (va : ℕ) → get_physical_address m' va ≡ get_physical_address m va
