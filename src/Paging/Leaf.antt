-- ===== src/Paging/Leaf.antt =====
-- What a store in a table of level 1 does to the addresses of src/mem/paging.c.
use tomato_os.Base.{
  ℕ, zero, suc, ◌/◌, ◌%◌, ◌^◌, ◌≤◌, ◌≡◌, refl, sym, ap, ◌∙◌, ◌≢◌, ◌⊎◌, inl, inr, true, ◌&&◌, Option,
  none, some, arith, ℕ_discrete, ◌==◌, if◌then◌else◌, ==_refl, ==_true, ne→==, Bool-cases,
}
use tomato_os.Paging.{PageEntry, Paging, next_table, set_entry, get_physical_address}
use tomato_os.Paging.Tree.{
  IsTree, reach, reach-place, final, page_in, index_at, index_at-lt, path_at,
  get_physical_address-reach,
}

-- The number of the page in the 48 bits that the tables translate.
abbrev pub page_number : ℕ → ℕ
page_number va = va % 2 ^ 48 / 4096

abbrev pub store : Paging → (t j : ℕ) → PageEntry → Paging
store m t j e = record m { tables = set_entry m.tables t j e }

index_at-page :
    (va vb k : ℕ) → page_number va ≡ page_number vb → k ≤ 3 → index_at va k ≡ index_at vb k
index_at-page va vb zero e le = omega arith
index_at-page va vb (suc zero) e le = omega arith
index_at-page va vb (suc (suc zero)) e le = omega arith
index_at-page va vb (suc (suc (suc zero))) e le = omega arith
index_at-page va vb (suc (suc (suc (suc k)))) e le = absurd (omega arith)

-- Addresses of one page share their walk.
reach-page :
    (m : Paging) (k t va vb : ℕ)
    → page_number va ≡ page_number vb
    → k ≤ 3
    → reach m k t va ≡ reach m k t vb
unfolding reach
reach-page m zero t va vb e le = refl
reach-page m (suc k) t va vb e le = rw (index_at-page va vb (suc k) e le) (
    ap (λ r. if (m.tables t (index_at vb (suc k))).present then r else none)
      (reach-page m k _ va vb e (omega arith)))

module _ (m : Paging) (tree : IsTree m) (pt j : ℕ) (e : PageEntry) (low : tree.level pt ≡ 1) where
  store-other : (x i : ℕ) → ((x ≢ pt) ⊎ (i ≢ j)) → (store m pt j e).tables x i ≡ m.tables x i
  store-other x i (inl other) = rw (ne→== x pt other) refl
  store-other x i (inr other) = ground (arith, ne→== i j other)

  store-high : (x i : ℕ) → 2 ≤ tree.level x → (store m pt j e).tables x i ≡ m.tables x i
  store-high x i high = store-other x i (inl (λ same. omega (arith, ap tree.level same)))

  pub store-IsTree : IsTree (store m pt j e)
  store-IsTree = record {
    region = tree.region;
    level = tree.level;
    prefix = tree.prefix;
    root = tree.root;
    child = λ x i bound high there.
        rw (store-high x i high)
          (tree.child x i bound high (sym (ap (λ y. y.present) (store-high x i high)) ∙ there));
    taken = tree.taken;
  }

  reach-store :
      (k x va : ℕ) → k ≤ 3 → tree.level x ≡ suc k → reach (store m pt j e) k x va ≡ reach m k x va
  unfolding reach
  reach-store zero x va le at = refl
  reach-store (suc k) x va le at =
      let i = index_at va (suc k) in
      let same = store-high x i (omega arith) in
      rw same (elim (Bool-cases (m.tables x i).present) [
        | inr gone ↦ rw gone refl
        | inl there ↦
            let c = tree.child x i (index_at-lt va (suc k)) (omega arith) there in
            ap (λ r. if (m.tables x i).present then r else none)
              (reach-store k (next_table m (m.tables x i)) va (omega arith) (omega (arith, c.0)))
      ])

  -- The store is seen at the addresses of the page that the walk leads to, and at no others.
  pub get_physical_address-store :
      (va vb : ℕ)
      → j ≡ index_at va 0
      → reach m 3 m.pml4 va ≡ some pt
      → get_physical_address (store m pt j e) vb
        ≡ (if page_number vb == page_number va then page_in e vb else get_physical_address m vb)
  unfolding final
  get_physical_address-store va vb at leads =
      get_physical_address-reach (store m pt j e) vb
      ∙ ap (final (store m pt j e) vb) (reach-store 3 m.pml4 vb (omega arith) tree.root.0)
      ∙ elim (ℕ_discrete (page_number vb) (page_number va)) [
        | yes here ↦
            let hit : (pt == pt && j == j) ≡ true = rw (==_refl pt, ==_refl j) refl in
            let index : index_at vb 0 ≡ j = index_at-page vb va 0 here (omega arith) ∙ sym at in
            ap (final (store m pt j e) vb) (reach-page m 3 m.pml4 vb va here (omega arith) ∙ leads)
            ∙ ap (λ i. page_in ((store m pt j e).tables pt i) vb) index
            ∙ ap (λ b. page_in (if b then e else m.tables pt j) vb) hit
            ∙ sym
                (ap (λ b. if b then page_in e vb else get_physical_address m vb) (==_true _ _ here))
        | no away ↦
            elsewhere away (reach m 3 m.pml4 vb) (λ pt' h.
              reach-place m tree 3 m.pml4 vb (omega arith) tree.root.0 (omega (arith, tree.root)) h)
            ∙ sym (get_physical_address-reach m vb)
            ∙ sym (ap (λ b. if b then page_in e vb else get_physical_address m vb) (ne→== _ _ away))
      ]
    where
      elsewhere :
          page_number vb ≢ page_number va
          → (r : Option ℕ)
          → ((pt' : ℕ) → r ≡ some pt' → (tree.level pt' ≡ 1) × (tree.prefix pt' ≡ path_at vb 0))
          → final (store m pt j e) vb r ≡ final m vb r
      elsewhere away none place = refl
      elsewhere away (some pt') place =
          ap (λ y. page_in y vb)
            (store-other pt' (index_at vb 0) (elim (ℕ_discrete pt' pt) [
              | no other ↦ inl other
              | yes same ↦ inr (λ same'. away (
                  omega (
                    arith,
                    place pt' refl,
                    at,
                    ap tree.prefix same,
                    reach-place m tree 3 m.pml4 va (omega arith) tree.root.0
                        (omega (arith, tree.root)) leads,
                  )))
            ]))
