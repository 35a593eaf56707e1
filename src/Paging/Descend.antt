-- ===== src/Paging/Descend.antt =====
-- The way of `map_page` of src/mem/paging.c down to the table of a page.
use tomato_os.Base.{
  ℕ, suc, ◌<◌, ◌≡◌, refl, ap, ◌∙◌, ◌≢◌, ◌⊎◌, inl, inr, true, none, some, arith, if◌then◌else◌,
}
use tomato_os.Base.Word.{add64}
use tomato_os.Paging.{Paging, frame, next_table, index, get_physical_address, ensure}
use tomato_os.Paging.Tree.{IsRegion, IsTree, reach, index_at}
use tomato_os.Paging.Walk.{Grown}
use tomato_os.Paging.Grow.{More, More-trans, More-IsFull, IsFull, ensure-More}
use tomato_os.Paging.Ensure.{ensure_cases}

-- The entry `i` of the table `x` leads to `y`.
abbrev Link : Paging → (x i y : ℕ) → Type 0
Link m x i y = ((m.tables x i).present ≡ true) × (next_table m (m.tables x i) ≡ y)

Link-Grown :
    {m m' : Paging} {t j : ℕ} (tree : IsTree m)
    → Grown m tree t j m'
    → (x i y : ℕ) → tree.level x ≢ 0
    → Link m x i y
    → Link m' x i y
Link-Grown {m} {m'} tree g x i y old (there, leads) =
    let same = g.keeps x i old there in
    (
      ap (λ e. e.present) same ∙ there,
      ap (λ e. add64 (frame e) m'.hhdm) same ∙ ap (add64 (frame (m.tables x i))) g.hhdm ∙ leads,
    )

Link-level :
    (m : Paging) (tree : IsTree m) (x i y k : ℕ)
    → tree.level x ≡ suc k
    → 0 < k
    → i < 512
    → Link m x i y
    → tree.level y ≡ k
Link-level m tree x i y k at deep lt (there, leads) =
    let c = tree.child x i lt (omega arith) there in omega (arith, c.0, ap tree.level leads)

reach-zero : (m : Paging) (t va : ℕ) → reach m 0 t va ≡ some t
unfolding reach
reach-zero m t va = refl

reach-Link :
    (m : Paging) (k x y va : ℕ)
    → Link m x (index_at va (suc k)) y
    → reach m (suc k) x va ≡ reach m k y va
unfolding reach
reach-Link m k x y va (there, leads) =
    ap (λ b. if b then reach m k (next_table m (m.tables x (index_at va (suc k)))) va else none)
      there
    ∙ ap (λ t. reach m k t va) leads

-- The states and tables on the way of one round.
module _ (m : Paging) (va : ℕ) where
  abbrev pub m1 : Paging
  m1 = ensure m m.pml4 (index va 39)

  abbrev pub pdp : ℕ
  pdp = next_table m1 (m1.tables m1.pml4 (index va 39))

  abbrev pub m2 : Paging
  m2 = ensure m1 pdp (index va 30)

  abbrev pub pd : ℕ
  pd = next_table m2 (m2.tables pdp (index va 30))

  abbrev pub m3 : Paging
  m3 = ensure m2 pd (index va 21)

  abbrev pub pt : ℕ
  pt = next_table m3 (m3.tables pd (index va 21))

  pub tables-More : IsRegion m.pmm → More m.pmm m1.pmm × More m1.pmm m2.pmm × More m2.pmm m3.pmm
  tables-More r =
      let a = ensure-More m m.pml4 (index va 39) r in
      let b = ensure-More m1 pdp (index va 30) a.region in
      (a, b, ensure-More m2 pd (index va 21) b.region)

  -- All three tables are there, and the walk comes to the last one.
  pub record Ready : Type 0 where
    pub tree : IsTree m3
    pub hhdm : m3.hhdm ≡ m.hhdm
    pub leads : reach m3 3 m3.pml4 va ≡ some pt
    pub low : tree.level pt ≡ 1
    pub same : (vb : ℕ) → get_physical_address m3 vb ≡ get_physical_address m vb

  ready :
      (tree : IsTree m) (a : Grown m tree m.pml4 (index va 39) m1)
      (b : Grown m1 a.grown pdp (index va 30) m2)
      → Grown m2 b.grown pd (index va 21) m3
      → Ready
  ready tree a b c =
      let link4 : Link m1 m1.pml4 (index va 39) pdp =
        (ap (λ t. (m1.tables t (index va 39)).present) a.root ∙ a.there, refl) in
      let link3 : Link m2 pdp (index va 30) pd = (b.there, refl) in
      let link2 : Link m3 pd (index va 21) pt = (c.there, refl) in
      let level4 = a.grown.root.0 in
      let level3 : a.grown.level pdp ≡ 3 =
        Link-level m1 a.grown m1.pml4 (index va 39) pdp 3 level4 (omega arith) (omega arith)
          link4 in
      let level3' : b.grown.level pdp ≡ 3 = (b.places pdp (omega arith)).0 ∙ level3 in
      let level2 : b.grown.level pd ≡ 2 =
        Link-level m2 b.grown pdp (index va 30) pd 2 level3' (omega arith) (omega arith) link3 in
      let level2' : c.grown.level pd ≡ 2 = (c.places pd (omega arith)).0 ∙ level2 in
      let link4' = Link-Grown a.grown b m1.pml4 (index va 39) pdp (omega arith) link4 in
      let link4'' =
        Link-Grown b.grown c m1.pml4 (index va 39) pdp
          (omega (arith, (b.places m1.pml4 (omega arith)).0)) link4' in
      let link3' = Link-Grown b.grown c pdp (index va 30) pd (omega arith) link3 in
      record {
        tree = c.grown;
        hhdm = c.hhdm ∙ b.hhdm ∙ a.hhdm;
        leads =
            ap (λ t. reach m3 3 t va) (c.root ∙ b.root)
            ∙ reach-Link m3 2 m1.pml4 pdp va link4''
            ∙ reach-Link m3 1 pdp pd va link3'
            ∙ reach-Link m3 0 pd pt va link2
            ∙ reach-zero m3 pt va;
        low = Link-level m3 c.grown pd (index va 21) pt 1 level2' (omega arith) (omega arith) link2;
        same = λ vb. c.same vb ∙ b.same vb ∙ a.same vb;
      }

  pub tables_cases : IsTree m → IsFull m3.pmm ⊎ Ready
  tables_cases tree =
      let (more1, more2, more3) = tables-More tree.region in
      elim (ensure_cases m tree m.pml4 (index va 39) (omega (arith, tree.root)) (omega arith)) [
        | inl full ↦ inl (More-IsFull (More-trans more2 more3) full)
        | inr a ↦
            let level4 = a.grown.root.0 in
            let level3 : a.grown.level pdp ≡ 3 =
              Link-level m1 a.grown m1.pml4 (index va 39) pdp 3 level4 (omega arith) (omega arith)
                (ap (λ t. (m1.tables t (index va 39)).present) a.root ∙ a.there, refl) in
            elim (ensure_cases m1 a.grown pdp (index va 30) (omega arith) (omega arith)) [
              | inl full ↦ inl (More-IsFull more3 full)
              | inr b ↦
                  let level3' : b.grown.level pdp ≡ 3 = (b.places pdp (omega arith)).0 ∙ level3 in
                  let level2 : b.grown.level pd ≡ 2 =
                    Link-level m2 b.grown pdp (index va 30) pd 2 level3' (omega arith) (omega arith)
                      (b.there, refl) in
                  elim (ensure_cases m2 b.grown pd (index va 21) (omega arith) (omega arith)) [
                    | inl full ↦ inl full
                    | inr c ↦ inr (ready tree a b c)
                  ]
            ]
      ]
