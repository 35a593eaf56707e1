-- ===== src/Paging/Attach.antt =====
-- What the tables are after `allocateEntry` of src/mem/paging.c has put a cleared page in an entry.
use tomato_os.Base.{
  ℕ, suc, ◌+◌, ◌-◌, ◌*◌, ◌≤◌, ◌<◌, ◌≡◌, refl, sym, ap, ◌∙◌, ◌≢◌, ◌⊎◌, inl, inr, true, false, arith,
  ℕ_discrete, ◌==◌, if◌then◌else◌, ==_refl, ne→==,
}
use mathlib.Core.Bool.{true≢false}
use tomato_os.Pmm.{Pmm}
use tomato_os.Paging.{
  PageEntry, Paging, zero_entry, clear_table, set_entry, set_page_table_entry, frame, next_table,
  phys_to_virt,
}
use tomato_os.Paging.Tree.{IsTree, Taken, get_physical_address-reach}
use tomato_os.Paging.Walk.{Grown, Extends, final-reach}
use tomato_os.Paging.Grow.{More, Fresh, Fresh-level}

-- The state with the cleared page at `addr` as the table of the entry.
abbrev pub attach : Paging → (t i addr : ℕ) → Pmm → Paging
attach m t i addr q =
    let cleared = clear_table m.tables (phys_to_virt m addr) in
    record m {
      pmm = q;
      tables = set_entry cleared t i (set_page_table_entry (cleared t i) 3 addr 0);
    }

module _ (m : Paging) (tree : IsTree m) (t i n addr : ℕ) (q : Pmm) (f : Fresh m.pmm n addr q)
    (more : More m.pmm q) (deep : 2 ≤ tree.level t) (lt : i < 512)
    (absent : (m.tables t i).present ≡ false) where
  abbrev table : ℕ
  table = phys_to_virt m addr

  abbrev entry : PageEntry
  entry = set_page_table_entry (clear_table m.tables table t i) 3 addr 0

  abbrev attached : Paging
  attached = attach m t i addr q

  entry-present : entry.present ≡ true
  unfolding set_page_table_entry
  entry-present = refl

  entry-frame : frame entry ≡ addr
  unfolding set_page_table_entry
  entry-frame = omega (arith, f.address, f.inside, tree.region.low, tree.region.aligned)

  entry-next : next_table m entry ≡ table
  entry-next = ap (phys_to_virt m) entry-frame

  new_level : tree.level table ≡ 0
  new_level = Fresh-level m tree n addr f

  apart : t ≢ table
  apart = λ e. omega (arith, ap tree.level e, new_level)

  attached-new : (j : ℕ) → attached.tables table j ≡ zero_entry
  attached-new j = rw (ne→== table t (λ e. apart (sym e)), ==_refl table) refl

  attached-here : attached.tables t i ≡ entry
  attached-here = rw (==_refl t, ==_refl i) refl

  attached-other : (x j : ℕ) → x ≢ table → ((x ≢ t) ⊎ (j ≢ i)) → attached.tables x j ≡ m.tables x j
  attached-other x j new (inl other) = rw (ne→== x t other, ne→== x table new) refl
  attached-other x j new (inr other) = ground (arith, ne→== j i other, ne→== x table new)

  abbrev level' : ℕ → ℕ
  level' x = if x == table then tree.level t - 1 else tree.level x

  abbrev prefix' : ℕ → ℕ
  prefix' x = if x == table then tree.prefix t * 512 + i else tree.prefix x

  old_place : (x : ℕ) → tree.level x ≢ 0 → (level' x ≡ tree.level x) × (prefix' x ≡ tree.prefix x)
  old_place x old =
      let other : x ≢ table = λ e. old (ap tree.level e ∙ new_level) in
      rw (ne→== x table other) (refl, refl)

  new_place : (level' table ≡ tree.level t - 1) × (prefix' table ≡ tree.prefix t * 512 + i)
  new_place = rw (==_refl table) (refl, refl)

  attached-next : (e : PageEntry) → next_table attached e ≡ next_table m e
  attached-next e = refl

  attached-child :
      (x j : ℕ)
      → j < 512
      → 2 ≤ level' x
      → (attached.tables x j).present ≡ true
      → (suc (level' (next_table m (attached.tables x j))) ≡ level' x)
        × (prefix' (next_table m (attached.tables x j)) ≡ prefix' x * 512 + j)
  attached-child x j bound high there = elim (ℕ_discrete x table) [
    | yes new ↦ absurd (
        true≢false (
          sym there
          ∙ ap (λ y. (attached.tables y j).present) new
          ∙ ap (λ e. e.present) (attached-new j)))
    | no old ↦
        let place : level' x ≡ tree.level x = ground (arith, ne→== x table old) in
        let above : prefix' x ≡ tree.prefix x = ground (arith, ne→== x table old) in
        elim (ℕ_discrete x t) [
          | no other ↦
              down x j bound (omega arith) place above there (attached-other x j old (inl other))
          | yes here ↦ elim (ℕ_discrete j i) [
            | no other ↦
                down x j bound (omega arith) place above there (attached-other x j old (inr other))
            | yes here' ↦
                let at : attached.tables x j ≡ entry =
                  ap (λ y. attached.tables y j) here
                  ∙ ap (attached.tables t) here'
                  ∙ attached-here in
                let next : next_table m (attached.tables x j) ≡ table =
                  ap (next_table m) at ∙ entry-next in
                (
                  ap (λ (l : ℕ). suc l) (ap level' next ∙ new_place.0)
                      ∙ (omega (arith, place, ap tree.level here)),
                  ap prefix' next ∙ new_place.1 ∙ (omega (arith, above, ap tree.prefix here)),
                )
          ]
        ]
  ]
    where
      down :
          (x j : ℕ)
          → j < 512
          → 2 ≤ tree.level x
          → level' x ≡ tree.level x
          → prefix' x ≡ tree.prefix x
          → (attached.tables x j).present ≡ true
          → attached.tables x j ≡ m.tables x j
          → (suc (level' (next_table m (attached.tables x j))) ≡ level' x)
            × (prefix' (next_table m (attached.tables x j)) ≡ prefix' x * 512 + j)
      down x j bound high place above there e =
          let c = tree.child x j bound high (sym (ap (λ e. e.present) e) ∙ there) in
          let old = old_place (next_table m (m.tables x j)) (omega arith) in
          let next = ap (next_table m) e in
          (
            ap (λ (l : ℕ). suc l) (ap level' next ∙ old.0) ∙ c.0 ∙ sym place,
            ap prefix' next ∙ old.1 ∙ c.1 ∙ ap (λ (p : ℕ). p * 512 + j) (sym above),
          )

  still-Taken : (x : ℕ) → Taken m x → Taken attached x
  still-Taken x (p, inside, taken, at) =
      (p, omega (arith, more.total), more.keeps p taken, omega (arith, at, more.base))

  attached-IsTree : IsTree attached
  attached-IsTree = record {
    region = more.region;
    level = level';
    prefix = prefix';
    root =
        let old = old_place m.pml4 (omega (arith, tree.root)) in
        (old.0 ∙ tree.root.0, old.1 ∙ tree.root.1);
    child = attached-child;
    taken = λ x there. elim (ℕ_discrete x table) [
      | yes new ↦ (
        n,
        omega (arith, more.total, f.inside),
        f.now_taken,
        omega (arith, new, f.address, more.base),
      )
      | no old ↦ still-Taken x (tree.taken x (ground (arith, ne→== x table old)))
    ];
  }

  attached-keeps :
      (x j : ℕ)
      → tree.level x ≢ 0
      → (m.tables x j).present ≡ true
      → attached.tables x j ≡ m.tables x j
  attached-keeps x j old there = elim (ℕ_discrete x t) [
    | no other ↦ attached-other x j (λ e. old (ap tree.level e ∙ new_level)) (inl other)
    | yes here ↦ elim (ℕ_discrete j i) [
      | no other ↦ attached-other x j (λ e. old (ap tree.level e ∙ new_level)) (inr other)
      | yes here' ↦ absurd (
          true≢false (
            sym there
            ∙ ap (λ y. (m.tables y j).present) here
            ∙ ap (λ k. (m.tables t k).present) here'
            ∙ absent))
    ]
  ]

  attached-Extends : Extends m tree attached table
  attached-Extends = record {
    hhdm = refl;
    blank = attached-new;
    keeps = attached-keeps;
    absent = λ x j old gone. elim (ℕ_discrete x t) [
      | no other ↦ inl (
          ap (λ e. e.present)
            (attached-other x j (λ e. old (ap tree.level e ∙ new_level)) (inl other))
          ∙ gone)
      | yes here ↦ elim (ℕ_discrete j i) [
        | no other ↦ inl (
            ap (λ e. e.present)
              (attached-other x j (λ e. old (ap tree.level e ∙ new_level)) (inr other))
            ∙ gone)
        | yes here' ↦ inr (
          omega (arith, ap tree.level here),
          ap (next_table m)
                (ap (λ y. attached.tables y j) here ∙ ap (attached.tables t) here' ∙ attached-here)
              ∙ entry-next,
        )
      ]
    ];
  }

  pub attached-Grown : Grown m tree t i attached
  unfolding attached-IsTree
  attached-Grown = record {
    grown = attached-IsTree;
    root = refl;
    hhdm = refl;
    places = old_place;
    keeps = attached-keeps;
    there = ap (λ e. e.present) attached-here ∙ entry-present;
    same = λ va.
        get_physical_address-reach attached va
        ∙ final-reach m attached tree table va attached-Extends 3 m.pml4 tree.root.0
        ∙ sym (get_physical_address-reach m va);
  }
