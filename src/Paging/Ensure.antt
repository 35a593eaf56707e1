-- ===== src/Paging/Ensure.antt =====
-- How a missing table comes about in `map_page` of src/mem/paging.c.
use tomato_os.Base.{
  ℕ, ◌≤◌, ◌<◌, ◌≡◌, refl, sym, ap, ◌∙◌, ◌⊎◌, inl, inr, Bool, true, false, not, ◌==◌, if◌then◌else◌,
  ne→==, Bool-cases,
}
use mathlib.Core.Path.{subst}
use tomato_os.Paging.{Paging, allocate_entry, ensure, pte_writable}
use tomato_os.Paging.Tree.{IsTree}
use tomato_os.Paging.Walk.{Grown}
use tomato_os.Paging.Grow.{IsFull, one, page_cases, one-More, More-IsFull, ensure-More}
use tomato_os.Paging.Attach.{attach, attached-Grown}

ensure-present : (m : Paging) (t i : ℕ) → (m.tables t i).present ≡ true → ensure m t i ≡ m
unfolding ensure
ensure-present m t i there =
    ap (λ b. if not b then (allocate_entry m t i pte_writable).1 else m) there

-- The state behind `allocateEntry`, whether it found a page or not.
ensure-absent :
    (m : Paging) (t i : ℕ)
    → (m.tables t i).present ≡ false
    → ensure m t i ≡ (
        if (one m.pmm).0 == 0
        then record m { pmm = (one m.pmm).1 }
        else attach m t i (one m.pmm).0 (one m.pmm).1)
unfolding ensure allocate_entry
ensure-absent m t i absent =
    ap (λ b. if not b then (allocate_entry m t i pte_writable).1 else m) absent
    ∙ first _ _ ((one m.pmm).0 == 0)
  where
    first :
        {A B : Type 0} (x y : A × B) (b : Bool) → (if b then x else y).1 ≡ (if b then x.1 else y.1)
    first x y true = refl
    first x y false = refl

-- Where an entry is absent and a page is free, the tree grows by a table; where none is free, none is
-- free behind the call either.
pub ensure_cases :
    (m : Paging) (tree : IsTree m) (t i : ℕ)
    → 2 ≤ tree.level t
    → i < 512
    → IsFull (ensure m t i).pmm ⊎ Grown m tree t i (ensure m t i)
ensure_cases m tree t i deep lt = elim (Bool-cases (m.tables t i).present) [
  | inl there ↦
      let grown : Grown m tree t i m = record {
        grown = tree;
        root = refl;
        hhdm = refl;
        places = λ x h. (refl, refl);
        keeps = λ x j h h'. refl;
        there = there;
        same = λ va. refl;
      } in
      inr (subst (Grown m tree t i) (sym (ensure-present m t i there)) grown)
  | inr absent ↦
      let e = ensure-absent m t i absent in
      elim (page_cases m.pmm tree.region) [
        | inl (null, full) ↦ inl (More-IsFull (ensure-More m t i tree.region) full)
        | inr (n, f) ↦
            let at =
              ap
                (λ b.
                  if b
                  then record m { pmm = (one m.pmm).1 }
                  else attach m t i (one m.pmm).0 (one m.pmm).1)
                (ne→== _ 0 f.not_null) in
            inr (
              subst (Grown m tree t i) (sym (e ∙ at)) (
                attached-Grown m tree t i n (one m.pmm).0 (one m.pmm).1 f
                  (one-More m.pmm tree.region) deep lt absent))
      ]
]
