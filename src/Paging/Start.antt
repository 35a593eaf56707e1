-- ===== src/Paging/Start.antt =====
-- The tables that `initPML4` of src/mem/paging.c makes.
use tomato_os.Base.{
  ℕ, ◌+◌, ◌%◌, ◌^◌, ◌≤◌, ◌<◌, ◌≡◌, refl, sym, ap, ◌∙◌, ◌⊎◌, inl, inr, Bool, true, false, ◌||◌, List,
  [], ◌∷◌, arith, ◌==◌, if◌then◌else◌, ==_refl, Bool-cases,
}
use mathlib.Core.Path.{subst}
use tomato_os.Base.Word.{add64}
use tomato_os.Pmm.{MemmapEntry, Pmm}
use tomato_os.Paging.{Paging, Tables, get_physical_address, map_page}
use tomato_os.Paging.Boot.{pages_of, memmap_reserved, memmap_bad, map_entries, new_root}
use tomato_os.Paging.Tree.{IsRegion, IsTree}
use tomato_os.Paging.Grow.{More, More-refl, More-trans, More-IsFull, IsFull, Fresh, one, one-More}
use tomato_os.Paging.Translate.{map_page-Mapped, map_from-More}

pub new_root-IsTree :
    (p : Pmm) (hhdm : ℕ) (memory : Tables) (n : ℕ)
    → IsRegion p
    → Fresh p n (one p).0 (one p).1
    → IsTree (new_root p hhdm memory)
unfolding new_root
new_root-IsTree p hhdm memory n r f =
    let root = add64 (one p).0 hhdm in
    let more = one-More p r in
    record {
      region = more.region;
      level = λ x. if x == root then 4 else 0;
      prefix = λ x. 0;
      root = rw (==_refl root) (refl, refl);
      child = λ x i lt high there. absurd (ground arith);
      taken = λ x old. (
        n,
        omega (arith, more.total, f.inside),
        f.now_taken,
        ground (arith, more.base, f.address),
      );
    }

abbrev pub is_skipped : MemmapEntry → Bool
is_skipped e = e.kind == memmap_reserved || e.kind == memmap_bad

-- Every entry that is mapped is made of whole pages in the first 2^40 bytes.
abbrev pub Whole : List MemmapEntry → Type 0
Whole [] = Unit
Whole (e ∷ es) =
    ((is_skipped e ≡ false)
      → (e.base % 4096 ≡ 0) × (e.length % 4096 ≡ 0) × (e.base + e.length ≤ 2 ^ 40))
    × Whole es

-- The address lies in an entry that is mapped.
abbrev pub Covered : ℕ → List MemmapEntry → Type 0
Covered pa [] = ⊥
Covered pa (e ∷ es) =
    ((is_skipped e ≡ false) × (e.base ≤ pa) × (pa < e.base + e.length)) ⊎ Covered pa es

-- `hhdm` leaves room for 2^40 bytes.
abbrev pub HasRoom : ℕ → Type 0
HasRoom hhdm = (hhdm % 4096 ≡ 0) × (hhdm + 2 ^ 40 ≤ 2 ^ 64)

pub record Direct (m : Paging) (entries : List MemmapEntry) (m' : Paging) : Type 0 where
  pub tree : IsTree m'
  pub same_hhdm : m'.hhdm ≡ m.hhdm
  pub old :
      (pa : ℕ)
      → pa < 2 ^ 40
      → get_physical_address m (m.hhdm + pa) ≡ pa
      → get_physical_address m' (m.hhdm + pa) ≡ pa
  pub covered :
      (pa : ℕ) → pa < 2 ^ 40 → Covered pa entries → get_physical_address m' (m.hhdm + pa) ≡ pa

-- One entry of the loop.
abbrev map_entry : Paging → MemmapEntry → Paging
map_entry m e = map_page m (add64 e.base m.hhdm) e.base 3 (pages_of e.length)

abbrev step : Paging → MemmapEntry → Paging
step m e = if is_skipped e then m else map_entry m e

step-More : (m : Paging) (e : MemmapEntry) → IsRegion m.pmm → More m.pmm (step m e).pmm
step-More m e r =
    let a = map_from-More m (add64 e.base m.hhdm) e.base 3 0 (pages_of e.length) r in
    elim (is_skipped e) as (λ b. More m.pmm (if b then m else map_entry m e).pmm) [
      | true ↦ More-refl m.pmm r
      | false ↦ a
    ]

pub map_entries-More :
    (m : Paging) (entries : List MemmapEntry)
    → IsRegion m.pmm
    → More m.pmm (map_entries m entries).pmm
unfolding map_entries
map_entries-More m [] r = More-refl m.pmm r
map_entries-More m (e ∷ es) r =
    let a = step-More m e r in More-trans a (map_entries-More (step m e) es a.region)

step-Direct :
    (m : Paging) (e : MemmapEntry)
    → IsTree m
    → HasRoom m.hhdm
    → Whole (e ∷ [])
    → IsFull (step m e).pmm ⊎ Direct m (e ∷ []) (step m e)
step-Direct m e tree room whole = elim (Bool-cases (is_skipped e)) [
  | inl skip ↦
      let same : step m e ≡ m = ap (λ b. if b then m else map_entry m e) skip in
      subst (λ m'. IsFull m'.pmm ⊎ Direct m (e ∷ []) m') (sym same)
        (inr (record {
          tree = tree;
          same_hhdm = refl;
          old = λ pa lt was. was;
          covered = λ pa lt c. absurd (ground arith);
        }))
  | inr take ↦
      let same : step m e ≡ map_entry m e = ap (λ b. if b then m else map_entry m e) take in
      let (aligned, whole_pages, low) = whole.0 take in
      subst (λ m'. IsFull m'.pmm ⊎ Direct m (e ∷ []) m') (sym same)
        (elim (map_page-Mapped m (add64 e.base m.hhdm) e.base 3 (pages_of e.length) tree
          (omega arith)) [
            | inl full ↦ inl full
            | inr r ↦ inr (record {
              tree = r.tree;
              same_hhdm = r.same_hhdm;
              old = λ pa lt was. ground (arith, r.leads (m.hhdm + pa));
              covered = λ pa lt c. ground (arith, r.leads (m.hhdm + pa));
            })
          ])
]

pub map_entries-Direct :
    (m : Paging) (entries : List MemmapEntry)
    → IsTree m
    → HasRoom m.hhdm
    → Whole entries
    → IsFull (map_entries m entries).pmm ⊎ Direct m entries (map_entries m entries)
unfolding map_entries
map_entries-Direct m [] tree room whole = inr (record {
  tree = tree;
  same_hhdm = refl;
  old = λ pa lt was. was;
  covered = λ pa lt c. absurd c;
})
map_entries-Direct m (e ∷ es) tree room whole =
    let m' = step m e in
    elim (step-Direct m e tree room (whole.0, tt)) [
      | inl full ↦
          inl (More-IsFull (map_entries-More m' es (step-More m e tree.region).region) full)
      | inr d ↦ elim (map_entries-Direct m' es d.tree (rw (d.same_hhdm) room) whole.1) [
        | inl full ↦ inl full
        | inr rest ↦
            let later =
              λ (pa : ℕ) (lt : pa < 2 ^ 40) (was : get_physical_address m' (m.hhdm + pa) ≡ pa).
                ap (λ h. get_physical_address (map_entries m' es) (h + pa)) (sym d.same_hhdm)
                ∙ rest.old pa lt (ap (λ h. get_physical_address m' (h + pa)) d.same_hhdm ∙ was) in
            inr (record {
              tree = rest.tree;
              same_hhdm = rest.same_hhdm ∙ d.same_hhdm;
              old = λ pa lt was. later pa lt (d.old pa lt was);
              covered = λ pa lt c. elim c [
                | inl here ↦ later pa lt (d.covered pa lt (inl here))
                | inr there ↦
                    ap (λ h. get_physical_address (map_entries m' es) (h + pa)) (sym d.same_hhdm)
                    ∙ rest.covered pa lt there
              ];
            })
      ]
    ]
