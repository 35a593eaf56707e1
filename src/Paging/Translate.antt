-- ===== src/Paging/Translate.antt =====
-- What `map_page` of src/mem/paging.c does to the addresses, page by page.
use tomato_os.Base.{
  ℕ, zero, suc, ◌+◌, ◌-◌, ◌*◌, ◌/◌, ◌%◌, ◌^◌, ◌≤◌, ◌<◌, ◌≡◌, refl, ap, ◌∙◌, ◌⊎◌, inl, inr, ◌&&◌,
  arith, ltb, leb, ◌==◌, if◌then◌else◌,
}
use tomato_os.Base.Word.{add64, mul64}
use tomato_os.Paging.{
  PageEntry, Paging, bit, index, set_page_table_entry, get_physical_address, map_one, map_from,
  map_page,
}
use tomato_os.Paging.Tree.{IsRegion, IsTree, page_in}
use tomato_os.Paging.Grow.{More, More-refl, More-trans, More-IsFull, IsFull}
use tomato_os.Paging.Leaf.{page_number, store-IsTree, get_physical_address-store}
use tomato_os.Paging.Descend.{m3, pt, tables-More, tables_cases}

-- Where an address of a page that is mapped with `flags` to the page at `phys` leads.
abbrev pub mapped_to : (flags phys va : ℕ) → ℕ
mapped_to flags phys va = if bit (flags % 256) 1 then phys + va % 4096 else 0

page_in-set :
    (old : PageEntry) (flags phys va : ℕ)
    → phys % 4096 ≡ 0
    → phys < 2 ^ 40
    → page_in (set_page_table_entry old flags phys 0) va ≡ mapped_to flags phys va
unfolding set_page_table_entry
page_in-set old flags phys va aligned low =
    let e : add64 (phys / 2 ^ 12 % 2 ^ 40 * 2 ^ 12 % 2 ^ 40) (va % 4096) ≡ phys + va % 4096 =
      omega arith in
    ap (λ (a : ℕ). if bit (flags % 256) 1 then a else 0) e

map_one-More :
    (m : Paging) (va phys flags : ℕ) → IsRegion m.pmm → More m.pmm (map_one m va phys flags).pmm
unfolding map_one
map_one-More m va phys flags r = let (a, b, c) = tables-More m va r in More-trans a (More-trans b c)

-- The page is mapped, and the other addresses lead where they did before.
record MappedOne (m : Paging) (va phys flags : ℕ) (m' : Paging) : Type 0 where
  tree : IsTree m'
  same_hhdm : m'.hhdm ≡ m.hhdm
  leads :
      (vb : ℕ)
      → get_physical_address m' vb ≡ (
          if page_number vb == page_number va
          then mapped_to flags phys vb
          else get_physical_address m vb)

map_one-MappedOne :
    (m : Paging) (va phys flags : ℕ)
    → IsTree m
    → phys % 4096 ≡ 0
    → phys < 2 ^ 40
    → IsFull (map_one m va phys flags).pmm ⊎ MappedOne m va phys flags (map_one m va phys flags)
unfolding map_one
map_one-MappedOne m va phys flags tree aligned low = elim (tables_cases m va tree) [
  | inl full ↦ inl full
  | inr r ↦
      let end = m3 m va in
      let table = pt m va in
      let old = end.tables table (index va 12) in
      let e = set_page_table_entry old flags phys 0 in
      inr (record {
        tree = store-IsTree end r.tree table (index va 12) e r.low;
        same_hhdm = r.hhdm;
        leads = λ vb.
            get_physical_address-store end r.tree table (index va 12) e r.low va vb refl r.leads
            ∙ ap (λ a. if page_number vb == page_number va then a else get_physical_address end vb)
                (page_in-set old flags phys vb aligned low)
            ∙ ap (λ a. if page_number vb == page_number va then mapped_to flags phys vb else a)
                (r.same vb);
      })
]

pub map_from-More :
    (m : Paging) (virt phys flags i n : ℕ)
    → IsRegion m.pmm
    → More m.pmm (map_from m virt phys flags i n).pmm
unfolding map_from
map_from-More m virt phys flags i zero r = More-refl m.pmm r
map_from-More m virt phys flags i (suc n) r =
    let a = map_one-More m (add64 virt (mul64 i 4096)) (add64 phys (mul64 i 4096)) flags r in
    let m' = map_one m (add64 virt (mul64 i 4096)) (add64 phys (mul64 i 4096)) flags in
    More-trans a (map_from-More m' virt phys flags (i + 1) n a.region)

-- How far `vb` lies behind `virt`, in the 48 bits that the tables translate.
abbrev pub distance : (virt vb : ℕ) → ℕ
distance virt vb = (vb % 2 ^ 48 + 2 ^ 48 - virt % 2 ^ 48) % 2 ^ 48

-- The addresses whose distance is `from` or more and less than `from + size` lead to `phys` and on.
record MappedFrom (m : Paging) (virt phys flags from size : ℕ) (m' : Paging) : Type 0 where
  tree : IsTree m'
  same_hhdm : m'.hhdm ≡ m.hhdm
  leads :
      (vb : ℕ)
      → get_physical_address m' vb ≡ (
          if leb from (distance virt vb) && ltb (distance virt vb) (from + size)
          then (if bit (flags % 256) 1 then phys + distance virt vb else 0)
          else get_physical_address m vb)

-- The page `i` pages behind `virt` holds the addresses at that distance.
page_distance :
    (virt vb i : ℕ)
    → virt % 4096 ≡ 0
    → i * 4096 + 4096 ≤ 2 ^ 48
    → virt + i * 4096 < 2 ^ 64
    → (page_number vb == page_number (add64 virt (mul64 i 4096)))
      ≡ (leb (i * 4096) (distance virt vb) && ltb (distance virt vb) (i * 4096 + 4096))
page_distance virt vb i aligned span low = ground arith

in_page :
    (virt vb i : ℕ)
    → virt % 4096 ≡ 0
    → i * 4096 ≤ distance virt vb
    → distance virt vb < i * 4096 + 4096
    → i * 4096 + vb % 4096 ≡ distance virt vb
in_page virt vb i aligned le lt = omega arith

-- The pages lie within the machine's addresses, physical ones within those of an entry.
abbrev pub InReach : (virt phys size : ℕ) → Type 0
InReach virt phys size =
    (virt % 4096 ≡ 0)
    × (phys % 4096 ≡ 0)
    × (size ≤ 2 ^ 48)
    × (virt + size ≤ 2 ^ 64)
    × (phys + size ≤ 2 ^ 40)

map_from-MappedFrom :
    (m : Paging) (virt phys flags i n : ℕ)
    → IsTree m
    → InReach virt phys ((i + n) * 4096)
    → let m' = map_from m virt phys flags i n in
      IsFull m'.pmm ⊎ MappedFrom m virt phys flags (i * 4096) (n * 4096) m'
unfolding map_from
map_from-MappedFrom m virt phys flags i zero tree fits =
    inr (record { tree = tree; same_hhdm = refl; leads = λ vb. ground arith })
map_from-MappedFrom m virt phys flags i (suc n) tree fits =
    let va = add64 virt (mul64 i 4096) in
    let page = add64 phys (mul64 i 4096) in
    let m' = map_one m va page flags in
    let more = map_one-More m va page flags tree.region in
    elim (map_one-MappedOne m va page flags tree (omega arith) (omega arith)) [
      | inl full ↦ inl (More-IsFull (map_from-More m' virt phys flags (i + 1) n more.region) full)
      | inr one ↦ elim (map_from-MappedFrom m' virt phys flags (i + 1) n one.tree (omega arith)) [
        | inl full ↦ inl full
        | inr rest ↦ inr (record {
          tree = rest.tree;
          same_hhdm = rest.same_hhdm ∙ one.same_hhdm;
          leads = λ vb. ground (
            arith,
            rest.leads vb,
            one.leads vb,
            page_distance virt vb i (omega arith) (omega arith) (omega arith),
            in_page virt vb i,
          );
        })
      ]
    ]

-- What `map_page` leaves behind, when pages are left.
pub record Mapped (m : Paging) (virt phys flags size : ℕ) (m' : Paging) : Type 0 where
  pub tree : IsTree m'
  pub same_hhdm : m'.hhdm ≡ m.hhdm
  pub leads :
      (vb : ℕ)
      → get_physical_address m' vb ≡ (
          if ltb (distance virt vb) size
          then (if bit (flags % 256) 1 then phys + distance virt vb else 0)
          else get_physical_address m vb)

-- Let the page tables form a tree of pages in use, and let `virt` and `phys` be multiples of the page
-- size and the pages behind them lie below 2^64 and 2^40, and be at most 2^48 bytes in all. Then no
-- page of the allocator is free behind `map_page`, or the tables still form such a tree, each address
-- at a distance from `virt` below the size of the pages, in the 48 bits that are translated, leads to
-- the address at the same distance from `phys`, or nowhere when the flags lack the bit for present,
-- and each other address leads where it did before.
pub map_page-Mapped :
    (m : Paging) (virt phys flags num_pages : ℕ)
    → IsTree m
    → InReach virt phys (num_pages * 4096)
    → let m' = map_page m virt phys flags num_pages in
      IsFull m'.pmm ⊎ Mapped m virt phys flags (num_pages * 4096) m'
map_page-Mapped m virt phys flags num_pages tree fits =
    elim (map_from-MappedFrom m virt phys flags 0 num_pages tree (omega arith)) [
      | inl full ↦ inl full
      | inr r ↦ inr (record {
        tree = r.tree;
        same_hhdm = r.same_hhdm;
        leads = λ vb. ground (arith, r.leads vb);
      })
    ]
