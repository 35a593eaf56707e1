-- ===== src/Nvme/Pages.antt =====
-- The lists of pages that `nvme_send_io` of src/drivers/x86/nvme.c makes.
use tomato_os.Base.{
  ℕ, zero, suc, ◌+◌, ◌-◌, ◌%◌, ◌^◌, ◌≤◌, ◌<◌, ◌≡◌, refl, sym, ap, ◌∙◌, ◌≢◌, Bool, true, false,
  arith, ℕ_discrete, ◌==◌, if◌then◌else◌, ==_refl, ==_true, ne→==,
}
use mathlib.Core.Path.{subst}
use native.Mathlib.Nat.{mod_self, mod-eq_of_lt}
use tomato_os.Base.Word.{add64, mul64}
use tomato_os.Paging.{Paging, get_physical_address}
use tomato_os.Nvme.{NvmeCommand, fill_list}

-- Where page `i` of the buffer is in memory, 0 for nowhere.
abbrev pub page_at : Paging → (buffer i : ℕ) → ℕ
page_at p buffer i = get_physical_address p (add64 buffer (mul64 i 4096))

-- Where the controller looks for page `i` of a transfer of `num_pages` pages.
abbrev pub prp_entry : (ℕ → ℕ → ℕ) → NvmeCommand → (num_pages i : ℕ) → ℕ
prp_entry lists cmd num_pages i =
    if i == 0 then cmd.prp1 else (if num_pages == 2 then cmd.prp2 else lists cmd.prp2 (i - 1))

pub next_in_ring :
    (head size : ℕ)
    → head ≤ size
    → size < 2 ^ 32
    → add64 head 1 % (size + 1) ≡ (if head == size then 0 else head + 1)
next_in_ring head size le small = elim (ℕ_discrete head size) [
  | yes last ↦
      let e : add64 head 1 ≡ size + 1 = omega arith in
      ground (arith, ap (λ (n : ℕ). n % (size + 1)) e, mod_self (size + 1))
  | no inner ↦
      let e : add64 head 1 ≡ head + 1 = omega arith in
      let below : head + 1 < size + 1 = omega arith in
      ground (arith, ap (λ (n : ℕ). n % (size + 1)) e, mod-eq_of_lt below)
]

-- How the loop over the pages ends.
pub data Filled (p : Paging) (buffer i n : ℕ) (l : ℕ → ℕ) : Bool × (ℕ → ℕ) → Type 0 where
  all_pages :
      {l' : ℕ → ℕ}
      → ((j : ℕ) → i ≤ j → j < i + n → (l' (j - 1) ≡ page_at p buffer j) × (page_at p buffer j ≢ 0))
      → ((k : ℕ) → k + 1 < i → l' k ≡ l k)
      → Filled p buffer i n l (true, l')
  unmapped :
      {l' : ℕ → ℕ} (j : ℕ)
      → i ≤ j
      → j < i + n
      → page_at p buffer j ≡ 0
      → Filled p buffer i n l (false, l')

pub fill_list-Filled :
    (p : Paging) (buffer i n : ℕ) (l : ℕ → ℕ)
    → 0 < i
    → Filled p buffer i n l (fill_list p buffer i n l)
unfolding fill_list
fill_list-Filled p buffer i zero l pos = all_pages (λ j le lt. absurd (omega arith)) (λ k lt. refl)
fill_list-Filled p buffer i (suc n) l pos = elim (ℕ_discrete (page_at p buffer i) 0) [
  | yes null ↦
      rw (==_true (page_at p buffer i) 0 null) (unmapped i (omega arith) (omega arith) null)
  | no there ↦
      rw (ne→== (page_at p buffer i) 0 there) (
        behind there (fill_list-Filled p buffer (i + 1) n (put (page_at p buffer i)) (omega arith)))
]
  where
    put : ℕ → ℕ → ℕ
    put phys j = if j == i - 1 then phys else l j

    behind :
        {r : Bool × (ℕ → ℕ)}
        → page_at p buffer i ≢ 0
        → Filled p buffer (i + 1) n (put (page_at p buffer i)) r
        → Filled p buffer i (suc n) l r
    behind there (all_pages {l'} all keep) =
        all_pages
          (λ j le lt. elim (ℕ_discrete j i) [
            | yes here ↦
                subst (λ y. (l' (y - 1) ≡ page_at p buffer y) × (page_at p buffer y ≢ 0)) (sym here)
                  (
                    keep (i - 1) (omega arith)
                        ∙ ap (λ b. if b then page_at p buffer i else l (i - 1)) (==_refl (i - 1)),
                    there,
                  )
            | no past ↦ all j (omega arith) (omega arith)
          ])
          (λ k lt.
            keep k (omega arith)
            ∙ ap (λ b. if b then page_at p buffer i else l k) (ne→== k (i - 1) (omega arith)))
    behind there (unmapped j le lt null) = unmapped j (omega arith) (omega arith) null
