-- ===== src/Nvme/Transfer.antt =====
-- The commands that `nvme_send_io` of src/drivers/x86/nvme.c makes, and the pages that they name.
use tomato_os.Base.{
  ℕ, ◌+◌, ◌-◌, ◌*◌, ◌%◌, ◌^◌, ◌≤◌, ◌<◌, ◌≡◌, refl, sym, ap, ◌∙◌, ◌≢◌, Bool, arith, ℕ_discrete, ◌==◌,
  if◌then◌else◌, ==_refl, ==_true, ne→==,
}
use mathlib.Core.Path.{subst}
use tomato_os.Base.Word.{add64}
use tomato_os.Pmm.{pmm_alloc_page, pmm_free}
use tomato_os.Pmm.Alloc.{IsValid}
use tomato_os.Pmm.Same.{SamePages, same_pages, page_back}
use tomato_os.Paging.{Paging, get_physical_address}
use tomato_os.Paging.Boot.{pages_of}
use tomato_os.Nvme.Pages.{
  page_at, prp_entry, next_in_ring, Filled, all_pages, unmapped, fill_list-Filled,
}
use tomato_os.Nvme.{
  NvmeCommand, NvmePairQueue, Nvme, submit, command, send_list, send_two, nvme_send_io, with_list,
}

-- The command stands at the old tail, and the tail and its doorbell are one entry further.
pub record Submitted (q : NvmePairQueue) (cmd : NvmeCommand) (q' : NvmePairQueue) : Type 0 where
  pub entry : q'.sq q.sq_tail ≡ cmd
  pub others : (i : ℕ) → i ≢ q.sq_tail → q'.sq i ≡ q.sq i
  pub tail : q'.sq_tail ≡ (if q.sq_tail == q.sq_size then 0 else q.sq_tail + 1)
  pub rung : q'.sq_rung ≡ q'.sq_tail

-- The tail lies in the ring, which has at most 2^32 entries.
abbrev pub TailInRing : NvmePairQueue → Type 0
TailInRing q = (q.sq_tail ≤ q.sq_size) × (q.sq_size < 2 ^ 32)

submit-Submitted :
    (q : NvmePairQueue) (cmd : NvmeCommand) → TailInRing q → Submitted q cmd (submit q cmd)
unfolding submit
submit-Submitted q cmd inside =
    let tail : add64 q.sq_tail 1 % (q.sq_size + 1)
        ≡ (if q.sq_tail == q.sq_size then 0 else q.sq_tail + 1) =
      next_in_ring q.sq_tail q.sq_size inside.0 inside.1 in
    record {
      entry = ap (λ b. if b then cmd else q.sq q.sq_tail) (==_refl q.sq_tail);
      others = λ i other. ap (λ b. if b then cmd else q.sq i) (ne→== i q.sq_tail other);
      tail = tail;
      rung = ground (arith, tail);
    }

-- How `nvme_send_io` ends.
pub data Sent (m : Nvme) (opcode nsid buffer lba num_blocks num_pages : ℕ) : Nvme → Type 0 where
  sent :
      {m' : Nvme} (cmd : NvmeCommand)
      → (cmd.cdw0 ≡ opcode)
        × (cmd.nsid ≡ nsid)
        × (cmd.cdw10 + 2 ^ 32 * cmd.cdw11 ≡ lba)
        × (cmd.cdw12 ≡ num_blocks - 1)
      → Submitted m.queue cmd m'.queue
      → ((i : ℕ)
          → i < num_pages
          → (prp_entry m'.lists cmd num_pages i ≡ page_at m.paging buffer i)
            × (page_at m.paging buffer i ≢ 0))
      → Sent m opcode nsid buffer lba num_blocks num_pages m'
  unmapped_page :
      {m' : Nvme} (i : ℕ)
      → i < num_pages
      → page_at m.paging buffer i ≡ 0
      → m'.queue ≡ m.queue
      → SamePages m.paging.pmm m'.paging.pmm
      → Sent m opcode nsid buffer lba num_blocks num_pages m'

module _ (m : Nvme) (opcode nsid buffer lba num_blocks : ℕ) (blocks : 0 < num_blocks)
    (blocks_fit : num_blocks < 2 ^ 16) (lba_fits : lba < 2 ^ 64) (buffer_fits : buffer < 2 ^ 64)
    (inside : TailInRing m.queue) (valid : IsValid m.paging.pmm)
    (above : 0 < m.paging.pmm.physical_base) where
  abbrev cmd : NvmeCommand
  cmd = command opcode nsid (get_physical_address m.paging buffer) lba num_blocks

  abbrev End : ℕ → Nvme → Type 0
  End = Sent m opcode nsid buffer lba num_blocks

  words :
      (cmd.cdw0 ≡ opcode)
      × (cmd.nsid ≡ nsid)
      × (cmd.cdw10 + 2 ^ 32 * cmd.cdw11 ≡ lba)
      × (cmd.cdw12 ≡ num_blocks - 1)
  words = omega arith

  first_page : page_at m.paging buffer 0 ≡ get_physical_address m.paging buffer
  first_page = ap (get_physical_address m.paging) (omega arith)

  send_two-End : get_physical_address m.paging buffer ≢ 0 → End 2 (send_two m cmd buffer)
  unfolding send_two
  send_two-End there =
      let second = get_physical_address m.paging (add64 buffer 4096) in
      elim (ℕ_discrete second 0) [
        | yes null ↦
            rw (==_true second 0 null)
              (unmapped_page 1 (omega arith) null refl (same_pages m.paging.pmm valid))
        | no there' ↦ rw (ne→== second 0 there') (
            sent (record cmd { prp2 = second }) words (submit-Submitted m.queue _ inside)
              (λ i lt. elim (ℕ_discrete i 0) [
                | yes zeroth ↦ ground (arith, first_page, ap (page_at m.paging buffer) zeroth)
                | no other ↦
                    let one : i ≡ 1 = omega arith in
                    ground (arith, ap (page_at m.paging buffer) one)
              ]))
      ]

  send_list-End :
      (n : ℕ)
      → 2 < n
      → n ≤ 513
      → get_physical_address m.paging buffer ≢ 0
      → End n (send_list m cmd buffer n)
  unfolding send_list get_physical_address
  send_list-End n many few there =
      in_list (fill_list-Filled taken buffer 1 (n - 1) (m.lists list_phys) (omega arith))
    where
      list_phys : ℕ
      list_phys = (pmm_alloc_page m.paging.pmm 4096).0

      taken : Paging
      taken = record m.paging { pmm = (pmm_alloc_page m.paging.pmm 4096).1 }

      lists : (ℕ → ℕ) → ℕ → ℕ → ℕ
      lists l p = if p == list_phys then l else m.lists p

      in_list :
          {r : Bool × (ℕ → ℕ)}
          → Filled taken buffer 1 (n - 1) (m.lists list_phys) r
          → End n (
              let filled = with_list m list_phys r.1 in
              if r.0
              then record filled {
                paging = taken;
                queue = submit m.queue (record cmd { prp2 = list_phys });
              }
              else record filled { paging = record taken { pmm = pmm_free taken.pmm list_phys 1 } })
      in_list (all_pages {l'} all keep) =
          sent (record cmd { prp2 = list_phys }) words (submit-Submitted m.queue _ inside)
            (λ i lt. elim (ℕ_discrete i 0) [
              | yes zeroth ↦ ground (arith, first_page, ap (page_at m.paging buffer) zeroth)
              | no other ↦
                  let entry = all i (omega arith) (omega arith) in
                  (
                    ap
                          (λ b.
                            if b
                            then get_physical_address m.paging buffer
                            else (if n == 2 then list_phys else lists l' list_phys (i - 1)))
                          (ne→== i 0 other)
                        ∙ ap (λ b. if b then list_phys else lists l' list_phys (i - 1))
                            (ne→== n 2 (omega arith))
                        ∙ ap (λ b. (if b then l' else m.lists list_phys) (i - 1))
                            (==_refl list_phys)
                        ∙ entry.0,
                    entry.1,
                  )
            ])
      in_list (unmapped j le lt null) =
          unmapped_page j (omega arith) null refl (page_back m.paging.pmm valid above)

  -- Let the arguments be at most 2^16 blocks and fit in their words, the tail lie in the ring, and the
  -- region of the allocator lie below 2^64 and above 0. For a transfer of 1 to 513 pages,
  -- `nvme_send_io` puts a command with the opcode, namespace, block address and number of blocks, less
  -- one, at the tail, and moves the tail and its doorbell on by one entry, round the ring; where the
  -- controller looks for each page of the buffer, it finds the address that the page is mapped to. Or
  -- a page of the buffer is not mapped, the queue is as before, and so are the pages in use.
  pub nvme_send_io-Sent :
      (transfer_bytes : ℕ)
      → 0 < pages_of transfer_bytes
      → pages_of transfer_bytes ≤ 513
      → Sent m opcode nsid buffer lba num_blocks
          (pages_of transfer_bytes)
          (nvme_send_io m opcode nsid buffer lba num_blocks transfer_bytes)
  unfolding nvme_send_io
  nvme_send_io-Sent bytes some_pages few =
      let n = pages_of bytes in
      let phys = get_physical_address m.paging buffer in
      elim (ℕ_discrete phys 0) [
        | yes null ↦
            rw (==_true phys 0 null)
              (unmapped_page 0 some_pages (first_page ∙ null) refl (same_pages m.paging.pmm valid))
        | no there ↦ rw (ne→== phys 0 there) (elim (ℕ_discrete n 1) [
          | yes one ↦ rw (==_true n 1 one) (
              sent cmd words (submit-Submitted m.queue cmd inside) (λ i lt.
                let zeroth : i ≡ 0 = omega arith in
                ground (arith, first_page, ap (page_at m.paging buffer) zeroth)))
          | no more ↦ rw (ne→== n 1 more) (elim (ℕ_discrete n 2) [
            | yes two ↦
                rw (==_true n 2 two)
                  (subst (λ k. End k (send_two m cmd buffer)) (sym two) (send_two-End there))
            | no many ↦ rw (ne→== n 2 many) (send_list-End n (omega arith) few there)
          ])
        ])
      ]
