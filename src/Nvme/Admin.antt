-- ===== src/Nvme/Admin.antt =====
-- The admin commands of src/drivers/x86/nvme.c, and what it makes with them: the main queue and the
-- table of namespaces. The admin rings are a queue like the others, whose lock is not used. What the
-- controller writes is a parameter: `cq` is the admin completion ring at each time, `ids` the list of
-- namespaces, and `data_of` what it says of each.
pub mod Create
use tomato_os.Base.{
  ℕ, zero, suc, ◌+◌, ◌-◌, ◌*◌, ◌/◌, ◌%◌, ◌^◌, ◌≤◌, ◌<◌, bit_and, bit_or, bit_xor, ◌≡◌, refl, sym,
  ap, ◌∙◌, fun_ext, ◌≢◌, ◌↔◌, ◌⊎◌, inl, inr, Bool, true, false, ◌&&◌, ◌||◌, not, Option, none, some,
  List, [], ◌∷◌, ◌++◌, arith, dec_lt, dec_le, ℕ_discrete, ltb, leb, ◌==◌, if◌then◌else◌, ltb→lt,
  lt→ltb, ltb→le, le→ltb, ==_iff, ==_refl, ==_true, ne→==, Bool-cases, Option-cases, all_below,
  all_below_sound, length, get_elem?, set, length-append, length-set,
}
use tomato_os.Base.Word.{add64, mul64, wrap32}
use tomato_os.Pmm.{Pmm, pmm_alloc_page}
use tomato_os.Nvme.{NvmeCommand, NvmeCompletion, NvmePairQueue, wait_loop}

-- `struct nvme_namespace`, without the shift and the pointer to its data.
pub record NvmeNamespace : Type 0 where
  pub nsid : ℕ
  pub size : ℕ
  pub lba_size : ℕ
  pub valid : Bool

-- `struct nvme_id_ns`, as far as it is used; `ds` is the field of each `struct nvme_lbaf`.
pub record NvmeIdNs : Type 0 where
  pub nsze : ℕ
  pub nlbaf : ℕ
  pub flbas : ℕ
  pub ds : ℕ → ℕ

-- `struct nvme_controller`, with the page allocator, the time, `nvme_qid_ptr`, and the disks that
-- `init_disk` was called with: their namespace and the size of a block.
pub record NvmeController : Type 0 where
  pub bar0 : ℕ
  pub stride : ℕ
  pub page_size : ℕ
  pub admin : NvmePairQueue
  pub namespaces : ℕ → NvmeNamespace
  pub num_namespaces : ℕ
  pub pmm : Pmm
  pub time : ℕ
  pub next_qid : ℕ
  pub disks : List (ℕ × ℕ)

abbrev pub no_command : NvmeCommand
no_command = record { cdw0 = 0; nsid = 0; prp1 = 0; prp2 = 0; cdw10 = 0; cdw11 = 0; cdw12 = 0 }

pub nvme_submit_admin : NvmePairQueue → NvmeCommand → NvmePairQueue
nvme_submit_admin q cmd =
    let next = add64 q.sq_tail 1 in
    let tail = if ltb 63 next then 0 else next in
    record q {
      sq = λ i. if i == q.sq_tail then cmd else q.sq i;
      sq_tail = tail;
      sq_rung = wrap32 tail;
    }

pub take_admin : NvmePairQueue → NvmePairQueue
take_admin q =
    let next = add64 q.cq_head 1 in
    let head = if ltb 63 next then 0 else next in
    record q {
      cq_head = head;
      phase = if ltb 63 next then bit_xor q.phase 1 else q.phase;
      cq_rung = wrap32 head;
    }

-- `status >> 1 & 0xFF`
abbrev pub admin_status : NvmeCompletion → ℕ
admin_status c = c.status / 2 % 2 ^ 8

-- `nvme_alloc_queue`: a page of zeros, and one less than its 64 entries.
abbrev pub queue_size : ℕ
queue_size = 63

-- `1u << ds`
abbrev pub shifted : ℕ → ℕ
shifted ds = 2 ^ ds % 2 ^ 32

-- The size of a block: that of the format in use, if there is one of that number.
unfoldable pub lba_size_of : NvmeIdNs → ℕ
lba_size_of ns =
    let lba_format = ns.flbas % 16 in
    if ltb lba_format ns.nlbaf then shifted (ns.ds lba_format) else 512

abbrev pub settle :
    NvmeController
    → Option (Bool × Option NvmeCompletion × NvmePairQueue × ℕ)
    → Option (Bool × NvmeController)
settle ctrl none = none
settle ctrl (some (ok, _, q, time)) = some (ok, record ctrl { admin = q; time = time })

-- The queue before its commands: `memory` is what stands in the block that `kmalloc` gave, of which
-- the tail and the head are not set.
pub start_queue : NvmePairQueue → (cq_page sq_page qid : ℕ) → NvmePairQueue
start_queue memory cq_page sq_page qid = record memory {
  sq = λ i. no_command;
  cq_address = cq_page;
  cq_size = queue_size;
  sq_address = sq_page;
  sq_size = queue_size;
  phase = 1;
  qid = qid;
  locked = false;
}

abbrev pub create_cq : NvmePairQueue → NvmeCommand
create_cq q = record no_command {
  cdw0 = 0x05;
  cdw10 = bit_or (q.cq_size * 2 ^ 16) q.qid;
  cdw11 = 1;
  prp1 = q.cq_address;
}

abbrev pub create_sq : NvmePairQueue → NvmeCommand
create_sq q = record no_command {
  cdw0 = 0x01;
  cdw10 = bit_or (q.sq_size * 2 ^ 16) q.qid;
  cdw11 = bit_or (q.qid * 2 ^ 16) 1;
  prp1 = q.sq_address;
}

-- Both rings exist: the queue gets its doorbells.
abbrev pub with_doorbells : NvmeController → NvmePairQueue → NvmePairQueue
with_doorbells ctrl q = record q {
  sq_doorbell = add64 ctrl.bar0 (0x1000 + 2 * q.qid * ctrl.stride);
  cq_doorbell = add64 ctrl.bar0 (0x1000 + (2 * q.qid + 1) * ctrl.stride);
}

abbrev pub second_ring :
    NvmePairQueue → Option (Bool × NvmeController) → Option (Option NvmePairQueue × NvmeController)
second_ring q none = none
second_ring q (some (false, ctrl)) = some (none, ctrl)
second_ring q (some (true, ctrl)) =
    some (some (with_doorbells ctrl q), record ctrl { next_qid = (ctrl.next_qid + 1) % 256 })

-- Identify with the kind of data `cns`, to a page taken for it.
abbrev pub identify_command : (cns nsid page : ℕ) → NvmeCommand
identify_command cns nsid page = record no_command {
  cdw0 = 0x06;
  cdw10 = cns;
  nsid = nsid;
  prp1 = page;
}

module _ (cq : ℕ → ℕ → NvmeCompletion) where
  -- The bound on the loop is in microseconds, while `elapsed` counts milliseconds.
  pub nvme_wait_admin :
      NvmePairQueue
      → (timeout_ms time : ℕ) → Option (Bool × Option NvmeCompletion × NvmePairQueue × ℕ)
  nvme_wait_admin q timeout_ms time =
      wait_loop take_admin admin_status cq (mul64 timeout_ms 1000 / 10 + 2) q
        (mul64 timeout_ms 1000) 0 time

  -- A command, and the wait for its completion.
  pub admin_command : NvmeController → NvmeCommand → Option (Bool × NvmeController)
  admin_command ctrl cmd =
      settle ctrl (nvme_wait_admin (nvme_submit_admin ctrl.admin cmd) 1000 ctrl.time)

  abbrev pub first_ring :
      NvmePairQueue
      → Option (Bool × NvmeController)
      → Option (Option NvmePairQueue × NvmeController)
  first_ring q none = none
  first_ring q (some (false, ctrl)) = some (none, ctrl)
  first_ring q (some (true, ctrl)) = second_ring q (admin_command ctrl (create_sq q))

  -- `block` is what `kmalloc` gives. Its result is not looked at: without a block the code writes
  -- through a null pointer.
  pub nvme_create_io_queue :
      NvmeController
      → (block : Option NvmePairQueue) → Option (Option NvmePairQueue × NvmeController)
  nvme_create_io_queue ctrl none = none
  nvme_create_io_queue ctrl (some memory) =
      let (cq_page, pmm1) = pmm_alloc_page ctrl.pmm 4096 in
      let (sq_page, pmm2) = pmm_alloc_page pmm1 4096 in
      let q = start_queue memory cq_page sq_page ctrl.next_qid in
      first_ring q (admin_command (record ctrl { pmm = pmm2 }) (create_cq q))

  abbrev pub identify : NvmeController → (cns nsid : ℕ) → Option (Bool × NvmeController)
  identify ctrl cns nsid =
      let (page, pmm') = pmm_alloc_page ctrl.pmm ctrl.page_size in
      admin_command (record ctrl { pmm = pmm' }) (identify_command cns nsid page)

  module _ (data_of : ℕ → NvmeIdNs) where
    abbrev pub enter : NvmeController → (nsid : ℕ) → NvmeController
    enter ctrl nsid =
        let ns : NvmeNamespace = record {
          nsid = nsid;
          size = (data_of nsid).nsze;
          lba_size = lba_size_of (data_of nsid);
          valid = true;
        } in
        record ctrl {
          namespaces = λ i. if i == nsid - 1 then ns else ctrl.namespaces i;
          num_namespaces = wrap32 (ctrl.num_namespaces + 1);
          disks = ctrl.disks ++ ((nsid, ns.lba_size) ∷ []);
        }

    abbrev pub identified : (nsid : ℕ) → Option (Bool × NvmeController) → Option NvmeController
    identified nsid none = none
    identified nsid (some (ok, ctrl)) = some (if ok then enter ctrl nsid else ctrl)

    -- The loop of `nvme_init_namespaces` over the entries from `i` on, with `nvme_identify_namespace`
    -- and `nvme_init_namespace` for each.
    pub namespace_loop : (n : ℕ) → NvmeController → (ids : ℕ → ℕ) (i : ℕ) → Option NvmeController
    namespace_loop zero ctrl ids i = some ctrl
    namespace_loop (suc n) ctrl ids i =
        let rest : Option NvmeController = elim (identified (ids i) (identify ctrl 0 (ids i))) [
          | none ↦ none
          | some ctrl' ↦ namespace_loop n ctrl' ids (i + 1)
        ] in
        if ids i == 0 then some ctrl else rest

    abbrev pub list_read :
        (ids : ℕ → ℕ) → Option (Bool × NvmeController) → Option (Bool × NvmeController)
    list_read ids none = none
    list_read ids (some (false, ctrl)) = some (false, ctrl)
    list_read ids (some (true, ctrl)) = elim (namespace_loop 1024 ctrl ids 0) [
      | none ↦ none
      | some ctrl' ↦ some (true, ctrl')
    ]

    pub nvme_init_namespaces : NvmeController → (ids : ℕ → ℕ) → Option (Bool × NvmeController)
    nvme_init_namespaces ctrl ids = list_read ids (identify ctrl 2 0)
