-- ===== src/Nvme.antt =====
-- The input and output commands of src/drivers/x86/nvme.c: the submission ring, the transfer lists,
-- and the completion ring with its phase bit. What the controller writes is a parameter: `cq` is the
-- completion ring as it reads at each time, and the time is the number of looks at it. The data that
-- the controller moves is left out, and so are the memory barriers and the log.
pub mod Admin
pub mod Pages
pub mod Transfer
pub mod Phase
pub mod Commands
mod Tests
use tomato_os.Base.{
  ℕ, zero, suc, ◌+◌, ◌-◌, ◌*◌, ◌/◌, ◌%◌, ◌^◌, ◌≤◌, ◌<◌, bit_and, bit_or, bit_xor, ◌≡◌, refl, sym,
  ap, ◌∙◌, fun_ext, ◌≢◌, ◌↔◌, ◌⊎◌, inl, inr, Bool, true, false, ◌&&◌, ◌||◌, not, Option, none, some,
  List, [], ◌∷◌, ◌++◌, arith, dec_lt, dec_le, ℕ_discrete, ltb, leb, ◌==◌, if◌then◌else◌, ltb→lt,
  lt→ltb, ltb→le, le→ltb, ==_iff, ==_refl, ==_true, ne→==, Bool-cases, Option-cases, all_below,
  all_below_sound, length, get_elem?, set, length-append, length-set,
}
use tomato_os.Base.Word.{add64, mul64, wrap32, sub32}
use tomato_os.Pmm.{pmm_alloc_page, pmm_free}
use tomato_os.Paging.{Paging, get_physical_address}
use tomato_os.Paging.Boot.{pages_of}

-- `struct nvme_command`; the words that are left out are 0.
pub record NvmeCommand : Type 0 where
  pub cdw0 : ℕ
  pub nsid : ℕ
  pub prp1 : ℕ
  pub prp2 : ℕ
  pub cdw10 : ℕ
  pub cdw11 : ℕ
  pub cdw12 : ℕ

pub record NvmeCompletion : Type 0 where
  pub result : ℕ
  pub sq_head : ℕ
  pub sq_id : ℕ
  pub command_id : ℕ
  pub status : ℕ

-- `struct nvme_pair_queue`, with what stands in the submission ring and what was
-- last written to the doorbells. `sq_size`
-- and `cq_size` are one less than the number of entries.
pub record NvmePairQueue : Type 0 where
  pub sq : ℕ → NvmeCommand
  pub sq_address : ℕ
  pub sq_size : ℕ
  pub cq_address : ℕ
  pub cq_size : ℕ
  pub sq_tail : ℕ
  pub cq_head : ℕ
  pub phase : ℕ
  pub qid : ℕ
  pub sq_doorbell : ℕ
  pub cq_doorbell : ℕ
  pub sq_rung : ℕ
  pub cq_rung : ℕ
  pub locked : Bool

-- The page tables with the page allocator, the lists of pages in memory by their physical address,
-- the main queue, and the time.
pub record Nvme : Type 0 where
  pub paging : Paging
  pub lists : ℕ → ℕ → ℕ
  pub queue : NvmePairQueue
  pub time : ℕ

-- The copy of the command to the ring, and the doorbell.
pub submit : NvmePairQueue → NvmeCommand → NvmePairQueue
submit q cmd =
    let tail = add64 q.sq_tail 1 % (q.sq_size + 1) in
    record q {
      sq = λ i. if i == q.sq_tail then cmd else q.sq i;
      sq_tail = tail;
      sq_rung = wrap32 tail;
    }

-- The command without its addresses of memory.
abbrev pub command : (opcode nsid prp1 lba num_blocks : ℕ) → NvmeCommand
command opcode nsid prp1 lba num_blocks = record {
  cdw0 = opcode;
  nsid = nsid;
  prp1 = prp1;
  prp2 = 0;
  cdw10 = wrap32 lba;
  cdw11 = wrap32 (lba / 2 ^ 32);
  cdw12 = sub32 num_blocks 1;
}

-- The loop over the pages from `i` on; the result says whether all are mapped.
pub fill_list : Paging → (buffer i n : ℕ) → (ℕ → ℕ) → Bool × (ℕ → ℕ)
fill_list p buffer i zero l = (true, l)
fill_list p buffer i (suc n) l =
    let phys = get_physical_address p (add64 buffer (mul64 i 4096)) in
    let rest = fill_list p buffer (i + 1) n (λ j. if j == i - 1 then phys else l j) in
    if phys == 0 then (false, l) else rest

abbrev pub with_list : Nvme → (page : ℕ) → (ℕ → ℕ) → Nvme
with_list m page l = record m { lists = λ p. if p == page then l else m.lists p }

abbrev pub with_pmm : Nvme → Paging → Nvme
with_pmm m p = record m { paging = p }

-- More than two pages, or none: the second address is that of a list, on a page of its own.
pub send_list : Nvme → NvmeCommand → (buffer num_pages : ℕ) → Nvme
send_list m cmd buffer num_pages =
    let (list_phys, pmm') = pmm_alloc_page m.paging.pmm 4096 in
    let taken = record m.paging { pmm = pmm' } in
    let (all_mapped, l) = fill_list taken buffer 1 (num_pages - 1) (m.lists list_phys) in
    let filled = with_list m list_phys l in
    if all_mapped
    then record filled { paging = taken; queue = submit m.queue (record cmd { prp2 = list_phys }) }
    else record filled { paging = record taken { pmm = pmm_free pmm' list_phys 1 } }

pub send_two : Nvme → NvmeCommand → (buffer : ℕ) → Nvme
send_two m cmd buffer =
    let second = get_physical_address m.paging (add64 buffer 4096) in
    if second == 0 then m else record m { queue = submit m.queue (record cmd { prp2 = second }) }

-- Where the buffer is not mapped, nothing is sent, and nothing tells the caller.
pub nvme_send_io : Nvme → (opcode nsid buffer lba num_blocks transfer_bytes : ℕ) → Nvme
nvme_send_io m opcode nsid buffer lba num_blocks transfer_bytes =
    let data_phys = get_physical_address m.paging buffer in
    let cmd = command opcode nsid data_phys lba num_blocks in
    let num_pages = pages_of transfer_bytes in
    if data_phys == 0
    then m
    else (if num_pages == 1
        then record m { queue = submit m.queue cmd }
        else (if num_pages == 2 then send_two m cmd buffer else send_list m cmd buffer num_pages))

-- `status >> 1 & 0x7FFF`
abbrev pub status_code : NvmeCompletion → ℕ
status_code c = c.status / 2 % 2 ^ 15

-- The entry at the head is taken: the phase turns where the ring starts again.
pub consume : NvmePairQueue → NvmePairQueue
consume q =
    let head = add64 q.cq_head 1 % (q.cq_size + 1) in
    record q {
      cq_head = head;
      phase = if head == 0 then bit_xor q.phase 1 else q.phase;
      cq_rung = wrap32 head;
    }

-- The loop of `nvme_wait_io` and `nvme_wait_admin`, with the completion that it stores, if any, and the
-- time behind it. `take` takes the entry at the head, and `code` is its status code. The result `none`
-- means that the fuel is out.
pub wait_loop :
    (take : NvmePairQueue → NvmePairQueue) (code : NvmeCompletion → ℕ) (cq : ℕ → ℕ → NvmeCompletion)
    (fuel : ℕ)
    → NvmePairQueue
    → (timeout elapsed time : ℕ) → Option (Bool × Option NvmeCompletion × NvmePairQueue × ℕ)
wait_loop take code cq zero q timeout elapsed time = none
wait_loop take code cq (suc fuel) q timeout elapsed time =
    let c = cq time q.cq_head in
    let rest = wait_loop take code cq fuel q timeout (elapsed + 10) (time + 1) in
    if ltb elapsed timeout
    then (if c.status % 2 == q.phase then some (code c == 0, some c, take q, time + 1) else rest)
    else some (false, none, q, time)

-- What `nvme_read` and `nvme_write` do with the result of the wait.
abbrev pub finish :
    Nvme → Option (Bool × Option NvmeCompletion × NvmePairQueue × ℕ) → Option (Bool × Nvme)
finish m none = none
finish m (some (ok, none, q, time)) = some (false, record m { queue = q; time = time })
finish m (some (ok, some c, q, time)) =
    some (ok && status_code c == 0, record m { queue = q; time = time })

abbrev pub unlock : Option (Bool × Nvme) → Option (Bool × Nvme)
unlock none = none
unlock (some (ok, m)) = some (ok, record m { queue = record m.queue { locked = false } })

module _ (cq : ℕ → ℕ → NvmeCompletion) where
  -- Every round adds 10 to `elapsed`.
  pub nvme_wait_io :
      NvmePairQueue
      → (timeout_ms time : ℕ) → Option (Bool × Option NvmeCompletion × NvmePairQueue × ℕ)
  nvme_wait_io q timeout_ms time =
      wait_loop consume status_code cq (timeout_ms / 10 + 2) q timeout_ms 0 time

  -- `lba_size` is that of the namespace. A lock that is taken is waited for for ever: `none`.
  pub nvme_read : Nvme → (nsid lba_size buffer lba len_in_blocks : ℕ) → Option (Bool × Nvme)
  nvme_read m nsid lba_size buffer lba len_in_blocks =
      let locked = record m { queue = record m.queue { locked = true } } in
      let sent =
        nvme_send_io locked 0x02 nsid buffer lba (len_in_blocks % 2 ^ 16)
          (mul64 len_in_blocks lba_size) in
      if not (buffer % 4096 == 0)
      then some (false, m)
      else (if m.queue.locked
          then none
          else unlock (finish sent (nvme_wait_io sent.queue 1000 sent.time)))

  -- `nvme_write` does not take the lock.
  pub nvme_write : Nvme → (nsid lba_size buffer lba len_in_blocks : ℕ) → Option (Bool × Nvme)
  nvme_write m nsid lba_size buffer lba len_in_blocks =
      let sent =
        nvme_send_io m 0x01 nsid buffer lba (len_in_blocks % 2 ^ 16)
          (mul64 len_in_blocks lba_size) in
      if not (buffer % 4096 == 0)
      then some (false, m)
      else finish sent (nvme_wait_io sent.queue 5000 sent.time)
