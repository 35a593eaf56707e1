-- ===== src/Nvme/Admin/Create.antt =====
-- `nvme_create_io_queue` of src/drivers/x86/nvme.c, whatever the controller answers.
use tomato_os.Base.{
  ℕ, ◌+◌, ◌/◌, ◌%◌, ◌≤◌, ◌<◌, ◌≡◌, ◌≢◌, ◌↔◌, Bool, true, false, Option, none, some,
}
use tomato_os.Pmm.{Pmm}
use tomato_os.Nvme.{NvmeCompletion, NvmeCommand, NvmePairQueue}
use tomato_os.Nvme.Admin.{NvmeController, take_admin, nvme_submit_admin, create_cq, create_sq}
use tomato_os.Nvme.Phase.{Tracks}

abbrev Answer : Type 0
Answer = Option (Bool × Option NvmeCompletion × NvmePairQueue × ℕ)

-- The looks that a wait of 1000 takes.
abbrev pub looks : ℕ
looks = 100000

-- What the controller answers to what was submitted to `q`, within a number of looks at the entry at
-- the head of the ring, from `time` on: at the first look at which the tag of the entry is the phase,
-- its status says whether the command succeeded; without such a look it failed. `q'` and `end` are the
-- ring and the time behind the answer.
pub data Replied (cq : ℕ → ℕ → NvmeCompletion) (q : NvmePairQueue) (time rounds : ℕ) (ok : Bool)
    (q' : NvmePairQueue) (end : ℕ) : Type 0 where
  answered :
      (t : ℕ)
      → time ≤ t
      → t < time + rounds
      → ((s : ℕ) → time ≤ s → s < t → (cq s q.cq_head).status % 2 ≢ q.phase)
      → (cq t q.cq_head).status % 2 ≡ q.phase
      → (ok ≡ true) ↔ ((cq t q.cq_head).status / 2 % 256 ≡ 0)
      → q' ≡ take_admin q
      → end ≡ t + 1
      → Replied cq q time rounds ok q' end
  silent :
      ((s : ℕ) → time ≤ s → s < time + rounds → (cq s q.cq_head).status % 2 ≢ q.phase)
      → ok ≡ false
      → q' ≡ q
      → end ≡ time + rounds
      → Replied cq q time rounds ok q' end

data Settled (cq : ℕ → ℕ → NvmeCompletion) (q : NvmePairQueue) (time rounds : ℕ)
    : Answer → Type 0 where
  settled :
      {ok : Bool} {c : Option NvmeCompletion} {q' : NvmePairQueue} {end : ℕ}
      → Replied cq q time rounds ok q' end
      → Settled cq q time rounds (some (ok, c, q', end))

module _ (cq : ℕ → ℕ → NvmeCompletion) where
  -- A command that was submitted, and what came of it.
  data Answered (ctrl : NvmeController) (cmd : NvmeCommand)
      : Option (Bool × NvmeController) → Type 0 where
    answer :
        (ok : Bool) {q' : NvmePairQueue} {end : ℕ}
        → Replied cq (nvme_submit_admin ctrl.admin cmd) ctrl.time looks ok q' end
        → Answered ctrl cmd (some (ok, record ctrl { admin = q'; time = end }))

-- The queue starts as a ring from which nothing was taken, and to which nothing was added, exactly
-- when the head and the tail that stand in the block are 0 already.
pub record Starts (memory : NvmePairQueue) (qid : ℕ) (q : NvmePairQueue) : Type 0 where
  pub head : (Tracks q 0) ↔ (memory.cq_head ≡ 0)
  pub tail : q.sq_tail ≡ memory.sq_tail
  pub sizes : (q.sq_size ≡ 63) × (q.cq_size ≡ 63)
  pub number : q.qid ≡ qid
  pub free : q.locked ≡ false

module _ (cq : ℕ → ℕ → NvmeCompletion) (memory : NvmePairQueue) where
  -- The commands are those for the queue `q0`, which is in `memory`; `q1` and `q2` are the admin rings
  -- behind the first and the second answer, and `t1` and `t2` the times.
  pub data Created (ctrl : NvmeController) (q0 : NvmePairQueue)
      : Option (Option NvmePairQueue × NvmeController) → Type 0 where
    refused_cq :
        {q1 : NvmePairQueue} {t1 : ℕ} {ctrl' : NvmeController}
        → Replied cq (nvme_submit_admin ctrl.admin (create_cq q0)) ctrl.time looks false q1 t1
        → ctrl'.next_qid ≡ ctrl.next_qid
        → Created ctrl q0 (some (none, ctrl'))
    refused_sq :
        {q1 q2 : NvmePairQueue} {t1 t2 : ℕ} {ctrl' : NvmeController}
        → Replied cq (nvme_submit_admin ctrl.admin (create_cq q0)) ctrl.time looks true q1 t1
        → Replied cq (nvme_submit_admin q1 (create_sq q0)) t1 looks false q2 t2
        → ctrl'.next_qid ≡ ctrl.next_qid
        → Created ctrl q0 (some (none, ctrl'))
    created :
        {q1 q2 : NvmePairQueue} {t1 t2 : ℕ} {q : NvmePairQueue} {ctrl' : NvmeController}
        → Replied cq (nvme_submit_admin ctrl.admin (create_cq q0)) ctrl.time looks true q1 t1
        → Replied cq (nvme_submit_admin q1 (create_sq q0)) t1 looks true q2 t2
        → Starts memory ctrl.next_qid q
        → ctrl'.next_qid ≡ (ctrl.next_qid + 1) % 256
        → Created ctrl q0 (some (some q, ctrl'))
