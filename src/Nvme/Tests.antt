-- ===== src/Nvme/Tests.antt =====
-- Runs of src/drivers/x86/nvme.c with a small controller, and the theorems at them.
use tomato_os.Base.{
  ℕ, ◌+◌, ◌/◌, ◌%◌, ◌≡◌, refl, sym, ap, ◌∙◌, true, false, ◌&&◌, not, some, [], arith, ltb, ◌==◌,
  if◌then◌else◌,
}
use tomato_os.Pmm.{Pmm}
use tomato_os.Paging.{Tables, zero_entry, get_physical_address}
use tomato_os.Nvme.{
  NvmeCompletion, NvmePairQueue, Nvme, submit, send_two, nvme_send_io, nvme_wait_io, wait_loop,
  consume, nvme_read, status_code,
}
use tomato_os.Nvme.Admin.{NvmeController, no_command, lba_size_of}
use tomato_os.Nvme.Transfer.{Sent, nvme_send_io-Sent}
use tomato_os.Nvme.Phase.{Posts, Tracks, Waited, nvme_wait_io-Waited}
use tomato_os.Nvme.Commands.{Done, Unlocked, nvme_read-Done}

abbrev pmm : Pmm
pmm = record {
  physical_base = 0x10_0000;
  physical_size = 0x1_0000;
  bitmap = λ b. 0;
  total_pages = 16;
  bitmap_size = 2;
  usable_base = 0x10_1000;
}

-- Tables at 0x1000 to 0x4000, of which the last maps page `i` to page `0x100 + i`.
abbrev tables : Tables
tables t i = record zero_entry {
  present = true;
  physical_address = if t == 0x4000 then 0x100 + i else t / 0x1000 + 1;
}

abbrev idle : NvmePairQueue
idle = record {
  sq = λ i. no_command;
  sq_address = 0x20_0000;
  sq_size = 63;
  cq_address = 0x20_1000;
  cq_size = 63;
  sq_tail = 63;
  cq_head = 0;
  phase = 1;
  qid = 1;
  sq_doorbell = 0;
  cq_doorbell = 0;
  sq_rung = 0;
  cq_rung = 0;
  locked = false;
}

abbrev start : Nvme
start = record {
  paging = record { pmm = pmm; tables = tables; pml4 = 0x1000; hhdm = 0 };
  lists = λ p i. 0;
  queue = idle;
  time = 5;
}

-- Completion number `k` has the status 0 and the tag of its round. All are posted at time 7, when the
-- first is; before that, none is.
abbrev completion : ℕ → NvmeCompletion
completion k = record {
  result = 0;
  sq_head = 0;
  sq_id = 1;
  command_id = 0;
  status = (k / 64 + 1) % 2;
}

abbrev posted : ℕ → ℕ
posted t = if ltb t 7 then 0 else 1

abbrev cq : ℕ → ℕ → NvmeCompletion
cq t i =
    if i == 0 && not (ltb t 7)
    then completion 0
    else record { result = 0; sq_head = 0; sq_id = 0; command_id = 0; status = 0 }

posts : Posts cq posted completion
posts = record {
  there = λ t k lt le.
      let zeroth : k ≡ 0 = ground arith in
      let late : ltb t 7 ≡ false = ground arith in
      ap (λ n. cq t (n % 64)) zeroth
      ∙ ap (λ b. if not b then completion 0 else cq 0 0) late
      ∙ sym (ap completion zeroth);
  blank = λ t i le lt. ground arith;
  tagged = λ k. omega arith;
}

idle-Tracks : Tracks idle 0
idle-Tracks = record { size = refl; head = refl; phase = refl }

-- Eight blocks of 512 bytes in one page, from a tail that is the last entry of the ring.
nvme_send_io-Sent_example : Sent start 2 1 0x7000 8 8 1 (nvme_send_io start 2 1 0x7000 8 8 4096)
nvme_send_io-Sent_example =
    nvme_send_io-Sent start 2 1 0x7000 8 8 (omega arith) (omega arith) (omega arith) (omega arith)
      (omega arith) (record { bytes = λ b. ground arith; no_wrap = omega arith }) (omega arith) 4096
      (omega arith) (omega arith)

sent_pages :
    let q = (nvme_send_io start 2 1 0x7000 8 16 8192).queue in
    ((q.sq 63).prp1 ≡ 0x10_7000) × ((q.sq 63).prp2 ≡ 0x10_8000) × (q.sq_tail ≡ 0)
unfolding nvme_send_io send_two submit get_physical_address
sent_pages = (refl, refl, refl)

nvme_wait_io-Waited_example :
    Waited posted completion 0 status_code idle ((1000 + 9) / 10) 5 (nvme_wait_io cq idle 1000 5)
nvme_wait_io-Waited_example =
    nvme_wait_io-Waited cq posted completion posts 0 5 (λ t le. ground arith) idle 1000 5
      (omega arith) idle-Tracks

-- The third look finds the completion.
waited_three :
    nvme_wait_io cq idle 1000 5
    ≡ some (true, some (completion 0), record idle { cq_head = 1; cq_rung = 1 }, 8)
unfolding nvme_wait_io wait_loop consume
waited_three = refl

nvme_read-Done_example :
    let r = nvme_read cq start 1 512 0x7000 8 8 in Done posted completion 0 100 5 r × Unlocked r
nvme_read-Done_example =
    nvme_read-Done cq posted completion posts 0 start 1 512 0x7000 8 8 (λ t le. ground arith)
      idle-Tracks refl refl

abbrev controller : NvmeController
controller = record {
  bar0 = 0xffff_8000_fee0_0000;
  stride = 4;
  page_size = 4096;
  admin = record idle { sq_tail = 0; qid = 0 };
  namespaces = λ i. record { nsid = 0; size = 0; lba_size = 0; valid = false };
  num_namespaces = 0;
  pmm = pmm;
  time = 0;
  next_qid = 1;
  disks = [];
}

-- The last of the formats, whose number is the field `nlbaf`, is not taken.
last_format : lba_size_of (record { nsze = 1; nlbaf = 0; flbas = 0; ds = λ i. 12 }) ≡ 512
unfolding lba_size_of
last_format = refl
