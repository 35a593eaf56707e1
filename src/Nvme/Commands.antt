-- ===== src/Nvme/Commands.antt =====
-- `nvme_read` and `nvme_write` of src/drivers/x86/nvme.c, from the call to the result.
use tomato_os.Base.{
  ℕ, ◌+◌, ◌/◌, ◌%◌, ◌^◌, ◌≤◌, ◌<◌, ◌≡◌, refl, ◌∙◌, Bool, true, false, ◌&&◌, Option, none, some,
  arith, ◌==◌, if◌then◌else◌, ==_true,
}
use mathlib.Core.Path.{subst}
use tomato_os.Base.Word.{add64, mul64}
use tomato_os.Paging.{get_physical_address}
use tomato_os.Paging.Boot.{pages_of}
use tomato_os.Nvme.{
  command, NvmeCompletion, NvmeCommand, NvmePairQueue, Nvme, submit, send_list, send_two,
  nvme_send_io, nvme_wait_io, status_code, finish, unlock, nvme_read, nvme_write,
}
use tomato_os.Nvme.Phase.{Posts, Tracks, Waited, answered, timed_out, nvme_wait_io-Waited}

-- What sending leaves alone.
record SameRing (m m' : Nvme) : Type 0 where
  size : m'.queue.cq_size ≡ m.queue.cq_size
  head : m'.queue.cq_head ≡ m.queue.cq_head
  phase : m'.queue.phase ≡ m.queue.phase
  time : m'.time ≡ m.time

pick : {m x y : Nvme} (b : Bool) → SameRing m x → SameRing m y → SameRing m (if b then x else y)
pick true x y = x
pick false x y = y

-- Only the submission side and the memory differ.
same :
    (m : Nvme) (q : NvmePairQueue)
    → q.cq_size ≡ m.queue.cq_size
    → q.cq_head ≡ m.queue.cq_head
    → q.phase ≡ m.queue.phase
    → SameRing m (record m { queue = q })
same m q size head phase = record { size = size; head = head; phase = phase; time = refl }

unchanged : (m : Nvme) → SameRing m m
unchanged m = record { size = refl; head = refl; phase = refl; time = refl }

sent_ring : (m : Nvme) (cmd : NvmeCommand) → SameRing m (record m { queue = submit m.queue cmd })
unfolding submit
sent_ring m cmd = same m (submit m.queue cmd) refl refl refl

send_list-SameRing :
    (m : Nvme) (cmd : NvmeCommand) (buffer num_pages : ℕ)
    → SameRing m (send_list m cmd buffer num_pages)
unfolding send_list submit
send_list-SameRing m cmd buffer num_pages = ground arith

nvme_send_io-SameRing :
    (m : Nvme) (opcode nsid buffer lba num_blocks bytes : ℕ)
    → SameRing m (nvme_send_io m opcode nsid buffer lba num_blocks bytes)
unfolding nvme_send_io send_two submit
nvme_send_io-SameRing m opcode nsid buffer lba num_blocks bytes =
    let phys = get_physical_address m.paging buffer in
    let cmd = command opcode nsid phys lba num_blocks in
    let n = pages_of bytes in
    let second = get_physical_address m.paging (add64 buffer 4096) in
    pick (phys == 0) (unchanged m) (
      pick (n == 1) (sent_ring m cmd) (
        pick (n == 2)
          (pick (second == 0) (unchanged m) (sent_ring m (record cmd { prp2 = second })))
          (send_list-SameRing m cmd buffer n)))

-- The transfer is answered within `rounds` looks from `time` on, or it is not.
pub data Done (posted : ℕ → ℕ) (completion : ℕ → NvmeCompletion) (c rounds time : ℕ)
    : Option (Bool × Nvme) → Type 0 where
  answer :
      {m' : Nvme} {ok : Bool} (t : ℕ)
      → time ≤ t
      → t < time + rounds
      → c < posted t
      → ok ≡ (status_code (completion c) == 0)
      → Tracks m'.queue (c + 1)
      → Done posted completion c rounds time (some (ok, m'))
  silence :
      {m' : Nvme}
      → ((t : ℕ) → time ≤ t → t < time + rounds → posted t ≡ c)
      → Tracks m'.queue c
      → Done posted completion c rounds time (some (false, m'))

both_same : (b : Bool) → (b && b) ≡ b
both_same true = refl
both_same false = refl

finish-Done :
    (posted : ℕ → ℕ) (completion : ℕ → NvmeCompletion) (c : ℕ) (m : Nvme) (q : NvmePairQueue)
    (rounds time : ℕ) {r : Option (Bool × Option NvmeCompletion × NvmePairQueue × ℕ)}
    → Tracks q c
    → Waited posted completion c status_code q rounds time r
    → Done posted completion c rounds time (finish m r)
finish-Done posted completion c m q rounds time tracks (answered t le lt more before tracks') =
    answer t le lt more (both_same (status_code (completion c) == 0)) tracks'
finish-Done posted completion c m q rounds time tracks (timed_out none_new at) =
    silence none_new tracks

unlock-Done :
    (posted : ℕ → ℕ) (completion : ℕ → NvmeCompletion) (c rounds time : ℕ)
    {r : Option (Bool × Nvme)}
    → Done posted completion c rounds time r
    → Done posted completion c rounds time (unlock r)
unlock-Done posted completion c rounds time (answer t le lt more ok tracks) =
    answer t le lt more ok (record { size = tracks.size; head = tracks.head; phase = tracks.phase })
unlock-Done posted completion c rounds time (silence none_new tracks) =
    silence none_new (record { size = tracks.size; head = tracks.head; phase = tracks.phase })

abbrev pub Unlocked : Option (Bool × Nvme) → Type 0
Unlocked none = ⊥
Unlocked (some (ok, m)) = m.queue.locked ≡ false

unlock-Unlocked :
    (posted : ℕ → ℕ) (completion : ℕ → NvmeCompletion) (c rounds time : ℕ)
    (r : Option (Bool × Nvme))
    → Done posted completion c rounds time r
    → Unlocked (unlock r)
unlock-Unlocked posted completion c rounds time none done = elim done [ ]
unlock-Unlocked posted completion c rounds time (some (ok, m)) done = refl

locked_ring : (m : Nvme) → SameRing m (record m { queue = record m.queue { locked = true } })
locked_ring m = record { size = refl; head = refl; phase = refl; time = refl }

module _ (cq : ℕ → ℕ → NvmeCompletion) (posted : ℕ → ℕ) (completion : ℕ → NvmeCompletion)
    (posts : Posts cq posted completion) (c : ℕ) (m : Nvme)
    (nsid lba_size buffer lba len_in_blocks : ℕ)
    (ahead : (t : ℕ) → m.time ≤ t → (c ≤ posted t) × (posted t ≤ c + 64))
    (tracks : Tracks m.queue c) (aligned : buffer % 4096 ≡ 0) where
  sent_wait :
      (m0 : Nvme) (opcode timeout_ms : ℕ)
      → SameRing m m0
      → let sent =
          nvme_send_io m0 opcode nsid buffer lba
            (len_in_blocks % 2 ^ 16)
            (mul64 len_in_blocks lba_size) in
        Done posted completion c
          ((timeout_ms + 9) / 10)
          m.time
          (finish sent (nvme_wait_io cq sent.queue timeout_ms sent.time))
  sent_wait m0 opcode timeout_ms same0 =
      let sent =
        nvme_send_io m0 opcode nsid buffer lba (len_in_blocks % 2 ^ 16)
          (mul64 len_in_blocks lba_size) in
      let ring =
        nvme_send_io-SameRing m0 opcode nsid buffer lba (len_in_blocks % 2 ^ 16)
          (mul64 len_in_blocks lba_size) in
      let tracks' : Tracks sent.queue c = record {
        size = ring.size ∙ same0.size ∙ tracks.size;
        head = ring.head ∙ same0.head ∙ tracks.head;
        phase = ring.phase ∙ same0.phase ∙ tracks.phase;
      } in
      let time : sent.time ≡ m.time = ring.time ∙ same0.time in
      finish-Done posted completion c sent sent.queue ((timeout_ms + 9) / 10) m.time tracks' (
        subst
          (λ t.
            Waited posted completion c status_code sent.queue ((timeout_ms + 9) / 10) t
              (nvme_wait_io cq sent.queue timeout_ms sent.time))
          time
          (nvme_wait_io-Waited cq posted completion posts c m.time ahead sent.queue timeout_ms
            sent.time (omega (arith, time)) tracks'))

  -- For a buffer that starts a page and a controller that posts its completions
  -- in turn, `nvme_write` always returns: if completion number `c` is there at one of 500 looks, with
  -- whether its status is 0, and otherwise with false; the ring then stands behind the completion, or
  -- where it was.
  pub nvme_write-Done :
      Done posted completion c 500 m.time (nvme_write cq m nsid lba_size buffer lba len_in_blocks)
  unfolding nvme_write
  nvme_write-Done = rw (==_true (buffer % 4096) 0 aligned) (sent_wait m 0x01 5000 (unchanged m))

  -- For a buffer that starts a page, a lock that is free, and a controller that posts its completions
  -- in turn, `nvme_read` always returns, with the lock free again: if completion number `c` is there at
  -- one of 100 looks, with whether its status is 0, and otherwise with false; the ring then stands
  -- behind the completion, or where it was.
  pub nvme_read-Done :
      m.queue.locked ≡ false
      → let r = nvme_read cq m nsid lba_size buffer lba len_in_blocks in
        Done posted completion c 100 m.time r × Unlocked r
  unfolding nvme_read
  nvme_read-Done free =
      let m0 = record m { queue = record m.queue { locked = true } } in
      let inner = sent_wait m0 0x02 1000 (locked_ring m) in
      rw (==_true (buffer % 4096) 0 aligned, free)
        (
          unlock-Done posted completion c 100 m.time inner,
          unlock-Unlocked posted completion c 100 m.time _ inner,
        )
