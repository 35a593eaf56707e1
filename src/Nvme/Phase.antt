-- ===== src/Nvme/Phase.antt =====
-- The completion ring of src/drivers/x86/nvme.c against the sequence of completions.
use tomato_os.Base.{
  ℕ, zero, suc, ◌+◌, ◌-◌, ◌*◌, ◌/◌, ◌%◌, ◌≤◌, ◌<◌, bit_xor, ◌≡◌, refl, sym, ap, ◌∙◌, ◌≢◌, Bool,
  false, Option, none, some, arith, dec_lt, ℕ_discrete, ◌==◌, lt→ltb, le→ltb, ==_true, ne→==,
}
use mathlib.Core.Path.{subst}
use tomato_os.Base.Word.{add64}
use tomato_os.Nvme.{NvmeCompletion, NvmePairQueue, consume, wait_loop, nvme_wait_io, status_code}

-- What a controller does: `posted t` completions are there at time `t`, of which the last 64 stand in
-- the ring, number `k` in entry `k % 64` with a tag that turns at each round of the ring; an entry that
-- has not been written has the tag 0.
pub record Posts (cq : ℕ → ℕ → NvmeCompletion) (posted : ℕ → ℕ) (completion : ℕ → NvmeCompletion)
    : Type 0 where
  pub there : (t k : ℕ) → k < posted t → posted t ≤ k + 64 → cq t (k % 64) ≡ completion k
  pub blank : (t i : ℕ) → posted t ≤ i → i < 64 → (cq t i).status % 2 ≡ 0
  pub tagged : (k : ℕ) → (completion k).status % 2 ≡ (k / 64 + 1) % 2

-- `c` completions have been taken from the ring.
pub record Tracks (q : NvmePairQueue) (c : ℕ) : Type 0 where
  pub size : q.cq_size ≡ 63
  pub head : q.cq_head ≡ c % 64
  pub phase : q.phase ≡ (c / 64 + 1) % 2

xor_one : (p : ℕ) → p < 2 → bit_xor p 1 ≡ 1 - p
xor_one zero lt = refl
xor_one (suc zero) lt = refl
xor_one (suc (suc p)) lt = absurd (omega arith)

pub consume-Tracks : (q : NvmePairQueue) (c : ℕ) → Tracks q c → Tracks (consume q) (c + 1)
unfolding consume
consume-Tracks q c tracks =
    let head : add64 q.cq_head 1 % (q.cq_size + 1) ≡ (c + 1) % 64 =
      ap (λ (n : ℕ). add64 q.cq_head 1 % (n + 1)) tracks.size ∙ (omega (arith, tracks.head)) in
    let flip = xor_one q.phase (omega (arith, tracks.phase)) in
    record { size = tracks.size; head = head; phase = ground (arith, head, flip, tracks.phase) }

-- How a wait of at most `rounds` looks from `time` on ends.
pub data Waited (posted : ℕ → ℕ) (completion : ℕ → NvmeCompletion) (c : ℕ)
    (code : NvmeCompletion → ℕ) (q : NvmePairQueue) (rounds time : ℕ)
    : Option (Bool × Option NvmeCompletion × NvmePairQueue × ℕ) → Type 0 where
  answered :
      {q' : NvmePairQueue} (t : ℕ)
      → time ≤ t
      → t < time + rounds
      → c < posted t
      → ((s : ℕ) → time ≤ s → s < t → posted s ≡ c)
      → Tracks q' (c + 1)
      → Waited posted completion c code q rounds time
          (some (code (completion c) == 0, some (completion c), q', t + 1))
  timed_out :
      {end : ℕ}
      → ((s : ℕ) → time ≤ s → s < time + rounds → posted s ≡ c)
      → end ≡ time + rounds
      → Waited posted completion c code q rounds time (some (false, none, q, end))

module _ (cq : ℕ → ℕ → NvmeCompletion) (posted : ℕ → ℕ) (completion : ℕ → NvmeCompletion)
    (posts : Posts cq posted completion) (c : ℕ) (from : ℕ)
    (ahead : (t : ℕ) → from ≤ t → (c ≤ posted t) × (posted t ≤ c + 64))
    (take : NvmePairQueue → NvmePairQueue) (code : NvmeCompletion → ℕ)
    (takes : (q : NvmePairQueue) → Tracks q c → Tracks (take q) (c + 1)) where
  seen :
      (t : ℕ)
      → from ≤ t
      → c < posted t
      → (cq t (c % 64) ≡ completion c) × ((cq t (c % 64)).status % 2 ≡ (c / 64 + 1) % 2)
  seen t after more =
      let e = posts.there t c more (ahead t after).1 in
      (e, ap (λ x. x.status % 2) e ∙ posts.tagged c)

  -- A completion of the last round has the other tag.
  stale : (t : ℕ) → posted t ≡ c → (cq t (c % 64)).status % 2 ≢ (c / 64 + 1) % 2
  stale t none_new = elim (dec_lt c 64) [
    | yes early ↦ omega (arith, posts.blank t (c % 64) (omega arith) (omega arith))
    | no late ↦
        let e : cq t (c % 64) ≡ completion (c - 64) =
          ap (cq t) (omega arith) ∙ posts.there t (c - 64) (omega arith) (omega arith) in
        omega (arith, ap (λ x. x.status % 2) e, posts.tagged (c - 64))
  ]

  later :
      (q : NvmePairQueue) (rounds time : ℕ)
      → posted time ≡ c
      → {r : Option (Bool × Option NvmeCompletion × NvmePairQueue × ℕ)}
      → Waited posted completion c code q rounds (time + 1) r
      → Waited posted completion c code q (rounds + 1) time r
  later q rounds time now (answered t le lt more before tracks) =
      answered t (omega arith) (omega arith) more
        (λ s le' lt'. elim (ℕ_discrete s time) [
          | yes here ↦ ap posted here ∙ now
          | no past ↦ before s (omega arith) lt'
        ])
        tracks
  later q rounds time now (timed_out none_new at) =
      timed_out
        (λ s le lt. elim (ℕ_discrete s time) [
          | yes here ↦ ap posted here ∙ now
          | no past ↦ none_new s (omega arith) (omega arith)
        ])
        (omega arith)

  pub wait_loop-Waited :
      (fuel : ℕ) (q : NvmePairQueue) (timeout_ms elapsed time : ℕ)
      → from ≤ time
      → elapsed ≤ timeout_ms + 9
      → timeout_ms + 10 ≤ elapsed + 10 * fuel
      → Tracks q c
      → Waited posted completion c code q
          ((timeout_ms + 9 - elapsed) / 10)
          time
          (wait_loop take code cq fuel q timeout_ms elapsed time)
  unfolding wait_loop
  wait_loop-Waited zero q timeout_ms elapsed time after le enough tracks = absurd (omega arith)
  wait_loop-Waited (suc fuel) q timeout_ms elapsed time after le enough tracks =
      let status = (cq time q.cq_head).status % 2 in
      elim (dec_lt elapsed timeout_ms) [
        | no over ↦
            rw (le→ltb elapsed timeout_ms (omega arith))
              (timed_out (λ s le' lt. absurd (omega arith)) (omega arith))
        | yes left ↦ rw (lt→ltb elapsed timeout_ms left) (elim (ℕ_discrete (posted time) c) [
          | yes none_new ↦
              let other : status ≢ q.phase = λ e.
                stale time none_new
                  (ap (λ h. (cq time h).status % 2) (sym tracks.head) ∙ e ∙ tracks.phase) in
              let rest =
                wait_loop-Waited fuel q timeout_ms (elapsed + 10) (time + 1) (omega arith)
                  (omega arith) (omega arith) tracks in
              let rest_of = wait_loop take code cq fuel q timeout_ms (elapsed + 10) (time + 1) in
              let one_less : (timeout_ms + 9 - (elapsed + 10)) / 10 + 1
                  ≡ (timeout_ms + 9 - elapsed) / 10 =
                omega arith in
              rw (ne→== status q.phase other) (
                subst (λ n. Waited posted completion c code q n time rest_of) one_less
                  (later q _ time none_new rest))
          | no new ↦
              let (same, tag) = seen time after (omega (arith, ahead time after)) in
              let turn : status ≡ q.phase =
                ap (λ h. (cq time h).status % 2) tracks.head ∙ tag ∙ sym tracks.phase in
              let this : cq time q.cq_head ≡ completion c = ap (cq time) tracks.head ∙ same in
              rw (==_true status q.phase turn) (
                rw this (
                  answered time (omega arith) (omega arith) (omega (arith, ahead time after))
                    (λ s le' lt. absurd (omega arith)) (takes q tracks)))
        ])
      ]

module _ (cq : ℕ → ℕ → NvmeCompletion) (posted : ℕ → ℕ) (completion : ℕ → NvmeCompletion)
    (posts : Posts cq posted completion) (c : ℕ) (from : ℕ)
    (ahead : (t : ℕ) → from ≤ t → (c ≤ posted t) × (posted t ≤ c + 64)) where
  -- A wait with a timeout of `timeout_ms` ends after at most a tenth as many looks, rounded up: at the
  -- first look at which completion number `c` is there, it gives that completion, and whether its
  -- status is 0, and the ring then stands at number `c + 1`; or no look finds it, the result is false,
  -- and the ring is as before. For this the controller writes the completions in turn, with a tag that
  -- turns at each round of the ring, and from `from` on has
  -- posted number `c - 1`, if any, and does not overwrite those that have not been taken.
  pub nvme_wait_io-Waited :
      (q : NvmePairQueue) (timeout_ms time : ℕ)
      → from ≤ time
      → Tracks q c
      → Waited posted completion c status_code q
          ((timeout_ms + 9) / 10)
          time
          (nvme_wait_io cq q timeout_ms time)
  unfolding nvme_wait_io
  nvme_wait_io-Waited q timeout_ms time after tracks =
      let end = wait_loop consume status_code cq (timeout_ms / 10 + 2) q timeout_ms 0 time in
      let rounds : (timeout_ms + 9 - 0) / 10 ≡ (timeout_ms + 9) / 10 = omega arith in
      subst (λ n. Waited posted completion c status_code q n time end) rounds
        (wait_loop-Waited cq posted completion posts c from ahead consume status_code
          (λ q'. consume-Tracks q' c) (timeout_ms / 10 + 2) q timeout_ms 0 time after (omega arith)
          (omega arith) tracks)
