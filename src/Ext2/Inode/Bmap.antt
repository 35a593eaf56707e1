-- ===== src/Ext2/Inode/Bmap.antt =====
-- Where `ext2_bmap` of src/fs/ext2/inode.c looks for a block of a file.
use tomato_os.Base.{
  ℕ, zero, suc, ◌+◌, ◌-◌, ◌*◌, ◌/◌, ◌%◌, ◌≤◌, ◌<◌, ◌≡◌, refl, sym, Option, none, some, List, [],
  ◌∷◌, arith, dec_lt, ◌==◌, if◌then◌else◌, lt→ltb, le→ltb,
}
use tomato_os.Disk.{Disk}
use tomato_os.Ext2.{Fs, Outcome}
use tomato_os.Ext2.Inode.{Inode, ◌>>=◌, read_ptr, next_ptr, bmap}
use native.Mathlib.Nat.{mul_assoc, div-add-mod', mod-lt, div-lt_iff_lt-mul}

-- The place of block `fb` of a file in an inode whose pointer blocks hold `ppb` pointers: the entry
-- of `i_block`, and the entry of each pointer block on the way.
pub data Place (ppb fb : ℕ) : (slot : ℕ) → (path : List ℕ) → Type 0 where
  direct : fb < 12 → Place ppb fb fb []
  single : {i : ℕ} → i < ppb → fb ≡ 12 + i → Place ppb fb 12 (i ∷ [])
  double :
      {i j : ℕ} → i < ppb → j < ppb → fb ≡ 12 + ppb + (i * ppb + j) → Place ppb fb 13 (i ∷ j ∷ [])
  triple :
      {i j k : ℕ}
      → i < ppb
      → j < ppb
      → k < ppb
      → fb ≡ 12 + ppb + ppb * ppb + ((i * ppb + j) * ppb + k)
      → Place ppb fb 14 (i ∷ j ∷ k ∷ [])

-- The number of blocks that an inode can have.
abbrev pub capacity : (ppb : ℕ) → ℕ
capacity ppb = 12 + ppb + ppb * ppb + ppb * ppb * ppb

digits : (d n m : ℕ) → n < m * d → (n / d < m) × (n % d < d) × (n / d * d + n % d ≡ n)
digits zero n m lt = omega arith
digits (suc d) n m lt =
    ((div-lt_iff_lt-mul (omega arith)).1 lt, mod-lt n (omega arith), div-add-mod' n (suc d))

mul_swap : (p : ℕ) → p * p * p ≡ p * (p * p)
mul_swap p = mul_assoc p p p

spread : (a b p : ℕ) → (a * p + b) * p ≡ a * (p * p) + b * p
spread a b p = grind arith

module _ {S : Type 0} (disk : Disk S) where
  -- The pointer blocks on a path, from block `p` on; the pointer 0 stands for blocks that are not
  -- there, all the way down.
  abbrev pub follow : (p : ℕ) (path : List ℕ) → Fs S → Outcome S (Option ℕ)
  follow p [] fs = some (some p, fs)
  follow p (i ∷ path) fs =
      (if p == 0 then some (some 0, fs) else read_ptr disk fs p i) >>= (λ q. follow q path)

  >>=_some : (m : Outcome S (Option ℕ)) → (m >>= λ q fs. some (some q, fs)) ≡ m
  >>=_some none = refl
  >>=_some (some (none, fs)) = refl
  >>=_some (some (some q, fs)) = refl

  two_steps :
      (m : Outcome S (Option ℕ)) (j : ℕ)
      → (m >>= λ p fs. follow p (j ∷ []) fs) ≡ (m >>= λ p. next_ptr disk p j)
  unfolding next_ptr
  two_steps none j = refl
  two_steps (some (none, fs)) j = refl
  two_steps (some (some p, fs)) j = >>=_some (next_ptr disk p j fs)

  three_steps :
      (m : Outcome S (Option ℕ)) (j k : ℕ)
      → (m >>= λ p fs. follow p (j ∷ k ∷ []) fs)
        ≡ (m >>= (λ p. next_ptr disk p j) >>= λ p. next_ptr disk p k)
  unfolding next_ptr
  three_steps none j k = refl
  three_steps (some (none, fs)) j k = refl
  three_steps (some (some p, fs)) j k = two_steps (next_ptr disk p j fs) k

  module _ (fs : Fs S) (inode : Inode) where
    -- Block `fb` is looked up at its place, or lies beyond the last.
    pub data Mapped (fb : ℕ) (r : Outcome S (Option ℕ)) : Type 0 where
      inside :
          {slot : ℕ} {path : List ℕ}
          → Place (fs.block_size / 4) fb slot path
          → r ≡ follow (inode.i_block slot) path fs
          → Mapped fb r
      beyond : capacity (fs.block_size / 4) ≤ fb → r ≡ some (none, fs) → Mapped fb r

    -- `ext2_bmap` looks block `fb` up at its place, in `i_block` itself or through one, two or three
    -- pointer blocks, and at entries that lie in them; it fails without any read for the blocks
    -- beyond the last that an inode can have.
    pub bmap-Mapped : (fb : ℕ) → Mapped fb (bmap disk fs inode fb)
    unfolding bmap next_ptr
    bmap-Mapped fb =
        let ppb = fs.block_size / 4 in
        let one = fb - 12 in
        let two = one - ppb in
        let three = two - ppb * ppb in
        elim (dec_lt fb 12) [
          | yes lt ↦ inside (direct lt) (rw (lt→ltb _ _ lt))
          | no ge ↦
              let t0 = le→ltb fb 12 (omega arith) in
              elim (dec_lt one ppb) [
                | yes lt ↦ inside (single lt (omega arith)) (rw (t0, lt→ltb _ _ lt, >>=_some))
                | no ge1 ↦
                    let t1 = le→ltb one ppb (omega arith) in
                    elim (dec_lt two (ppb * ppb)) [
                      | yes lt ↦
                          let (q, r, split) = digits ppb two ppb lt in
                          inside (double q r (omega (arith, split))) (
                            rw (t0, t1, lt→ltb _ _ lt)
                              (sym (
                                two_steps (next_ptr disk (inode.i_block 13) (two / ppb) fs)
                                  (two % ppb))))
                      | no ge2 ↦
                          let t2 = le→ltb two (ppb * ppb) (omega arith) in
                          elim (dec_lt three (ppb * ppb * ppb)) [
                            | yes lt ↦
                                let (q, r, split) =
                                  digits (ppb * ppb) three ppb (omega (arith, lt, mul_swap ppb)) in
                                let (q', r', split') = digits ppb (three % (ppb * ppb)) ppb r in
                                inside
                                  (triple q q' r' (
                                    omega (
                                      arith,
                                      split,
                                      split',
                                      spread (three / (ppb * ppb)) (three % (ppb * ppb) / ppb) ppb,
                                    )))
                                  (rw (t0, t1, t2, lt→ltb _ _ lt)
                                    (sym (
                                      three_steps
                                        (next_ptr disk (inode.i_block 14) (three / (ppb * ppb)) fs)
                                        (three % (ppb * ppb) / ppb) (three % (ppb * ppb) % ppb))))
                            | no ge3 ↦
                                beyond (omega arith)
                                  (rw (t0, t1, t2, le→ltb three (ppb * ppb * ppb) (omega arith)))
                          ]
                    ]
              ]
        ]
