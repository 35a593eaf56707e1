-- ===== src/Disk/Blocks.antt =====
-- `bytes_to_blocks` of src/include/disk.h.
use tomato_os.Base.{
  ℕ, zero, suc, ◌+◌, ◌-◌, ◌*◌, ◌/◌, ◌%◌, ◌≤◌, ◌<◌, ◌≡◌, ◌⊎◌, inl, inr, ◌==◌, arith, Bool-cases,
}
use tomato_os.Disk.{bytes_to_blocks, align_down, align_up}
use native.Mathlib.Nat.{div-add-mod', mod-lt, mod-le, mul-div_cancel}

align_down-mul : (x a : ℕ) → 0 < a → align_down x a / a * a ≡ align_down x a
align_down-mul x a pos =
    let whole : align_down x a ≡ x / a * a = omega (arith, div-add-mod' x a) in
    let cut : x / a * a / a ≡ x / a = mul-div_cancel (x / a) pos in rw (whole, cut)

align_up-mul : (x a : ℕ) → 0 < a → align_up x a / a * a ≡ align_up x a
align_up-mul x a pos = elim (Bool-cases (x % a == 0)) [
  | inl whole ↦
      let aligned : align_up x a ≡ x = ground arith in
      let cut : x / a * a ≡ x = ground (arith, div-add-mod' x a) in rw (aligned, cut)
  | inr part ↦
      let next : x + (a - x % a) ≡ (x / a + 1) * a =
        ground (arith, div-add-mod' x a, mod-lt x pos) in
      let cut : (x / a + 1) * a / a ≡ x / a + 1 = mul-div_cancel (x / a + 1) pos in
      let aligned : align_up x a ≡ (x / a + 1) * a = ground arith in rw (aligned, cut)
]

le-align_up : (x a : ℕ) → x ≤ align_up x a
le-align_up x a = ground arith

le-mul : (n a : ℕ) → 0 < n → a ≤ n * a
le-mul zero a pos = elim pos [ ]
le-mul (suc n) a pos = omega arith

-- For a sector size that is not 0, the sectors that `bytes_to_blocks` names start at or before the
-- first byte, by less than a sector, and hold all the bytes asked for whenever these start on a
-- sector or end in the sector that they start in.
pub bytes_to_blocks_covers :
    (start size lba_size : ℕ)
    → 0 < lba_size
    → (start % lba_size ≡ 0) ⊎ (start % lba_size + size ≤ lba_size)
    → let r = bytes_to_blocks start size lba_size in
      (r.lba * lba_size + r.offset ≡ start)
      × (r.offset < lba_size)
      × (0 < r.size_in_blocks)
      × (r.offset + size ≤ r.size_in_blocks * lba_size)
unfolding bytes_to_blocks
bytes_to_blocks_covers start size lba_size pos side =
    let down = align_down-mul start lba_size pos in
    let up = align_up-mul size lba_size pos in
    let big = le-align_up size lba_size in
    let small = mod-lt start pos in
    let le = mod-le start lba_size in
    let some_block : 0 < (bytes_to_blocks start size lba_size).size_in_blocks = ground arith in
    (
      omega (arith, down, le),
      omega (arith, small, le),
      some_block,
      elim side [
        | inl whole ↦ ground (arith, up, big, le, small)
        | inr inside ↦
            let one =
              le-mul (bytes_to_blocks start size lba_size).size_in_blocks lba_size some_block in
            omega (arith, one, le, inside)
      ],
    )
