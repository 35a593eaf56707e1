-- ===== src/Strings/Move.antt =====
-- `memmove` and `memcpy` of src/string/ against a copy that reads everything before it writes.
use tomato_os.Base.{ℕ, zero, suc, ◌+◌, ◌≤◌, ◌≡◌, arith}
use tomato_os.Base.Bytes.{Bytes, splice}
use tomato_os.Strings.{poke, copy_up, copy_down, memmove}

-- `n` bytes from `src` on, laid at `dst` all at once.
abbrev pub moved : (m : Bytes) (dst src n : ℕ) → Bytes
moved m dst src n = splice m dst m src n

copy_up-below :
    (m : Bytes) (dst src i n x : ℕ)
    → dst ≤ src
    → copy_up m dst src i n x ≡ splice m (dst + i) m (src + i) n x
unfolding copy_up
copy_up-below m dst src i zero x le = ground arith
copy_up-below m dst src i (suc n) x le =
    ground (arith, copy_up-below (poke m (dst + i) (m (src + i))) dst src (i + 1) n x le)

copy_down-above :
    (m : Bytes) (dst src n x : ℕ) → src ≤ dst → copy_down m dst src n x ≡ splice m dst m src n x
unfolding copy_down
copy_down-above m dst src zero x le = ground arith
copy_down-above m dst src (suc n) x le =
    ground (arith, copy_down-above (poke m (dst + n) (m (src + n))) dst src n x le)

-- Whatever the regions, also where they overlap, `memmove` leaves at the destination the bytes that
-- stood at the source before, and changes no other byte.
pub memmove-moved :
    (m : Bytes) (dst src size x : ℕ) → memmove m dst src size x ≡ moved m dst src size x
unfolding memmove
memmove-moved m dst src size x =
    ground (arith, copy_up-below m dst src 0 size x, copy_down-above m dst src size x)
