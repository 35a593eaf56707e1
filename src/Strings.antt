-- ===== src/Strings.antt =====
-- The string functions of src/string/, on bytes counted from the pointer that a call is given, and
-- the copies on one memory where the two regions can overlap.
pub mod Move
pub mod Names
use tomato_os.Base.{
  ℕ, zero, suc, ◌+◌, ◌-◌, ◌%◌, Bool, true, false, ◌&&◌, not, Option, none, some, ltb, ◌==◌,
  if◌then◌else◌,
}
use tomato_os.Base.Bytes.{Bytes}

-- The sign of the result of `memcmp`.
pub data Order : Type 0 where
  less equal greater : Order

-- The loop of `memcmp` from byte `i` on, with `n` bytes to go.
unfoldable pub memcmp_from : (a b : Bytes) (i n : ℕ) → Order
memcmp_from a b i zero = equal
memcmp_from a b i (suc n) =
    let rest = memcmp_from a b (i + 1) n in
    if ltb (a i) (b i) then less else if ltb (b i) (a i) then greater else rest

unfoldable pub memcmp : (a b : Bytes) (size : ℕ) → Order
memcmp a b size = memcmp_from a b 0 size

-- `memcmp(...) == 0`
abbrev pub same_bytes : (a b : Bytes) (size : ℕ) → Bool
same_bytes a b size = elim (memcmp a b size) [ equal ↦ true | _ ↦ false ]

-- The loop of `strcmp` from byte `i` on, for strings of which one ends within `fuel` bytes: the
-- bytes whose difference is the result.
unfoldable pub strcmp : (fuel : ℕ) (s1 s2 : Bytes) (i : ℕ) → ℕ × ℕ
strcmp zero s1 s2 i = (s1 i, s2 i)
strcmp (suc fuel) s1 s2 i =
    let rest = strcmp fuel s1 s2 (i + 1) in
    if not (s1 i == 0) && s1 i == s2 i then rest else (s1 i, s2 i)

-- The loop of `strlen` from byte `len` on.
unfoldable pub strlen : (fuel : ℕ) (str : Bytes) (len : ℕ) → ℕ
strlen zero str len = len
strlen (suc fuel) str len =
    let rest = strlen fuel str (len + 1) in if str len == 0 then len else rest

-- `memchr2`: the place of the first `ch` before the end of the string, or null.
unfoldable pub memchr2 : (fuel : ℕ) (str : Bytes) (ch i : ℕ) → Option ℕ
memchr2 zero str ch i = none
memchr2 (suc fuel) str ch i =
    let rest = memchr2 fuel str ch (i + 1) in
    if str i == 0 then none else if str i == ch then some i else rest

abbrev pub poke : Bytes → ℕ → ℕ → Bytes
poke m a v x = if a == x then v else m x

-- The loop of `memcpy` in one memory, from byte `i` on, with `n` bytes to go.
unfoldable pub copy_up : (m : Bytes) (dst src i n : ℕ) → Bytes
copy_up m dst src i zero = m
copy_up m dst src i (suc n) = copy_up (poke m (dst + i) (m (src + i))) dst src (i + 1) n

unfoldable pub memcpy : (m : Bytes) (dst src size : ℕ) → Bytes
memcpy m dst src size = copy_up m dst src 0 size

-- The loop of `memmove` that goes down from byte `n`.
unfoldable pub copy_down : (m : Bytes) (dst src n : ℕ) → Bytes
copy_down m dst src zero = m
copy_down m dst src (suc n) = copy_down (poke m (dst + n) (m (src + n))) dst src n

unfoldable pub memmove : (m : Bytes) (dst src size : ℕ) → Bytes
memmove m dst src size = if ltb dst src then copy_up m dst src 0 size else copy_down m dst src size

-- The loop of `memset` from byte `i` on, with `n` bytes to go.
unfoldable pub fill_up : (m : Bytes) (buf value i n : ℕ) → Bytes
fill_up m buf value i zero = m
fill_up m buf value i (suc n) = fill_up (poke m (buf + i) (value % 256)) buf value (i + 1) n

unfoldable pub memset : (m : Bytes) (buf value size : ℕ) → Bytes
memset m buf value size = fill_up m buf value 0 size

-- The loop of `strncpy` from byte `i` on, with `n` bytes to go: it stops behind the end of `src` and,
-- unlike the standard's, does not fill up with zeros.
unfoldable pub strncpy : (m : Bytes) (dst src i n : ℕ) → Bytes
strncpy m dst src i zero = m
strncpy m dst src i (suc n) =
    let m' = poke m (dst + i) (m (src + i)) in
    let rest = strncpy m' dst src (i + 1) n in if m (src + i) == 0 then m' else rest
