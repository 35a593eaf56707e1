-- ===== src/Base/Bytes.antt =====
-- Runs of bytes as functions of the offset, and the little-endian words in them.
use tomato_os.Base.{ℕ, ◌+◌, ◌-◌, ◌*◌, ◌%◌, ◌^◌, ◌&&◌, ltb, leb, if◌then◌else◌}

abbrev pub Bytes : Type 0
Bytes = ℕ → ℕ

-- `n` bytes of `src` from `from` on, laid over `dst` from `at` on.
abbrev pub splice : (dst : Bytes) (at : ℕ) (src : Bytes) (from n : ℕ) → Bytes
splice dst at src from n i = if leb at i && ltb i (at + n) then src (from + (i - at)) else dst i

abbrev pub le16 : Bytes → ℕ → ℕ
le16 b i = (b i + 0x100 * b (i + 1)) % 2 ^ 16

abbrev pub le32 : Bytes → ℕ → ℕ
le32 b i = (b i + 0x100 * b (i + 1) + 0x1_0000 * b (i + 2) + 0x100_0000 * b (i + 3)) % 2 ^ 32

abbrev pub le64 : Bytes → ℕ → ℕ
le64 b i = le32 b i + 2 ^ 32 * le32 b (i + 4)
