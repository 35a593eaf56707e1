-- ===== src/Printf.antt =====
-- Formatted output of src/stdio/printf.c and src/stdio/klog.c. The output is the bytes that are handed
-- to the terminal, in order. A format is the list of its characters before the 0 that ends it.
pub mod Digits
pub mod Swap
pub mod Decimal
pub mod Rounds
pub mod Format
mod Tests
use tomato_os.Base.{
  ℕ, zero, suc, ◌+◌, ◌-◌, ◌*◌, ◌/◌, ◌%◌, ◌^◌, ◌≤◌, ◌<◌, bit_and, bit_or, bit_xor, ◌≡◌, refl, sym,
  ap, ◌∙◌, fun_ext, ◌≢◌, ◌↔◌, ◌⊎◌, inl, inr, Bool, true, false, ◌&&◌, ◌||◌, not, Option, none, some,
  List, [], ◌∷◌, ◌++◌, arith, dec_lt, dec_le, ℕ_discrete, ltb, leb, ◌==◌, if◌then◌else◌, ltb→lt,
  lt→ltb, ltb→le, le→ltb, ==_iff, ==_refl, ==_true, ne→==, Bool-cases, Option-cases, all_below,
  all_below_sound, length, get_elem?, set, length-append, length-set,
}
use tomato_os.Base.Word.{add32, sub32}
use tomato_os.Base.Bytes.{Bytes}

-- `buf[i] = c`
abbrev pub put : Bytes → (i c : ℕ) → Bytes
put buf i c j = if j == i then c else buf j

-- The loop that writes the digits, the last one first, with the place behind them. The fuel is the
-- number itself, which has no more digits.
pub push_digits : (fuel : ℕ) → Bytes → (i num : ℕ) → Bytes × ℕ
push_digits zero buf i num = (buf, i)
push_digits (suc fuel) buf i num =
    let rest = push_digits fuel (put buf i (b'0' + num % 10)) (i + 1) (num / 10) in
    if ltb 0 num then rest else (buf, i)

-- The loop that turns the digits round.
pub swap_loop : (fuel : ℕ) → Bytes → (start end : ℕ) → Bytes
swap_loop zero buf start end = buf
swap_loop (suc fuel) buf start end =
    let rest =
      swap_loop fuel (put (put buf start (buf end)) end (buf start)) (start + 1) (end - 1) in
    if ltb start end then rest else buf

-- Behind the sign: `num` is what is left of the number, which is not positive for the least one.
pub print_digits : Bytes → (i num : ℕ) → Bytes × ℕ
print_digits buf i num =
    let (b, i') = push_digits num buf i num in
    (swap_loop i' b (if b 0 == b'-' then 1 else 0) (i' - 1), i')

-- `%d` of an `int` in two's complement, into `buf`: the buffer, and how many bytes of it are written.
-- The negation of the least `int` is itself, which is not positive.
pub print_int : Bytes → (num : ℕ) → Bytes × ℕ
print_int buf num =
    if leb (2 ^ 31) num
    then print_digits (put buf 0 b'-') 1 (if num == 2 ^ 31 then 0 else 2 ^ 32 - num)
    else (if num == 0 then print_digits (put buf 0 b'0') 1 0 else print_digits buf 0 num)

-- The loop of `%x`: the four bits at `4 * n`, and those below them.
pub hex_loop : (n : ℕ) → Bytes → (i : ℕ) (started : Bool) (num : ℕ) → Bytes × ℕ
hex_loop zero buf i started num = (buf, i)
hex_loop (suc n) buf i started num =
    let nibble = num / 2 ^ (4 * n) % 16 in
    let c = if ltb nibble 10 then b'0' + nibble else b'a' + nibble - 10 in
    let shown = not (nibble == 0) || started in
    hex_loop n (if shown then put buf i c else buf) (if shown then i + 1 else i) shown num

pub print_hex : Bytes → (num : ℕ) → Bytes × ℕ
print_hex buf num =
    let prefix = put (put buf 0 b'0') 1 b'x' in
    if num == 0 then (put prefix 2 b'0', 3) else hex_loop 8 prefix 2 false num

-- `fmt_uint_padded`. Its first loop runs once also for 0.
pub tmp_digits : (value : ℕ) → Bytes × ℕ
tmp_digits value =
    if value == 0 then (put (λ i. 0) 0 b'0', 1) else push_digits value (λ i. 0) 0 value

-- The padding, from place `n` of the number to the width.
pub pad_loop : (fuel : ℕ) → Bytes → (i n width pad : ℕ) → Bytes × ℕ
pad_loop zero out i n width pad = (out, i)
pad_loop (suc fuel) out i n width pad =
    let rest = pad_loop fuel (put out i pad) (i + 1) (n + 1) width pad in
    if ltb n width then rest else (out, i)

pub copy_digits : (n : ℕ) → Bytes → (i : ℕ) → (tmp : Bytes) → Bytes × ℕ
copy_digits zero out i tmp = (out, i)
copy_digits (suc n) out i tmp = copy_digits n (put out i (tmp n)) (i + 1) tmp

pub fmt_uint_padded : Bytes → (value width pad : ℕ) → Bytes
fmt_uint_padded out value width pad =
    let (tmp, n) = tmp_digits value in
    let (out1, i) = pad_loop width out 0 n width pad in
    let (out2, i') = copy_digits n out1 i tmp in put out2 i' 0

-- An argument of `kprintf`.
pub data Arg : Type 0 where
  char_arg : ℕ → Arg
  text_arg : List ℕ → Arg
  word_arg : ℕ → Arg

-- How a call ends: it returns how much was written, as the 32 bits of an `int`, or -1 when that would be too long, with what was
-- written; or it reads behind the end of the format, or an argument that is not there or is of another
-- type. The last one means that the fuel is out.
pub data Printed : Type 0 where
  printed : (written : ℕ) → (out : List ℕ) → Printed
  too_long : (out : List ℕ) → Printed
  past_end : Printed
  bad_argument : Printed
  unfinished : Printed

-- The first `n` bytes of a buffer.
abbrev pub bytes_from : Bytes → (i n : ℕ) → List ℕ
bytes_from buf i zero = []
bytes_from buf i (suc n) = buf i ∷ bytes_from buf (i + 1) n

-- The characters before the first `stop`, and those from it on.
pub break_at : (stop : ℕ) → List ℕ → List ℕ × List ℕ
break_at stop [] = ([], [])
break_at stop (c ∷ s) =
    let (before, rest) = break_at stop s in if c == stop then ([], c ∷ s) else (c ∷ before, rest)

-- INT_MAX
abbrev pub int_max : ℕ
int_max = 2 ^ 31 - 1

-- `maxrem`, the `int` INT_MAX - written as a `size_t`: a negative one is large.
abbrev pub max_rem : (written : ℕ) → ℕ
max_rem written =
    let rem = sub32 int_max written in if ltb rem (2 ^ 31) then rem else rem + 2 ^ 64 - 2 ^ 32

-- The characters up to the next `%`, the first of them whatever it is.
abbrev pub plain : List ℕ → List ℕ × List ℕ
plain [] = ([], [])
plain (c ∷ s) = let (before, rest) = break_at b'%' s in (c ∷ before, rest)

-- What follows a conversion: the bytes that it writes, and the arguments that are left.
abbrev pub convert : (conversion : ℕ) → List Arg → Option (List ℕ × List Arg)
convert c [] = none
convert c (char_arg x ∷ args) = if c == b'c' then some (x % 256 ∷ [], args) else none
convert c (text_arg t ∷ args) = if c == b's' then some (t, args) else none
convert c (word_arg n ∷ args) =
    let (buf, i) =
      if c == b'd' then print_int (λ j. 0) (n % 2 ^ 32) else print_hex (λ j. 0) (n % 2 ^ 32) in
    if c == b'd' || c == b'x' then some (bytes_from buf 0 i, args) else none

abbrev pub is_conversion : ℕ → Bool
is_conversion c = c == b'c' || c == b's' || c == b'd' || c == b'x'

-- One round of the loop: the call ends, or it goes on behind the characters that were taken.
pub data Round : Type 0 where
  ends : Printed → Round
  goes_on : (format : List ℕ) → List Arg → (written : ℕ) → (out : List ℕ) → Round

-- Behind `\033[`: up to an `m`; where there is none, two more characters are stepped over.
abbrev pub escape :
    (rest : List ℕ) (upto : List ℕ × List ℕ) → List Arg → (written : ℕ) → (out : List ℕ) → Round
escape rest (before, m ∷ after) args written out =
    goes_on after args (add32 written (length before + 3))
      (out ++ (0x1b ∷ b'[' ∷ (before ++ (m ∷ []))))
escape [] (before, []) args written out = ends past_end
escape (x ∷ []) (before, []) args written out = ends past_end
escape (x ∷ y ∷ rest) (before, []) args written out =
    goes_on rest args (add32 written 2) (out ++ (0x1b ∷ b'[' ∷ []))

abbrev pub write_plain : List ℕ × List ℕ → List Arg → (written : ℕ) → (out : List ℕ) → Round
write_plain (run, rest) args written out =
    if ltb (max_rem written) (length run)
    then ends (too_long out)
    else goes_on rest args (add32 written (length run)) (out ++ run)

abbrev pub converted :
    (rest : List ℕ) → Option (List ℕ × List Arg) → (written : ℕ) → (out : List ℕ) → Round
converted rest none written out = ends bad_argument
converted rest (some (bytes, args)) written out =
    goes_on rest args (add32 written (length bytes)) (out ++ bytes)

-- A `%` at the end of the format is written, and the step over the next character is one over the 0
-- that ends it. An unknown conversion is written as `%` alone.
pub round : List ℕ → List Arg → (written : ℕ) → (out : List ℕ) → Round
round [] args written out = ends (printed written out)
round (c ∷ []) args written out =
    if c == b'%' then ends past_end else write_plain (plain (c ∷ [])) args written out
round (c ∷ d ∷ s) args written out =
    if c == 0x1b && d == b'['
    then escape s (break_at b'm' s) args written out
    else (if c == b'%'
        then (if d == b'%'
            then write_plain (plain (d ∷ s)) args written out
            else (if is_conversion d
                then converted s (convert d args) written out
                else goes_on s args (add32 written 1) (out ++ (b'%' ∷ []))))
        else write_plain (plain (c ∷ d ∷ s)) args written out)

pub kprintf_from : (fuel : ℕ) → List ℕ → List Arg → (written : ℕ) → (out : List ℕ) → Printed
kprintf_from zero format args written out = unfinished
kprintf_from (suc fuel) format args written out = elim (round format args written out) [
  | ends p ↦ p
  | goes_on format' args' written' out' ↦ kprintf_from fuel format' args' written' out'
]

-- Every round takes at least one character.
pub kprintf : List ℕ → List Arg → Printed
kprintf format args = kprintf_from (length format + 1) format args 0 []
