-- ===== src/Printf/Rounds.antt =====
-- The parts of a round of `kprintf` of src/stdio/printf.c: what each takes of the format and counts.
use tomato_os.Base.{
  ℕ, ◌+◌, ◌%◌, ◌^◌, ◌≤◌, ◌<◌, ◌≡◌, ◌≢◌, ◌⊎◌, inl, inr, true, ◌||◌, Option, none, some, List, [],
  ◌∷◌, ◌++◌, arith, ℕ_discrete, ltb, ◌==◌, ltb→lt, ==_true, ne→==, Bool-cases, length,
  length-append,
}
use mathlib.Core.Path.{subst}
use tomato_os.Printf.{
  Arg, char_arg, text_arg, word_arg, Printed, printed, too_long, past_end, bad_argument, unfinished,
  Round, ends, goes_on, break_at, escape, write_plain, converted, convert, is_conversion, max_rem,
}

-- `rest` is what is left of a list behind some of its elements.
pub data Tail {A : Type 0} (rest : List A) : List A → Type 0 where
  whole : Tail rest rest
  behind : {c : A} {s : List A} → Tail rest s → Tail rest (c ∷ s)

pub Tail-trans : {A : Type 0} {a b c : List A} → Tail a b → Tail b c → Tail a c
Tail-trans t whole = t
Tail-trans t (behind u) = behind (Tail-trans t u)

pub Tail-drop : {m : ℕ} {a s : List ℕ} → Tail (m ∷ a) s → Tail a s
Tail-drop t = Tail-trans (behind whole) t

-- The next argument is missing, or not one for conversion `d`.
abbrev pub Unfit : (d : ℕ) → List Arg → Type 0
Unfit d [] = Unit
Unfit d (char_arg x ∷ args) = d ≢ b'c'
Unfit d (text_arg t ∷ args) = d ≢ b's'
Unfit d (word_arg n ∷ args) = (d ≢ b'd') × (d ≢ b'x')

-- Behind some of the format and of the arguments, there is a conversion that the next argument does
-- not fit.
pub data Unfitting (format : List ℕ) (args : List Arg) : Type 0 where
  unfitting :
      {c d : ℕ} {s : List ℕ} {left : List Arg}
      → Tail (c ∷ d ∷ s) format
      → Tail left args
      → c ≡ b'%'
      → (d ≡ b'c') ⊎ ((d ≡ b's') ⊎ ((d ≡ b'd') ⊎ (d ≡ b'x')))
      → Unfit d left
      → Unfitting format args

-- Where the code steps over the 0 that ends the format: a single `%` at its end, or an escape sequence
-- of which at most one character is left, and no `m`.
pub data OffEnd : List ℕ → Type 0 where
  lone_percent : {c : ℕ} → c ≡ b'%' → OffEnd (c ∷ [])
  cut_escape :
      {c d : ℕ} {s : List ℕ}
      → c ≡ 0x1b
      → d ≡ b'['
      → length s ≤ 1
      → (break_at b'm' s).1 ≡ []
      → OffEnd (c ∷ d ∷ s)

-- The call returns the number of bytes written, or -1 where a part of the format is longer than what
-- is left up to INT_MAX; or an argument does not fit; or the format ends where the code steps over its
-- end.
abbrev pub Counted : (format : List ℕ) (args : List Arg) → Printed → Type 0
Counted format args (printed written out) = written ≡ length out % 2 ^ 32
Counted format args (too_long out) =
    (n : ℕ) × (n ≤ length format) × (max_rem (length out % 2 ^ 32) < n)
Counted format args past_end = (rest : List ℕ) × Tail rest format × OffEnd rest
Counted format args bad_argument = Unfitting format args
Counted format args unfinished = ⊥

pub Counted-Tail :
    (a b : List ℕ) (x y : List Arg) (p : Printed)
    → Tail a b
    → length a ≤ length b
    → Tail x y
    → Counted a x p
    → Counted b y p
Counted-Tail a b x y (printed written out) t le u c = c
Counted-Tail a b x y (too_long out) t le u (n, few, long) = (n, omega arith, long)
Counted-Tail a b x y past_end t le u (rest, v, off) = (rest, Tail-trans v t, off)
Counted-Tail a b x y bad_argument t le u (unfitting v w ec ed no_fit) =
    unfitting (Tail-trans v t) (Tail-trans w u) ec ed no_fit
Counted-Tail a b x y unfinished t le u c = c

-- A round takes characters of the format, and counts what it writes.
abbrev pub Forward : (format : List ℕ) (args : List Arg) → Round → Type 0
Forward format args (ends p) = Counted format args p
Forward format args (goes_on format' args' written out) =
    Tail format' format
    × (length format' < length format)
    × Tail args' args
    × (written ≡ length out % 2 ^ 32)

-- What comes of an argument.
abbrev pub Converted : (d : ℕ) (args : List Arg) → Option (List ℕ × List Arg) → Type 0
Converted d args none = Unfit d args
Converted d args (some (bytes, left)) = Tail left args

pub convert-Converted : (d : ℕ) (args : List Arg) → Converted d args (convert d args)
convert-Converted d [] = tt
convert-Converted d (char_arg x ∷ args) = elim (ℕ_discrete d b'c') [
  | yes e ↦ rw (==_true d b'c' e) (behind whole)
  | no e ↦ rw (ne→== d b'c' e) e
]
convert-Converted d (text_arg t ∷ args) = elim (ℕ_discrete d b's') [
  | yes e ↦ rw (==_true d b's' e) (behind whole)
  | no e ↦ rw (ne→== d b's' e) e
]
convert-Converted d (word_arg n ∷ args) = elim (Bool-cases (d == b'd' || d == b'x')) [
  | inl e ↦ rw e (behind whole)
  | inr e ↦ rw e (ground arith)
]

pub conversions :
    (d : ℕ) → is_conversion d ≡ true → (d ≡ b'c') ⊎ ((d ≡ b's') ⊎ ((d ≡ b'd') ⊎ (d ≡ b'x')))
conversions d is = ground arith

pub break_at-Tail : (stop : ℕ) (s : List ℕ) → Tail (break_at stop s).1 s
unfolding break_at
break_at-Tail stop [] = whole
break_at-Tail stop (c ∷ s) = elim (ℕ_discrete c stop) [
  | yes e ↦ rw (==_true c stop e) whole
  | no e ↦ rw (ne→== c stop e) (behind (break_at-Tail stop s))
]

pub length-break_at : (stop : ℕ) (s : List ℕ) → length (break_at stop s).1 ≤ length s
unfolding break_at
length-break_at stop [] = omega arith
length-break_at stop (c ∷ s) = elim (ℕ_discrete c stop) [
  | yes e ↦ rw (==_true c stop e) (omega arith)
  | no e ↦ rw (ne→== c stop e) (omega (arith, length-break_at stop s))
]

pub escape-Forward :
    (c d : ℕ) (s : List ℕ) (upto : List ℕ × List ℕ) (args : List Arg) (written : ℕ) (out : List ℕ)
    → c ≡ 0x1b
    → d ≡ b'['
    → (break_at b'm' s).1 ≡ upto.1
    → Tail upto.1 s
    → length upto.1 ≤ length s
    → written ≡ length out % 2 ^ 32
    → Forward (c ∷ d ∷ s) args (escape s upto args written out)
escape-Forward c d s (before, m ∷ after) args written out ec ed same t le count = (
  behind (behind (Tail-drop t)),
  omega arith,
  whole,
  omega (
    arith,
    count,
    length-append {0} out (0x1b ∷ b'[' ∷ (before ++ (m ∷ []))),
    length-append {0} before (m ∷ []),
  ),
)
escape-Forward c d [] (before, []) args written out ec ed same t le count =
    (c ∷ d ∷ [], whole, cut_escape ec ed (omega arith) same)
escape-Forward c d (x ∷ []) (before, []) args written out ec ed same t le count =
    (c ∷ d ∷ x ∷ [], whole, cut_escape ec ed (omega arith) same)
escape-Forward c d (x ∷ y ∷ rest) (before, []) args written out ec ed same t le count = (
  behind (behind (behind (behind whole))),
  omega arith,
  whole,
  omega (arith, count, length-append {0} out (0x1b ∷ b'[' ∷ [])),
)

pub write_plain-Forward :
    (format run rest : List ℕ) (args : List Arg) (written : ℕ) (out : List ℕ)
    → Tail rest format
    → length rest + length run ≤ length format
    → 0 < length run
    → written ≡ length out % 2 ^ 32
    → Forward format args (write_plain (run, rest) args written out)
write_plain-Forward format run rest args written out t le pos count =
    elim (Bool-cases (ltb (max_rem written) (length run))) [
      | inl long ↦ rw long (
        length run,
        omega arith,
        subst (λ w. max_rem w < length run) count (ltb→lt (max_rem written) (length run) long),
      )
      | inr fits ↦ rw fits (t, omega arith, whole, omega (arith, count, length-append {0} out run))
    ]

pub converted-Forward :
    (c d : ℕ) (s : List ℕ) (args : List Arg) (r : Option (List ℕ × List Arg)) (written : ℕ)
    (out : List ℕ)
    → c ≡ b'%'
    → is_conversion d ≡ true
    → Converted d args r
    → written ≡ length out % 2 ^ 32
    → Forward (c ∷ d ∷ s) args (converted s r written out)
converted-Forward c d s args none written out ec ed no_fit count =
    unfitting whole whole ec (conversions d ed) no_fit
converted-Forward c d s args (some (bytes, left)) written out ec ed t count =
    (behind (behind whole), omega arith, t, omega (arith, count, length-append {0} out bytes))
