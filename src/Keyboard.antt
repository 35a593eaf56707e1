-- ===== src/Keyboard.antt =====
-- The keyboard of src/drivers/keyboard.c: the ring between the interrupt handler and the shell, the
-- scan code decoder, the line editor and the split of a command line into words. What a command does
-- and the output are left out; the scan code that the device's port gives is an argument.
pub mod Keys
pub mod Ring
pub mod Line
mod Tests
use tomato_os.Base.{
  ℕ, zero, suc, ◌+◌, ◌-◌, ◌*◌, ◌%◌, ◌/◌, Bool, true, false, ◌&&◌, ◌||◌, not, Option, none, some,
  List, [], ◌∷◌, ◌++◌, ltb, leb, ◌==◌, if◌then◌else◌,
}
use tomato_os.Base.Bytes.{Bytes}
use tomato_os.Strings.{strcmp, poke}
use Keys.{left_shift, right_shift, caps, lowercase, uppercase}

-- KBD_BUF
abbrev pub kbd_buf_size : ℕ
kbd_buf_size = 128

-- `sizeof(line)`
abbrev pub line_size : ℕ
line_size = 100

-- `kbd_buf`, `kbd_head` and `kbd_tail`
pub record Kbd : Type 0 where
  pub kbd_buf : Bytes
  pub kbd_head : ℕ
  pub kbd_tail : ℕ

-- `keyboardhandler` with the scan code `sc`: the interrupt's part of the ring.
unfoldable pub keyboardhandler : Kbd → (sc : ℕ) → Kbd
keyboardhandler k sc =
    let next = (k.kbd_head + 1) % kbd_buf_size in
    if next == k.kbd_tail
    then k
    else record k { kbd_buf = poke k.kbd_buf k.kbd_head sc; kbd_head = next }

-- The decoder's and the editor's variables; `extended` is the static one of `handle_scancode`.
pub record Shell : Type 0 where
  pub shift_down : Bool
  pub caps_lock : Bool
  pub extended : Bool
  pub line : Bytes
  pub line_len : ℕ

-- The loops of `run_line`, on a line that ends within `fuel` bytes of `s`: the first clears spaces
-- and goes past them, the second goes to the end of a word.
unfoldable pub skip_spaces : (fuel : ℕ) (line : Bytes) (s : ℕ) → Bytes × ℕ
skip_spaces zero line s = (line, s)
skip_spaces (suc fuel) line s =
    let rest = skip_spaces fuel (poke line s 0) (s + 1) in if line s == 32 then rest else (line, s)

unfoldable pub word_end : (fuel : ℕ) (line : Bytes) (s : ℕ) → ℕ
word_end zero line s = s
word_end (suc fuel) line s =
    let rest = word_end fuel line (s + 1) in
    if not (line s == 0) && not (line s == 32) then rest else s

-- `argv` as places in the line, with at most `n` to come, and the line afterwards.
unfoldable pub split_words : (n : ℕ) (line : Bytes) (s : ℕ) → List ℕ × Bytes
split_words zero line s = ([], line)
split_words (suc n) line s =
    let (line', s') = skip_spaces line_size line s in
    let (rest, line'') = split_words n line' (word_end line_size line' s') in
    if line s == 0 then ([], line) else if line' s' == 0 then ([], line') else (s' ∷ rest, line'')

abbrev pub text : List ℕ → Bytes
text [] i = 0
text (c ∷ cs) zero = c
text (c ∷ cs) (suc i) = text cs i

-- The names of `commands`: clear, reboot, shutdown, ls and help.
abbrev pub command_names : List Bytes
command_names =
    text (99 ∷ 108 ∷ 101 ∷ 97 ∷ 114 ∷ [])
    ∷ text (114 ∷ 101 ∷ 98 ∷ 111 ∷ 111 ∷ 116 ∷ [])
    ∷ text (115 ∷ 104 ∷ 117 ∷ 116 ∷ 100 ∷ 111 ∷ 119 ∷ 110 ∷ [])
    ∷ text (108 ∷ 115 ∷ [])
    ∷ text (104 ∷ 101 ∷ 108 ∷ 112 ∷ [])
    ∷ []

-- The search in `commands` from entry `i` on.
unfoldable pub find_command : (word : Bytes) (i : ℕ) (names : List Bytes) → Option ℕ
find_command word i [] = none
find_command word i (name ∷ names) =
    let rest = find_command word (i + 1) names in
    let (x, y) = strcmp line_size word name 0 in if x == y then some i else rest

-- What `run_line` does: nothing for a line without words, else a command of the table or, as the
-- inner `none`, the message that the command is not known.
unfoldable pub command_of : List ℕ → (line : Bytes) → Option (Option ℕ)
command_of [] line = none
command_of (s ∷ words) line = some (find_command (λ i. line (s + i)) 0 command_names)

-- The 16 entries of `argv`.
abbrev pub max_args : ℕ
max_args = 16

unfoldable pub run_line : (line : Bytes) → Option (Option ℕ) × Bytes
run_line line = let (argv, line') = split_words max_args line 0 in (command_of argv line', line')

-- `line_input`, with what it runs.
unfoldable pub line_input : Shell → (ch : ℕ) → Option (Option ℕ) × Shell
line_input s ch =
    let (ran, line') = run_line (poke s.line s.line_len 0) in
    if ch == 10
    then (ran, record s { line = line'; line_len = 0 })
    else if ch == 8
    then (none, if s.line_len == 0 then s else record s { line_len = s.line_len - 1 })
    else if ltb s.line_len (line_size - 1)
    then (none, record s { line = poke s.line s.line_len ch; line_len = s.line_len + 1 })
    else (none, s)

abbrev pub xor : Bool → Bool → Bool
xor true b = not b
xor false b = b

-- The end of `handle_scancode`, for a key that is no shift or caps lock: the character, if any.
unfoldable pub character : Shell → (released : Bool) (code : ℕ) → Option ℕ
character s released code =
    let key = lowercase code in
    let letter = leb 97 key && leb key 122 in
    let upper = xor s.shift_down (s.caps_lock && letter) in
    if released || ltb 0x7F key then none else some (if upper then uppercase code else key)

unfoldable pub typed : Option ℕ → Shell → Option (Option ℕ) × Shell
typed none s = (none, s)
typed (some ch) s = line_input s ch

-- `handle_scancode` for a byte that no 0xE0 comes before.
unfoldable pub plain_scancode : Shell → (raw : ℕ) → Option (Option ℕ) × Shell
plain_scancode s raw =
    let released = leb 0x80 raw in
    let code = raw % 0x80 in
    let key = lowercase code in
    if key == left_shift || key == right_shift
    then (none, record s { shift_down = not released })
    else if key == caps
    then (none, if released then s else record s { caps_lock = not s.caps_lock })
    else typed (character s released code) s

unfoldable pub handle_scancode : Shell → (raw : ℕ) → Option (Option ℕ) × Shell
handle_scancode s raw =
    if raw == 0xE0
    then (none, record s { extended = true })
    else if s.extended
    then (none, record s { extended = false })
    else plain_scancode s raw

-- The commands run, with one more in front where a scan code ran one.
abbrev pub note_run : Option (Option ℕ) → List (Option ℕ) → List (Option ℕ)
note_run none runs = runs
note_run (some r) runs = r ∷ runs

-- The loop of `keyboard_poll`: the commands run, and both states. The ring holds fewer than 128 scan
-- codes, so that much fuel is enough when no interrupt comes in between.
unfoldable pub poll : (fuel : ℕ) → Kbd → Shell → List (Option ℕ) × Kbd × Shell
poll zero k s = ([], k, s)
poll (suc fuel) k s =
    let (ran, s') = handle_scancode s (k.kbd_buf k.kbd_tail) in
    let (runs, k', s'') = poll fuel (record k { kbd_tail = (k.kbd_tail + 1) % kbd_buf_size }) s' in
    if k.kbd_tail == k.kbd_head then ([], k, s) else (note_run ran runs, k', s'')

unfoldable pub keyboard_poll : Kbd → Shell → List (Option ℕ) × Kbd × Shell
keyboard_poll k s = poll kbd_buf_size k s
