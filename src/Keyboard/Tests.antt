-- ===== src/Keyboard/Tests.antt =====
-- Runs of src/drivers/keyboard.c, and the theorems at them.
use tomato_os.Base.{
  ◌-◌, ◌≤◌, ◌≡◌, refl, false, some, [], ◌∷◌, ◌++◌, arith, ◌==◌, if◌then◌else◌, length,
}
use tomato_os.Strings.{strcmp}
use tomato_os.Keyboard.{
  Kbd, Shell, kbd_buf_size, keyboardhandler, handle_scancode, plain_scancode, typed, character,
  line_input, run_line, split_words, skip_spaces, word_end, command_of, find_command, poll,
  keyboard_poll, text,
}
use tomato_os.Keyboard.Keys.{lowercase, uppercase}
use tomato_os.Keyboard.Ring.{
  InRange, count, contents, decode, contents-keyboardhandler, keyboard_poll-decode,
}
use tomato_os.Keyboard.Line.{Fits, Starts, handle_scancode-Fits, split_words-Starts}

abbrev quiet : Kbd
quiet = record { kbd_buf = λ i. 0; kbd_head = 126; kbd_tail = 126 }

abbrev prompt : Shell
prompt = record {
  shift_down = false;
  caps_lock = false;
  extended = false;
  line = λ i. 0;
  line_len = 0;
}

-- "l", "s" and enter are pressed.
abbrev pressed : Kbd
pressed = keyboardhandler (keyboardhandler (keyboardhandler quiet 38) 31) 28

waiting : contents pressed ≡ 38 ∷ 31 ∷ 28 ∷ []
unfolding keyboardhandler
waiting = refl

-- The command that is run is the fourth, "ls".
runs_ls : (keyboard_poll pressed prompt).0 ≡ some 3 ∷ []
unfolding keyboardhandler keyboard_poll poll handle_scancode plain_scancode typed character
    lowercase uppercase line_input run_line split_words skip_spaces word_end command_of find_command
    strcmp
runs_ls = refl

-- With the shift key down, "l" is "L".
shifted : (handle_scancode (handle_scancode prompt 42).1 38).1.line 0 ≡ 76
unfolding handle_scancode plain_scancode typed character lowercase uppercase line_input
shifted = refl

contents-keyboardhandler_example :
    InRange (keyboardhandler quiet 38)
    × (contents (keyboardhandler quiet 38)
        ≡ (if count quiet == kbd_buf_size - 1 then contents quiet else contents quiet ++ 38 ∷ []))
contents-keyboardhandler_example = contents-keyboardhandler quiet 38 (omega arith)

pressed-InRange : InRange pressed
unfolding keyboardhandler
pressed-InRange = omega arith

keyboard_poll-decode_example : keyboard_poll pressed prompt ≡ (
  (decode (contents pressed) prompt).0,
  record pressed { kbd_tail = pressed.kbd_head },
  (decode (contents pressed) prompt).1,
)
keyboard_poll-decode_example = keyboard_poll-decode pressed prompt pressed-InRange

handle_scancode-Fits_example : Fits (handle_scancode prompt 38).1
handle_scancode-Fits_example = handle_scancode-Fits prompt 38 (omega arith)

split_words-Starts_example :
    (length (split_words 16 (text (108 ∷ 115 ∷ [])) 0).0 ≤ 16)
    × Starts (split_words 16 (text (108 ∷ 115 ∷ [])) 0).0 2
split_words-Starts_example =
    split_words-Starts 16 (text (108 ∷ 115 ∷ [])) 0 2 (omega arith) refl (omega arith)
