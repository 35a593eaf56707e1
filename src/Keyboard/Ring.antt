-- ===== src/Keyboard/Ring.antt =====
-- The ring of src/drivers/keyboard.c as a queue of scan codes.
use tomato_os.Base.{
  ℕ, zero, suc, ◌+◌, ◌-◌, ◌%◌, ◌<◌, ◌≡◌, refl, ap, ◌∙◌, true, false, Option, List, [], ◌∷◌, ◌++◌,
  arith, ℕ_discrete, ◌==◌, if◌then◌else◌, ==_true, ne→==,
}
use tomato_os.Base.Bytes.{Bytes}
use tomato_os.Strings.{poke}
use tomato_os.Keyboard.{
  Kbd, Shell, kbd_buf_size, keyboardhandler, handle_scancode, note_run, poll, keyboard_poll,
}

-- `n` scan codes from place `t` on.
abbrev pub items : (buf : Bytes) (t n : ℕ) → List ℕ
items buf t zero = []
items buf t (suc n) = buf t ∷ items buf ((t + 1) % kbd_buf_size) n

abbrev pub count : Kbd → ℕ
count k = (k.kbd_head + kbd_buf_size - k.kbd_tail) % kbd_buf_size

-- The scan codes that wait, the oldest first.
abbrev pub contents : Kbd → List ℕ
contents k = items k.kbd_buf k.kbd_tail (count k)

abbrev pub InRange : Kbd → Type 0
InRange k = (k.kbd_head < kbd_buf_size) × (k.kbd_tail < kbd_buf_size)

items-poke :
    (buf : Bytes) (t n h sc : ℕ)
    → t < kbd_buf_size
    → n < kbd_buf_size
    → (t + n) % kbd_buf_size ≡ h
    → items (poke buf h sc) t (suc n) ≡ items buf t n ++ sc ∷ []
items-poke buf t zero h sc in_range small at = rw (==_true h t (omega arith)) refl
items-poke buf t (suc n) h sc in_range small at =
    let other : (h == t) ≡ false = ne→== h t (omega arith) in
    let ih =
      items-poke buf ((t + 1) % kbd_buf_size) n h sc (omega arith) (omega arith) (omega arith) in
    rw (other, ih)

-- With both its places in range, the ring stays so when a scan code comes in, and the scan code is
-- queued behind the others; but with 127 of them waiting the ring is full, and it is dropped.
pub contents-keyboardhandler :
    (k : Kbd) (sc : ℕ)
    → InRange k
    → InRange (keyboardhandler k sc)
      × (contents (keyboardhandler k sc)
          ≡ (if count k == kbd_buf_size - 1 then contents k else contents k ++ sc ∷ []))
unfolding keyboardhandler
contents-keyboardhandler k sc (head_in, tail_in) =
    elim (ℕ_discrete ((k.kbd_head + 1) % kbd_buf_size) k.kbd_tail) [
      | yes full ↦
          let all : (count k == kbd_buf_size - 1) ≡ true = ==_true (count k) 127 (omega arith) in
          rw (==_true _ _ full, all) ((head_in, tail_in), refl)
      | no room ↦
          let few : (count k == kbd_buf_size - 1) ≡ false = ne→== (count k) 127 (omega arith) in
          let grown : ((k.kbd_head + 1) % kbd_buf_size + kbd_buf_size - k.kbd_tail) % kbd_buf_size
              ≡ suc (count k) =
            omega arith in
          let behind =
            items-poke k.kbd_buf k.kbd_tail (count k) k.kbd_head sc tail_in (omega arith)
              (omega arith) in
          rw (ne→== _ _ room, few)
            (omega arith, ap (items (poke k.kbd_buf k.kbd_head sc) k.kbd_tail) grown ∙ behind)
    ]

-- The scan codes decoded in order, with the commands that they run.
abbrev pub decode : List ℕ → Shell → List (Option ℕ) × Shell
decode [] s = ([], s)
decode (sc ∷ codes) s =
    let (ran, s') = handle_scancode s sc in
    let (runs, s'') = decode codes s' in (note_run ran runs, s'')

poll-decode :
    (fuel : ℕ) (k : Kbd) (s : Shell) (n : ℕ)
    → InRange k
    → count k ≡ n
    → n < fuel
    → poll fuel k s ≡ (
      (decode (items k.kbd_buf k.kbd_tail n) s).0,
      record k { kbd_tail = k.kbd_head },
      (decode (items k.kbd_buf k.kbd_tail n) s).1,
    )
unfolding poll
poll-decode zero k s n r c lt = absurd (omega arith)
poll-decode (suc fuel) k s zero r c lt =
    let same : k.kbd_tail ≡ k.kbd_head = omega (arith, c, r) in
    rw (==_true k.kbd_tail k.kbd_head same) (ap (λ t. ([], record k { kbd_tail = t }, s)) same)
poll-decode (suc fuel) k s (suc n) r c lt =
    let other : (k.kbd_tail == k.kbd_head) ≡ false =
      ne→== k.kbd_tail k.kbd_head (omega (arith, c, r)) in
    let k' : Kbd = record k { kbd_tail = (k.kbd_tail + 1) % kbd_buf_size } in
    let ih =
      poll-decode fuel k' (handle_scancode s (k.kbd_buf k.kbd_tail)).1 n (omega (arith, r))
        (omega (arith, c, r)) (omega arith) in
    rw (other, ih)

-- With both places of the ring in range, `keyboard_poll` decodes all the scan codes that wait, in the order in which they came, and leaves
-- the ring empty.
pub keyboard_poll-decode :
    (k : Kbd) (s : Shell)
    → InRange k
    → keyboard_poll k s
      ≡ ((decode (contents k) s).0, record k { kbd_tail = k.kbd_head }, (decode (contents k) s).1)
unfolding keyboard_poll
keyboard_poll-decode k s r = poll-decode kbd_buf_size k s (count k) r refl (omega arith)
