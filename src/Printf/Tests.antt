-- ===== src/Printf/Tests.antt =====
-- Runs of src/stdio/printf.c and src/stdio/klog.c, and the theorems at them.
use tomato_os.Base.{ℕ, ◌-◌, ◌^◌, ◌≡◌, refl, List, [], ◌∷◌, arith}
use tomato_os.Printf.{
  word_arg, printed, past_end, push_digits, swap_loop, print_digits, print_int, hex_loop, print_hex,
  tmp_digits, pad_loop, copy_digits, fmt_uint_padded, bytes_from, break_at, round, kprintf_from,
  kprintf,
}
use tomato_os.Printf.Decimal.{Decimal, print_int-Decimal}

abbrev format : List ℕ
format = b'n' ∷ b'=' ∷ b'%' ∷ b'd' ∷ b',' ∷ b'%' ∷ b'x' ∷ []

formatted :
    kprintf format (word_arg 12 ∷ word_arg 0xaf0 ∷ [])
    ≡ printed 10 (b'n' ∷ b'=' ∷ b'1' ∷ b'2' ∷ b',' ∷ b'0' ∷ b'x' ∷ b'a' ∷ b'f' ∷ b'0' ∷ [])
unfolding kprintf kprintf_from round break_at print_int print_digits push_digits swap_loop print_hex
    hex_loop
formatted = refl

-- A `%` that ends the format.
last_percent : kprintf (b'5' ∷ b'%' ∷ []) [] ≡ past_end
unfolding kprintf kprintf_from round break_at
last_percent = refl

print_int-Decimal_example : Decimal (2 ^ 32 - 407) (print_int (λ j. 0) (2 ^ 32 - 407))
print_int-Decimal_example = print_int-Decimal (2 ^ 32 - 407) (omega arith)

negative_number :
    let (buf, n) = print_int (λ j. 0) (2 ^ 32 - 407) in
    bytes_from buf 0 n ≡ b'-' ∷ b'4' ∷ b'0' ∷ b'7' ∷ []
unfolding print_int print_digits push_digits swap_loop
negative_number = refl

padded :
    bytes_from (fmt_uint_padded (λ j. 7) 42 5 b' ') 0 6 ≡ b' ' ∷ b' ' ∷ b' ' ∷ b'4' ∷ b'2' ∷ 0 ∷ []
unfolding fmt_uint_padded tmp_digits push_digits pad_loop copy_digits
padded = refl
