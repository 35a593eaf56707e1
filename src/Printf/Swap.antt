-- ===== src/Printf/Swap.antt =====
-- The loop of src/stdio/printf.c that turns the digits round.
use tomato_os.Base.{
  ℕ, zero, suc, ◌+◌, ◌-◌, ◌≤◌, ◌<◌, ◌≡◌, refl, ap, ◌∙◌, ◌≢◌, ◌⊎◌, inl, inr, arith, dec_lt,
  ℕ_discrete, if◌then◌else◌, lt→ltb, le→ltb, ==_refl, ne→==,
}
use tomato_os.Base.Bytes.{Bytes}
use tomato_os.Printf.{put, swap_loop}

abbrev swap : Bytes → (start end : ℕ) → Bytes
swap buf start end = put (put buf start (buf end)) end (buf start)

swap-At :
    (buf : Bytes) (start end : ℕ)
    → start < end
    → (swap buf start end start ≡ buf end)
      × (swap buf start end end ≡ buf start)
      × ((j : ℕ) → j ≢ start → j ≢ end → swap buf start end j ≡ buf j)
swap-At buf start end lt = (
  ap (λ b. if b then buf start else put buf start (buf end) start) (ne→== start end (omega arith))
      ∙ ap (λ b. if b then buf end else buf start) (==_refl start),
  ap (λ b. if b then buf start else put buf start (buf end) end) (==_refl end),
  λ j a b.
      ap (λ x. if x then buf start else put buf start (buf end) j) (ne→== j end b)
      ∙ ap (λ x. if x then buf end else buf j) (ne→== j start a),
)

-- Between the two ends the order is turned round.
pub record Turned (buf : Bytes) (start end : ℕ) (buf' : Bytes) : Type 0 where
  pub inner : (j : ℕ) → start ≤ j → j ≤ end → buf' j ≡ buf (start + end - j)
  pub outer : (j : ℕ) → (j < start) ⊎ (end < j) → buf' j ≡ buf j

one_in : (start end j : ℕ) → start < end → j ≤ end → start + 1 + (end - 1) - j ≡ start + end - j
one_in start end j lt le = omega arith

pub swap_loop-Turned :
    (fuel : ℕ) (buf : Bytes) (start end : ℕ)
    → end ≤ start + fuel
    → Turned buf start end (swap_loop fuel buf start end)
unfolding swap_loop
swap_loop-Turned zero buf start end le = record {
  inner = λ j a b. ap buf (omega arith);
  outer = λ j out. refl;
}
swap_loop-Turned (suc fuel) buf start end le = elim (dec_lt start end) [
  | no over ↦
      rw (le→ltb start end (omega arith))
        (record { inner = λ j a b. ap buf (omega arith); outer = λ j out. refl })
  | yes lt ↦
      let b = swap buf start end in
      let (at_start, at_end, elsewhere) = swap-At buf start end lt in
      let t = swap_loop-Turned fuel b (start + 1) (end - 1) (omega arith) in
      rw (lt→ltb start end lt) (record {
        inner = λ j a c. elim (ℕ_discrete j start) [
          | yes first ↦ t.outer j (inl (omega arith)) ∙ ap b first ∙ at_start ∙ ap buf (omega arith)
          | no more ↦ elim (ℕ_discrete j end) [
            | yes last ↦ t.outer j (inr (omega arith)) ∙ ap b last ∙ at_end ∙ ap buf (omega arith)
            | no mid ↦
                t.inner j (omega arith) (omega arith)
                ∙ ap b (one_in start end j lt c)
                ∙ elsewhere (start + end - j) (omega arith) (omega arith)
          ]
        ];
        outer = λ j out.
            t.outer j (elim out [ inl low ↦ inl (omega arith) | inr high ↦ inr (omega arith) ])
            ∙ elsewhere j (omega (arith, out)) (omega (arith, out));
      })
]
