-- ===== src/Pmm/Search.antt =====
-- The search of `pmm_alloc_page` of src/mem/pmm.c for a run of free pages.
use tomato_os.Base.{
  ℕ, zero, suc, ◌+◌, ◌≤◌, ◌<◌, ◌≡◌, ◌⊎◌, inl, inr, true, false, Option, none, some, arith, ltb,
  ◌==◌, Bool-cases, ltb→lt, ltb→le, ==_iff, dec_lt,
}
use tomato_os.Pmm.Bitmap.{Bytes, bitmap_test}
use tomato_os.Pmm.Loops.{scan_run, find_run}

-- Page `p` is free, and so are the `need` pages from it on, all of them pages of the bitmap.
pub record FreeRun (m : Bytes) (total need p : ℕ) : Type 0 where
  pub inside : p < total
  pub starts_free : bitmap_test m p ≡ false
  pub all_free : (k : ℕ) → p ≤ k → k < p + need → (k < total) × (bitmap_test m k ≡ false)

-- The first run at or behind page `i`, or none at all.
pub data Found (m : Bytes) (total need i : ℕ) : Option ℕ → Type 0 where
  nothing : ((q : ℕ) → i ≤ q → ¬ FreeRun m total need q) → Found m total need i none
  first :
      (p : ℕ)
      → i ≤ p
      → FreeRun m total need p
      → ((q : ℕ) → i ≤ q → q < p → ¬ FreeRun m total need q)
      → Found m total need i (some p)

module _ (m : Bytes) (total : ℕ) where
  -- What the inner loop has seen when it stops at `e`.
  record Scanned (n j e : ℕ) : Type 0 where
    past : j ≤ e
    bounded : e ≤ j + n
    seen : (k : ℕ) → j ≤ k → k < e → (k < total) × (bitmap_test m k ≡ false)
    stopped : (e ≡ j + n) ⊎ ((total ≤ e) ⊎ (bitmap_test m e ≡ true))

  Scanned-stop : (n j : ℕ) → (total ≤ j) ⊎ (bitmap_test m j ≡ true) → Scanned n j j
  Scanned-stop n j why = record {
    past = omega arith;
    bounded = omega arith;
    seen = λ k a b. absurd (omega arith);
    stopped = inr why;
  }

  Scanned-step :
      (n j e : ℕ) → j < total → bitmap_test m j ≡ false → Scanned n (j + 1) e → Scanned (suc n) j e
  Scanned-step n j e lt free rest = record {
    past = omega arith;
    bounded = omega arith;
    seen = λ k a b. elim (dec_lt j k) [
      | yes later ↦ rest.seen k (omega arith) b
      | no same ↦ let at : k ≡ j = omega arith in rw at (lt, free)
    ];
    stopped = ground arith;
  }

  scan_run-Scanned : (n j : ℕ) → Scanned n j (scan_run m total n j)
  unfolding scan_run
  scan_run-Scanned zero j = record {
    past = omega arith;
    bounded = omega arith;
    seen = λ k a b. absurd (omega arith);
    stopped = inl (omega arith);
  }
  scan_run-Scanned (suc n) j = elim (Bool-cases (ltb j total)) [
    | inr out ↦ rw out (Scanned-stop (suc n) j (inl (ltb→le j total out)))
    | inl lt ↦ elim (Bool-cases (bitmap_test m j)) [
      | inl used ↦ rw (lt, used) (Scanned-stop (suc n) j (inr used))
      | inr free ↦
          rw (lt, free) (Scanned-step n j _ (ltb→lt j total lt) free (scan_run-Scanned n (j + 1)))
    ]
  ]

  module _ (need : ℕ) where
    Found-weaken :
        (i i' : ℕ) {r : Option ℕ}
        → i ≤ i'
        → ((q : ℕ) → i ≤ q → q < i' → ¬ FreeRun m total need q)
        → Found m total need i' r
        → Found m total need i r
    Found-weaken i i' le skip (nothing none_left) = nothing λ q a. elim (dec_lt q i') [
      | yes early ↦ skip q a early
      | no late ↦ none_left q (omega arith)
    ]
    Found-weaken i i' le skip (first p a run least) = first p (omega arith) run λ q b c.
        elim (dec_lt q i') [ yes early ↦ skip q b early | no late ↦ least q (omega arith) c ]

    -- A run that was cut short at page `e` rules out every run that starts at or before `e`.
    no_run_before :
        (i e : ℕ)
        → Scanned need i e
        → ((e == i + need) ≡ false)
        → (q : ℕ) → i ≤ q
        → q < e + 1
        → ¬ FreeRun m total need q
    no_run_before i e s short q a b run = ground (arith, run.all_free e)

    pub find_run-Found :
        (f i : ℕ) → total ≤ i + f → Found m total need i (find_run f m total need i)
    unfolding find_run
    find_run-Found zero i fuel = nothing λ q a run. absurd (omega (arith, run.inside))
    find_run-Found (suc f) i fuel = elim (Bool-cases (ltb i total)) [
      | inr out ↦ rw out (nothing λ q a run. absurd (omega (arith, run.inside, ltb→le i total out)))
      | inl lt ↦ elim (Bool-cases (bitmap_test m i)) [
        | inl used ↦
            rw (lt, used)
              (Found-weaken i (i + 1) (omega arith) (starts_used used)
                (find_run-Found f (i + 1) (omega arith)))
        | inr free ↦ elim (Bool-cases (scan_run m total need i == i + need)) [
          | inl whole ↦ rw (lt, free, whole) (here (ltb→lt i total lt) free whole)
          | inr short ↦
              rw (lt, free, short)
                (Found-weaken i (scan_run m total need i + 1) (omega (arith, scanned.past))
                  (no_run_before i _ scanned short)
                  (find_run-Found f (scan_run m total need i + 1) (omega (arith, scanned.past))))
        ]
      ]
    ]
      where
        scanned : Scanned need i (scan_run m total need i)
        scanned = scan_run-Scanned need i

        starts_used :
            bitmap_test m i ≡ true → (q : ℕ) → i ≤ q → q < i + 1 → ¬ FreeRun m total need q
        starts_used used q a b run = let at : q ≡ i = omega arith in cc (run.starts_free, used, at)

        here :
            i < total
            → bitmap_test m i ≡ false
            → (scan_run m total need i == i + need) ≡ true
            → Found m total need i (some i)
        here lt free whole =
            first i (omega arith)
              (record {
                inside = lt;
                starts_free = free;
                all_free = λ k a b. scanned.seen k a (omega (arith, (==_iff _ _).0 whole));
              })
              λ q a b. absurd (omega arith)
