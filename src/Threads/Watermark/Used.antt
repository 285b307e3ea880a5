-- ===== src/Threads/Watermark/Used.antt =====
-- What thread_info::get_used_stack of src/_cmsis_rtos/_thread.cpp measures.
use weos.Common.{
  ℕ, zero, suc, ◌+◌, ◌-◌, ◌*◌, ◌/◌, ◌<◌, ◌≤◌, ◌≡◌, ◌≢◌, ◌⊎◌, inl, inr, refl, sym, ◌∙◌, ap, arith,
  ◌==◌, ltb, true, ◌&&◌, if◌then◌else◌, Bool-cases, none, some, moved, ==_refl,
}
use weos.Threads.Watermark.{
  Stack, stack_watermark, end_address, fill, mark_stack, get_stack_size, scan, get_used_stack,
}

fill_below : (n a : ℕ) (memory : ℕ → ℕ) (c : ℕ) → c < a → fill n a memory c ≡ memory c
unfolding fill
fill_below zero a memory c h = refl
fill_below (suc n) a memory c h =
    let rest = fill_below n (a + 4) (moved memory a stack_watermark) c (omega (arith, h)) in
    ground (arith, rest, h)

moved_here : (memory : ℕ → ℕ) (a : ℕ) → moved memory a stack_watermark a ≡ stack_watermark
moved_here memory a = rw (==_refl a) refl

fill_marked :
    (n a : ℕ) (memory : ℕ → ℕ) (j : ℕ) → j < n → fill n a memory (a + 4 * j) ≡ stack_watermark
unfolding fill
fill_marked zero a memory j h = absurd (omega arith)
fill_marked (suc n) a memory zero h =
    let kept = fill_below n (a + 4) (moved memory a stack_watermark) a (omega arith) in
    ap (fill (suc n) a memory) (omega arith) ∙ kept ∙ moved_here memory a
fill_marked (suc n) a memory (suc j) h =
    let rest = fill_marked n (a + 4) (moved memory a stack_watermark) j (omega (arith, h)) in
    ap (fill (suc n) a memory) (omega arith) ∙ rest

-- The loop passes over the marked words below `a + 4 * i`.
scan_exact :
    (fuel i : ℕ) (memory : ℕ → ℕ) (last a : ℕ)
    → i < fuel
    → ((j : ℕ) → j < i → (memory (a + 4 * j) ≡ stack_watermark) × (a + 4 * j < last))
    → (last ≤ a + 4 * i) ⊎ (memory (a + 4 * i) ≢ stack_watermark)
    → scan fuel memory last a ≡ some (a + 4 * i)
unfolding scan
scan_exact zero i memory last a h marked stop = absurd (omega arith)
scan_exact (suc fuel) zero memory last a h marked stop =
    let here : a + 4 * 0 ≡ a = omega arith in
    elim stop [
      | inl e ↦ ground (arith, e)
      | inr e ↦
          let other : memory a ≢ stack_watermark = λ w. e (ap memory here ∙ w) in
          ground (arith, other)
    ]
scan_exact (suc fuel) (suc i) memory last a h marked stop =
    let (w, b) = marked 0 (omega arith) in
    let mark : memory a ≡ stack_watermark = ap memory (omega arith) ∙ w in
    let next : a + 4 * suc i ≡ a + 4 + 4 * i = omega arith in
    let rest =
      scan_exact fuel i memory last (a + 4) (omega (arith, h))
        (λ j k.
          let (v, c) = marked (suc j) (omega (arith, k)) in
          (ap memory (omega arith) ∙ v, omega (arith, c)))
        (elim stop [
          | inl e ↦ inl (omega (arith, e, next))
          | inr e ↦ inr (λ v. e (ap memory next ∙ v))
        ]) in
    let below : ltb a last ≡ true = ground (arith, b) in
    let is_mark : (memory a == stack_watermark) ≡ true = ground (arith, mark) in
    rw (is_mark, below) (rest ∙ ap some (sym next))

above : (last a : ℕ) → (if ltb a last then last - a else 0) ≡ last - a
above last a = ground arith

-- After thread::do_create has marked the stack and the thread has written nothing below the k-th word, which no
-- longer has the mark or stands at the end, get_used_stack measures the bytes from that word to the end and
-- those that are in use below m_stackBegin; with fuel for each word of the stack and one more the loop ends.
pub get_used_stack-mark_stack :
    (s : Stack) (memory memory' : ℕ → ℕ) (k fuel : ℕ)
    → k ≤ s.size / 4
    → k < fuel
    → ((a : ℕ) → a < s.begin + 4 * k → memory' a ≡ mark_stack s memory a)
    → (end_address s ≤ s.begin + 4 * k) ⊎ (memory' (s.begin + 4 * k) ≢ stack_watermark)
    → get_used_stack fuel s memory' none
      ≡ some (s.begin - s.base + (end_address s - (s.begin + 4 * k)))
unfolding get_used_stack mark_stack
get_used_stack-mark_stack s memory memory' k fuel h f kept stop =
    let scanned =
      scan_exact fuel k memory' (end_address s) s.begin f
        (λ j b. (
          kept (s.begin + 4 * j) (omega (arith, b))
              ∙ fill_marked (s.size / 4) s.begin memory j (omega (arith, b, h)),
          omega (arith, b, h),
        ))
        stop in
    rw (get_used_stack, scanned)
      (ap (λ u. some (s.begin - s.base + u)) (above (end_address s) (s.begin + 4 * k)))

scan_upto :
    (fuel : ℕ) (memory : ℕ → ℕ) (last a : ℕ)
    → 0 < fuel
    → last + 4 ≤ a + 4 * fuel
    → (b : ℕ) × (scan fuel memory last a ≡ some b) × (a ≤ b)
unfolding scan
scan_upto zero memory last a p h = absurd (omega arith)
scan_upto (suc fuel) memory last a p h =
    elim (Bool-cases ((memory a == stack_watermark) && ltb a last)) [
      | inl e ↦
          let below : a < last = ground (arith, e) in
          let (b, r, l) =
            scan_upto fuel memory last (a + 4) (omega (arith, h, below)) (omega (arith, h)) in
          (b, rw e r, omega (arith, l))
      | inr e ↦ (a, rw e refl, omega arith)
    ]

-- Whatever the thread has written, get_used_stack ends with fuel for each word of the stack and two more, and
-- measures no more than get_stack_size and no less than what is in use below m_stackBegin.
pub get_used_stack-get_stack_size :
    (s : Stack) (memory : ℕ → ℕ)
    → s.base ≤ s.begin
    → (used : ℕ) × (get_used_stack (s.size / 4 + 2) s memory none ≡ some used)
      × (used ≤ get_stack_size s)
      × (s.begin - s.base ≤ used)
unfolding get_used_stack get_stack_size
get_used_stack-get_stack_size s memory h =
    let (a, r, l) =
      scan_upto (s.size / 4 + 2) memory (end_address s) s.begin (omega arith) (omega arith) in
    (
      s.begin - s.base + (if ltb a (end_address s) then end_address s - a else 0),
      rw (get_used_stack, r) refl,
      ground (arith, l, h),
      ground arith,
    )
