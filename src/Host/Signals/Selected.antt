-- ===== src/Host/Signals/Selected.antt =====
-- try_wait_for_all_signals of src/_cxx11/_thread.cpp, bit by bit.
use weos.Common.{
  ℕ, zero, suc, ◌<◌, ◌≡◌, ◌⊎◌, ◌↔◌, inl, inr, refl, sym, ◌∙◌, arith, Bool, true, false, not, ◌&&◌,
  Bool-cases, ap,
}
use weos.Host.Signals.{SignalSet, no_signals, is_any, has_all, granted, try_wait_for_all_signals}

below_suc : (i n : ℕ) → i < suc n → (i < n) ⊎ (i ≡ n)
below_suc i n h = ground arith

pub is_any-true :
    (n : ℕ) (flags : SignalSet) (i : ℕ) → i < n → flags i ≡ true → is_any n flags ≡ true
unfolding is_any
is_any-true zero flags i b h = absurd (ground arith)
is_any-true (suc n) flags i b h = elim (below_suc i n b) [
  | inl c ↦ ground (arith, is_any-true n flags i c h)
  | inr e ↦ let k : flags n ≡ true = ap flags (sym e) ∙ h in rw k refl
]

pub has_all_sound :
    (n : ℕ) (selected flags : SignalSet) (i : ℕ)
    → has_all n selected flags ≡ true
    → i < n
    → selected i ≡ true
    → flags i ≡ true
unfolding has_all
has_all_sound zero selected flags i h b k = absurd (ground arith)
has_all_sound (suc n) selected flags i h b k = elim (below_suc i n b) [
  | inl c ↦ has_all_sound n selected flags i (ground arith) c k
  | inr e ↦
      let p : selected n ≡ true = ap selected (sym e) ∙ k in
      let q : flags n ≡ true = ground (arith, h, p) in ap flags e ∙ q
]

pub has_all_complete :
    (n : ℕ) (selected flags : SignalSet)
    → ((i : ℕ) → i < n → selected i ≡ true → flags i ≡ true)
    → has_all n selected flags ≡ true
unfolding has_all
has_all_complete zero selected flags h = refl
has_all_complete (suc n) selected flags h =
    let rest = has_all_complete n selected flags (λ i b. h i (omega (arith, b))) in
    elim (Bool-cases (selected n)) [
      | inl k ↦ rw (k, h n (omega arith) k, rest) refl
      | inr k ↦ rw (k, rest) refl
    ]

is_any-some :
    (n : ℕ) (flags : SignalSet) → is_any n flags ≡ true → (i : ℕ) × (i < n) × (flags i ≡ true)
unfolding is_any
is_any-some zero flags h = absurd (ground arith)
is_any-some (suc n) flags h = elim (Bool-cases (flags n)) [
  | inl k ↦ (n, omega arith, k)
  | inr k ↦ let (i, b, e) = is_any-some n flags (ground (arith, h, k)) in (i, omega (arith, b), e)
]

is_any-none : (n : ℕ) → is_any n no_signals ≡ false
unfolding is_any
is_any-none zero = refl
is_any-none (suc n) = is_any-none n

and_true : (a : Bool) → (a && true) ≡ a
and_true true = refl
and_true false = refl

-- A reset of no bit
unselected :
    (n : ℕ) (selected : SignalSet)
    → is_any n selected ≡ false
    → (i : ℕ) → i < n
    → (a : Bool) → (a && not (selected i)) ≡ a
unselected n selected e i b a = elim (Bool-cases (selected i)) [
  | inl k ↦ absurd (ground (arith, e, is_any-true n selected i b k))
  | inr k ↦ rw k (and_true a)
]

-- try_wait_for_all_signals returns true exactly if some signal is selected and all selected ones are set, and then
-- exactly these are reset; if it returns false, no signal changes.
pub try_wait_for_all_signals_lem :
    (selected flags : SignalSet)
    → (((try_wait_for_all_signals selected flags).0 ≡ true) ↔ (
        ((i : ℕ) × (i < 16) × (selected i ≡ true))
        × ((i : ℕ) → i < 16 → selected i ≡ true → flags i ≡ true)))
      × ((try_wait_for_all_signals selected flags).0 ≡ true
          → (i : ℕ) → (try_wait_for_all_signals selected flags).1 i ≡ flags i && not (selected i))
      × ((try_wait_for_all_signals selected flags).0 ≡ false
          → (i : ℕ) → i < 16
          → (try_wait_for_all_signals selected flags).1 i ≡ flags i)
unfolding try_wait_for_all_signals granted
try_wait_for_all_signals_lem selected flags = elim (Bool-cases (has_all 16 selected flags)) [
  | inl h ↦ rw h (
    (
      λ e. (is_any-some 16 selected e, λ i b k. has_all_sound 16 selected flags i h b k),
      λ k. is_any-true 16 selected k.0.0 k.0.1 k.0.2,
    ),
    λ e i. refl,
    λ e i b. unselected 16 selected e i b (flags i),
  )
  | inr h ↦ rw h (
    (
      λ e. absurd (ground (arith, e, is_any-none 16)),
      λ k. absurd (ground (arith, h, has_all_complete 16 selected flags k.1)),
    ),
    λ e i. absurd (ground (arith, e, is_any-none 16)),
    λ e i b. and_true (flags i),
  )
]
