-- ===== src/Threads/Chain.antt =====
-- The states that the list of src/_cmsis_rtos/_thread.cpp stands for.
use weos.Common.{
  ℕ, zero, suc, ◌<◌, ◌≡◌, ◌≢◌, refl, sym, ◌∙◌, subst, List, [], ◌∷◌, Absent, Distinct, length,
  arith, ◌==◌, ==_refl, if◌then◌else◌, some, Bool-cases, inl, inr,
}
use weos.Threads.{States, put, link, unlink_loop, unlink}

-- From the address `a` the links lead through `xs` and end.
abbrev pub Linked : (ℕ → ℕ) → ℕ → List ℕ → Type 0
Linked next a [] = a ≡ 0
Linked next a (x ∷ xs) = (a ≡ x) × (0 < x) × Linked next (next x) xs

pub record IsStates (q : States) (xs : List ℕ) : Type 0 where
  pub linked : Linked q.next q.head xs
  pub distinct : Distinct xs

-- The list without a state
unfoldable pub without : ℕ → List ℕ → List ℕ
without s [] = []
without s (x ∷ xs) = if x == s then xs else x ∷ without s xs

Absent-without : (s z : ℕ) (xs : List ℕ) → Absent z xs → Absent z (without s xs)
unfolding without
Absent-without s z [] a = tt
Absent-without s z (x ∷ xs) (a, as') = ground (arith, Absent-without s z xs as')

Distinct-without : (s : ℕ) (xs : List ℕ) → Distinct xs → Distinct (without s xs)
unfolding without
Distinct-without s [] d = tt
Distinct-without s (x ∷ xs) (d, ds) =
    ground (arith, Distinct-without s xs ds, Absent-without s x xs d)

-- A write elsewhere leaves the links alone.
Linked-put :
    (q : States) (s n a : ℕ) (xs : List ℕ)
    → Absent s xs
    → Linked q.next a xs
    → Linked (put q s n).next a xs
Linked-put q s n a [] d c = c
Linked-put q s n a (x ∷ xs) (d, ds) (e, pos, c) =
    let rest = Linked-put q s n (q.next x) xs ds c in (e, pos, ground arith)

-- The loop at the state `i` of the list, which is not `s`, before the states `xs`
record Cut (fuel : ℕ) (q : States) (s i : ℕ) (xs : List ℕ) : Type 0 where
  after : States
  runs : unlink_loop fuel q s i ≡ some after
  head : after.head ≡ q.head
  linked : Linked after.next i (i ∷ without s xs)
  frame : (z : ℕ) → Absent z (i ∷ xs) → after.next z ≡ q.next z

unlink_loop-Cut :
    (fuel : ℕ) (q : States) (s i : ℕ) (xs : List ℕ)
    → suc (length xs) < fuel
    → 0 < s
    → Linked q.next i (i ∷ xs)
    → Distinct (i ∷ xs)
    → i ≢ s
    → Cut fuel q s i xs
unfolding unlink_loop without
unlink_loop-Cut zero q s i xs h pos c d ne = absurd (omega arith)
unlink_loop-Cut (suc zero) q s i xs h pos c d ne = absurd (omega arith)
unlink_loop-Cut (suc (suc fuel)) q s i [] h pos c d ne = record {
  after = q;
  runs = ground arith;
  head = refl;
  linked = c;
  frame = λ z b. refl;
}
unlink_loop-Cut (suc fuel) q s i (y ∷ ys) h pos (e, w, c) (d, ds) ne = elim (Bool-cases (y == s)) [
  | inl hit ↦
      let same : y ≡ s = ground (arith, hit) in
      let kept = Linked-put q i (q.next s) (q.next y) ys d.1 c.2 in
      let here : (put q i (q.next s)).next i ≡ q.next y = ground (arith, same) in
      record {
        after = put q i (q.next s);
        runs = ground arith;
        head = refl;
        linked =
            rw (hit, without)
              (refl, w, subst (λ a. Linked (put q i (q.next s)).next a ys) (sym here) kept);
        frame = λ z b. ground arith;
      }
  | inr miss ↦
      let rest =
        unlink_loop-Cut fuel q s y ys (omega arith) pos (refl, c.1, c.2) ds (ground arith) in
      record {
        after = rest.after;
        runs = ground (arith, rest.runs);
        head = rest.head;
        linked = rw (miss, without) (ground (arith, rest.frame i d, rest.linked));
        frame = λ z b. rest.frame z b.1;
      }
]

-- weos_createTask puts a new state, which is not null and not in the list, in front of the others.
pub link-IsStates :
    (q : States) (xs : List ℕ) (s : ℕ)
    → IsStates q xs
    → 0 < s
    → Absent s xs
    → IsStates (link q s) (s ∷ xs)
unfolding link
link-IsStates q xs s h pos a =
    let kept = Linked-put q s q.head q.head xs a h.linked in
    record { linked = (refl, pos, rw (==_refl s) kept); distinct = (a, h.distinct) }

-- What weos_unlinkSharedState has done
pub record Removed (q : States) (xs : List ℕ) (s : ℕ) : Type 0 where
  pub after : States
  pub runs : unlink (suc (suc (length xs))) q s ≡ some after
  pub states : IsStates after (without s xs)

-- weos_unlinkSharedState ends and takes a state that is not null out of the list, wherever it stands in
-- it; the others keep their order. If it is not in the list, nothing happens.
pub unlink-Removed : (q : States) (xs : List ℕ) (s : ℕ) → IsStates q xs → 0 < s → Removed q xs s
unfolding unlink unlink_loop without
unlink-Removed q [] s h pos = record { after = q; runs = ground (arith, h.linked); states = h }
unlink-Removed q (x ∷ xs) s h pos = elim (Bool-cases (x == s)) [
  | inl hit ↦
      let first : x ≡ s = ground (arith, hit) in
      record {
        after = record q { head = q.next s };
        runs = ground (arith, h.linked.0);
        states = record {
          linked = rw (hit, without) (subst (λ z. Linked q.next (q.next z) xs) first h.linked.2);
          distinct = Distinct-without s (x ∷ xs) h.distinct;
        };
      }
  | inr miss ↦
      let w =
        unlink_loop-Cut (suc (suc (suc (length xs)))) q s x xs (omega arith) pos
          (refl, h.linked.1, h.linked.2) h.distinct (ground (arith, miss)) in
      record {
        after = w.after;
        runs = ground (arith, w.runs, h.linked.0);
        states = record {
          linked = rw (miss, without) (w.head ∙ h.linked.0, w.linked.1, w.linked.2);
          distinct = Distinct-without s (x ∷ xs) h.distinct;
        };
      }
]
