-- ===== src/Atomic/Tests.antt =====
-- Runs of the atomics of src/_armcc/_atomic.hpp, on monitors that are a flag for each thread.
use native.Mathlib.Nat
use weos.Common.{
  ℕ, ◌^◌, ◌≡◌, ◌≢◌, refl, subst, arith, ◌==◌, Bool, true, false, if◌then◌else◌, [], ◌∷◌, some,
}
use weos.Atomic.{Arith, Op, outcome, Executes}
use weos.Atomic.Monitor.{Monitors}
use weos.Atomic.Word
use weos.Atomic.Word.Reach.{start, next}
use weos.Atomic.Linear.{Reach-Executes}
use weos.Atomic.Locked
use weos.Atomic.Locked.{locked-Executes}
use weos.Atomic.Flag.{test_and_set, int_size}

abbrev mark : (ℕ → Bool) → ℕ → Bool → ℕ → Bool
mark m t b u = if t == u then b else m u

other : (m : ℕ → Bool) (t : ℕ) (b : Bool) (u : ℕ) → t ≢ u → mark m t b u ≡ true → m u ≡ true
other m t b u d e = ground (arith, d, e)

clash : false ≡ true → ⊥
clash e = ground arith

cleared : (m : ℕ → Bool) (t u : ℕ) → mark m t false u ≡ true → m u ≡ true
cleared m t u e = ground (arith, e)

abbrev flags : Monitors
flags = record {
  M = ℕ → Bool;
  Valid = λ m t. m t ≡ true;
  Loads = λ m t m'. m' ≡ mark m t true;
  Stores = λ m t m'. (m t ≡ true) × (m' ≡ (λ u. false));
  Clears = λ m t m'. m' ≡ mark m t false;
  loads_others = λ {m} {m'} {t} e u d v. other m t true u d (subst (λ f. f u ≡ true) e v);
  stores_valid = λ e. e.0;
  stores_clear = λ e u v. clash (subst (λ f. f u ≡ true) e.1 v);
  clears_valid = λ {m} {m'} {t} e u v. cleared m t u (subst (λ f. f u ≡ true) e v);
}

abbrev add_one : Op
add_one = Op.modify Arith.add 1

-- The second thread stores between the load and the store of the first one, which then tries again. The
-- value wraps around.
abbrev added : Word.System flags 256
added = record {
  word = 1;
  monitor = λ u. false;
  pc = to 1 Word.Pc.idle (
      to 1 (Word.Pc.loaded add_one 256) (
        to 1 (Word.Pc.looping add_one) (
          to 2 Word.Pc.idle (
            to 2 (Word.Pc.loaded add_one 255) (
              to 1 (Word.Pc.loaded add_one 255) (
                to 2 (Word.Pc.looping add_one)
                  (to 1 (Word.Pc.looping add_one) (λ u. Word.Pc.idle))))))));
  log = Word.event flags 256 1 add_one 256 ∷ Word.event flags 256 2 add_one 255 ∷ [];
}
  where
    to : ℕ → Word.Pc → (ℕ → Word.Pc) → ℕ → Word.Pc
    to t new pc = Word.at flags 256 pc t new

no_load : add_one ≢ Op.load
no_load e = ground arith

added-Reach : Word.Reach flags 256 255 (λ u. false) added
unfolding Word.stored Word.word_modified outcome
added-Reach =
    let calls =
      next (next start (Word.Step.call 1 add_one refl no_load (omega arith)))
        (Word.Step.call 2 add_one refl no_load (omega arith)) in
    let loads =
      next
        (next calls (Word.Step.load_exclusive 1 add_one (mark (λ u. false) 1 true) refl refl refl))
        (Word.Step.load_exclusive 2 add_one (mark (mark (λ u. false) 1 true) 2 true) refl refl
          refl) in
    let second =
      next loads (Word.Step.store_exclusive 2 add_one 255 (λ u. false) refl (refl, refl)) in
    let failed =
      next second (Word.Step.store_failed 1 add_one 255 (mark (λ u. false) 1 false) refl refl) in
    let again = next failed (
      Word.Step.load_exclusive 1 add_one (mark (mark (λ u. false) 1 false) 1 true) refl refl
        refl) in
    next again (Word.Step.store_exclusive 1 add_one 256 (λ u. false) refl (refl, refl))

Reach-Executes_example : Executes 256 255 added.log 1
Reach-Executes_example = Reach-Executes flags 256 (Nat.dvd_of_mod-eq-zero 256 refl) added-Reach

no_flag_load : test_and_set ≢ Op.load
no_flag_load e = ground arith

-- Two threads set a flag, one after the other.
abbrev flagged : Word.System flags int_size
flagged = record {
  word = 1;
  monitor = λ u. false;
  pc = to 2 Word.Pc.idle (
      to 2 (Word.Pc.loaded test_and_set 1) (
        to 2 (Word.Pc.looping test_and_set) (
          to 1 Word.Pc.idle (
            to 1 (Word.Pc.loaded test_and_set 0)
              (to 1 (Word.Pc.looping test_and_set) (λ u. Word.Pc.idle))))));
  log =
      Word.event flags int_size 2 test_and_set 1 ∷ Word.event flags int_size 1 test_and_set 0 ∷ [];
}
  where
    to : ℕ → Word.Pc → (ℕ → Word.Pc) → ℕ → Word.Pc
    to t new pc = Word.at flags int_size pc t new

flagged-Reach : Word.Reach flags int_size 0 (λ u. false) flagged
unfolding Word.stored outcome
flagged-Reach =
    let loads =
      next (next start (Word.Step.call 1 test_and_set refl no_flag_load tt))
        (Word.Step.load_exclusive 1 test_and_set (mark (λ u. false) 1 true) refl refl refl) in
    let first =
      next loads (Word.Step.store_exclusive 1 test_and_set 0 (λ u. false) refl (refl, refl)) in
    let again =
      next (next first (Word.Step.call 2 test_and_set refl no_flag_load tt))
        (Word.Step.load_exclusive 2 test_and_set (mark (λ u. false) 2 true) refl refl refl) in
    next again (Word.Step.store_exclusive 2 test_and_set 1 (λ u. false) refl (refl, refl))

abbrev five_to : ℕ → Op
five_to w = Op.compare_exchange 5 w

-- Two threads exchange 5 for another value.
abbrev exchanged : Locked.System (2 ^ 64)
exchanged = record {
  value = 7;
  owner = some 2;
  pc = to 2 Locked.Pc.leaving (
      to 2 (Locked.Pc.reading (five_to 9) 7) (
        to 2 (Locked.Pc.holding (five_to 9)) (
          to 1 Locked.Pc.idle (
            to 1 Locked.Pc.leaving (
              to 1 (Locked.Pc.reading (five_to 7) 5) (
                to 1 (Locked.Pc.holding (five_to 7)) (
                  to 2 (Locked.Pc.locking (five_to 9))
                    (to 1 (Locked.Pc.locking (five_to 7)) (λ u. Locked.Pc.idle)))))))));
  log = Locked.event (2 ^ 64) 2 (five_to 9) 7 ∷ Locked.event (2 ^ 64) 1 (five_to 7) 5 ∷ [];
}
  where
    to : ℕ → Locked.Pc → (ℕ → Locked.Pc) → ℕ → Locked.Pc
    to t new pc = Locked.at (2 ^ 64) pc t new

exchanged-Reach : Locked.Reach (2 ^ 64) 5 exchanged
unfolding Locked.written
exchanged-Reach =
    let calls =
      Locked.Reach.next (Locked.Reach.next Locked.Reach.start (Locked.Step.call 1 (five_to 7) refl))
        (Locked.Step.call 2 (five_to 9) refl) in
    let locked = Locked.Reach.next calls (Locked.Step.lock 1 (five_to 7) refl refl) in
    let read = Locked.Reach.next locked (Locked.Step.read 1 (five_to 7) refl) in
    let wrote = Locked.Reach.next read (Locked.Step.write 1 (five_to 7) 5 refl refl) in
    let unlocked = Locked.Reach.next wrote (Locked.Step.unlock 1 refl) in
    let locked_again = Locked.Reach.next unlocked (Locked.Step.lock 2 (five_to 9) refl refl) in
    let read_again = Locked.Reach.next locked_again (Locked.Step.read 2 (five_to 9) refl) in
    Locked.Reach.next read_again (Locked.Step.keep 2 (five_to 9) 7 refl refl)

locked-Executes_example : Executes (2 ^ 64) 5 exchanged.log 7
locked-Executes_example = locked-Executes (2 ^ 64) exchanged-Reach
