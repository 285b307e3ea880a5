-- ===== src/Atomic/Operators.antt =====
-- The operators of atomic_base in src/_armcc/_atomic.hpp, which call the fetch functions, on an unsigned type of `size` values.
use weos.Common.{
  ℕ, ◌+◌, ◌-◌, ◌%◌, ◌≡◌, refl, sym, ◌∙◌, ap, subst, arith, bit_and, bit_or, bit_xor, Bool, true,
  false, if◌then◌else◌, List, ◌∷◌,
}
use weos.Atomic.{Arith, Op, Outcome, Event, modified, outcome, next_value, Executes}

-- ++a, a++, --a, a-- and a += b, ..., a ^= b
pub data Operator : Type 0 where
  pre_increment post_increment pre_decrement post_decrement : Operator
  compound : Arith → ℕ → Operator

-- The fetch function that the operator calls.
pub fetched : Operator → Op
fetched Operator.pre_increment = Op.modify Arith.add 1
fetched Operator.post_increment = Op.modify Arith.add 1
fetched Operator.pre_decrement = Op.modify Arith.sub 1
fetched Operator.post_decrement = Op.modify Arith.sub 1
fetched (Operator.compound a arg) = Op.modify a arg

-- What the operator returns, from the result of the fetch function; the sum or difference is converted to the type.
pub result : ℕ → Operator → ℕ → ℕ
result size Operator.pre_increment old = (old + 1) % size
result size Operator.post_increment old = old
result size Operator.pre_decrement old = (old + size - 1) % size
result size Operator.post_decrement old = old
result size (Operator.compound Arith.add arg) old = (old + arg) % size
result size (Operator.compound Arith.sub arg) old = (old + size - arg) % size
result size (Operator.compound Arith.conjunction arg) old = bit_and old arg % size
result size (Operator.compound Arith.disjunction arg) old = bit_or old arg % size
result size (Operator.compound Arith.exclusive arg) old = bit_xor old arg % size

-- Does the operator return the old value?
pub is_postfix : Operator → Bool
is_postfix Operator.post_increment = true
is_postfix Operator.post_decrement = true
is_postfix _ = false

result-modified :
    (size : ℕ) (o : Operator) (old : ℕ)
    → result size o old ≡ (if is_postfix o then old else next_value size (fetched o) old)
unfolding result is_postfix next_value fetched modified
result-modified size Operator.pre_increment old = refl
result-modified size Operator.post_increment old = refl
result-modified size Operator.pre_decrement old = refl
result-modified size Operator.post_decrement old = refl
result-modified size (Operator.compound Arith.add arg) old = refl
result-modified size (Operator.compound Arith.sub arg) old = refl
result-modified size (Operator.compound Arith.conjunction arg) old = refl
result-modified size (Operator.compound Arith.disjunction arg) old = refl
result-modified size (Operator.compound Arith.exclusive arg) old = refl

outcome-fetched : (o : Operator) (old : ℕ) → outcome (fetched o) old ≡ Outcome.returned old
unfolding outcome fetched
outcome-fetched Operator.pre_increment old = refl
outcome-fetched Operator.post_increment old = refl
outcome-fetched Operator.pre_decrement old = refl
outcome-fetched Operator.post_decrement old = refl
outcome-fetched (Operator.compound a arg) old = refl

-- An operator whose fetch function takes effect last in a sequence of operations returns the value that it has left, if it
-- stands before its operand or assigns, and the value before that, if it stands behind its operand; the sequence is
-- what any interleaving of threads amounts to.
pub operator-atomic :
    (size first last : ℕ) (es : List Event) (e : Event) (o : Operator) (old : ℕ)
    → Executes size first (e ∷ es) last
    → e.op ≡ fetched o
    → e.outcome ≡ Outcome.returned old
    → Executes size first es old × (result size o old ≡ (if is_postfix o then old else last))
operator-atomic size first last es e o old (value, before, gives, leaves) p q =
    let returns : Outcome.returned value ≡ Outcome.returned old =
      sym (outcome-fetched o value) ∙ ap (λ z. outcome z value) (sym p) ∙ gives ∙ q in
    let same : value ≡ old = ground (arith, returns) in
    let left : next_value size (fetched o) old ≡ last =
      sym (ap (λ z. next_value size z old) p) ∙ ap (next_value size e.op) (sym same) ∙ leaves in
    (
      subst (λ v. Executes size first es v) same before,
      result-modified size o old ∙ ap (λ z. if is_postfix o then old else z) left,
    )
