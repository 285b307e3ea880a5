-- ===== src/Function/Assign.antt =====
-- The constructors and assignments of std::function in src/_armcc/_functional.hpp on the heap.
use weos.Common.{
  ℕ, ◌≡◌, ◌≢◌, refl, sym, ◌∙◌, subst, arith, true, false, Bool-cases, inl, inr, Option, none,
}
use weos.Function.{
  Invoker, Heap, Function, copy, release, swap, copy_assign, target, owns, IsFunction,
}
use weos.Function.Swap.{Swaps, swap-Swaps}

module _ (C : Type 0) where
  -- What release has done: the function is empty, and its block, if it has one, is given back.
  pub record Released (heap heap' : Heap C) (f f' : Function C) : Type 0 where
    pub valid : IsFunction C heap' f'
    pub empty : f'.invoker ≡ Invoker.null
    pub freed : (b : ℕ) → owns C f b ≡ true → heap' b ≡ none
    pub others : (b : ℕ) → owns C f b ≡ false → heap' b ≡ heap b

  release-cases :
      (heap : Heap C) (s : Option C) (i : Invoker)
      → IsFunction C heap (record { storage = s; invoker = i })
      → Released heap
          (release C heap (record { storage = s; invoker = i })).0
          (record { storage = s; invoker = i })
          (release C heap (record { storage = s; invoker = i })).1
  unfolding release owns
  release-cases heap s Invoker.null h = record {
    valid = h;
    empty = refl;
    freed = λ b e. absurd (ground arith);
    others = λ b e. refl;
  }
  release-cases heap s Invoker.inplace h = record {
    valid = refl;
    empty = refl;
    freed = λ b e. absurd (ground arith);
    others = λ b e. refl;
  }
  release-cases heap s (Invoker.block a) (h, c, e) = record {
    valid = h;
    empty = refl;
    freed = λ b e'. rw e' refl;
    others = λ b e'. rw e' refl;
  }

  pub release-Released :
      (heap : Heap C) (f : Function C)
      → IsFunction C heap f
      → Released heap (release C heap f).0 f (release C heap f).1
  release-Released heap f h = release-cases heap f.storage f.invoker h

  -- What the copy constructor has done, where `a` is the address of a free block.
  record Copied (a : ℕ) (heap heap' : Heap C) (f f' : Function C) : Type 0 where
    valid : IsFunction C heap' f'
    same : target C heap' f' ≡ target C heap f
    owned : (b : ℕ) → a ≢ b → owns C f' b ≡ false
    others : (b : ℕ) → a ≢ b → heap' b ≡ heap b
    unused : owns C f' a ≡ false → heap' a ≡ heap a

  copy-cases :
      (a : ℕ) (heap : Heap C) (s : Option C) (i : Invoker)
      → IsFunction C heap (record { storage = s; invoker = i })
      → Copied a heap
          (copy C a heap (record { storage = s; invoker = i })).0
          (record { storage = s; invoker = i })
          (copy C a heap (record { storage = s; invoker = i })).1
  unfolding copy owns target
  copy-cases a heap s Invoker.null h = record {
    valid = refl;
    same = refl;
    owned = λ b d. refl;
    others = λ b d. refl;
    unused = λ e. refl;
  }
  copy-cases a heap s Invoker.inplace h = record {
    valid = h;
    same = refl;
    owned = λ b d. refl;
    others = λ b d. refl;
    unused = λ e. refl;
  }
  copy-cases a heap s (Invoker.block x) (h, c, e) = record {
    valid = (refl, c, ground (arith, e));
    same = ground arith;
    owned = λ b d. ground (arith, d);
    others = λ b d. ground (arith, d);
    unused = λ n. absurd (ground (arith, n));
  }

  copy-Copied :
      (a : ℕ) (heap : Heap C) (f : Function C)
      → IsFunction C heap f
      → Copied a heap (copy C a heap f).0 f (copy C a heap f).1
  copy-Copied a heap f h = copy-cases a heap f.storage f.invoker h

  -- A function sees only its own block of the heap.
  record Stays (heap heap' : Heap C) (f : Function C) : Type 0 where
    valid : IsFunction C heap' f
    same : target C heap' f ≡ target C heap f

  Stays-cases :
      (heap heap' : Heap C) (s : Option C) (i : Invoker)
      → IsFunction C heap (record { storage = s; invoker = i })
      → ((b : ℕ) → owns C (record { storage = s; invoker = i }) b ≡ true → heap' b ≡ heap b)
      → Stays heap heap' (record { storage = s; invoker = i })
  unfolding owns target
  Stays-cases heap heap' s Invoker.null h k = record { valid = h; same = refl }
  Stays-cases heap heap' s Invoker.inplace h k = record { valid = h; same = refl }
  Stays-cases heap heap' s (Invoker.block x) (h, c, e) k =
      let same : heap' x ≡ heap x = k x (ground arith) in
      record { valid = (h, c, same ∙ e); same = same }

  stays :
      {heap heap' : Heap C} (f : Function C)
      → IsFunction C heap f
      → ((b : ℕ) → owns C f b ≡ true → heap' b ≡ heap b)
      → Stays heap heap' f
  stays {heap} {heap'} f h k = Stays-cases heap heap' f.storage f.invoker h k

  owned-cases :
      (heap : Heap C) (s : Option C) (i : Invoker)
      → IsFunction C heap (record { storage = s; invoker = i })
      → (b : ℕ) → heap b ≡ none
      → owns C (record { storage = s; invoker = i }) b ≡ false
  unfolding owns
  owned-cases heap s Invoker.null h b n = refl
  owned-cases heap s Invoker.inplace h b n = refl
  owned-cases heap s (Invoker.block x) (h, c, e) b n = ground (arith, e, n)

  -- A free block belongs to no function.
  unowned :
      (heap : Heap C) (f : Function C)
      → IsFunction C heap f
      → (b : ℕ) → heap b ≡ none
      → owns C f b ≡ false
  unowned heap f h b n = owned-cases heap f.storage f.invoker h b n

  other_block :
      (heap : Heap C) (f : Function C)
      → IsFunction C heap f
      → (a b : ℕ) → heap a ≡ none
      → owns C f b ≡ true
      → a ≢ b
  other_block heap f h a b free o e =
      let n = unowned heap f h a free in ground (arith, subst (λ z. owns C f z ≡ true) (sym e) o, n)

  -- What an assignment has done.
  pub record Assigned (a : ℕ) (heap heap' : Heap C) (f g f' : Function C) : Type 0 where
    pub valid : IsFunction C heap' f'
    pub same : target C heap' f' ≡ target C heap g
    pub other_valid : IsFunction C heap' g
    pub other_same : target C heap' g ≡ target C heap g
    pub freed : (b : ℕ) → owns C f b ≡ true → heap' b ≡ none
    pub others : (b : ℕ) → a ≢ b → owns C f b ≡ false → heap' b ≡ heap b
    pub apart : (b : ℕ) → owns C g b ≡ true → owns C f' b ≡ false
    pub unused : owns C f' a ≡ false → heap' a ≡ heap a

  -- Two functions have no block in common.
  abbrev pub Apart : Function C → Function C → Type 0
  Apart f g = (b : ℕ) → owns C g b ≡ true → owns C f b ≡ false

  assigned :
      (a : ℕ) (heap copied left : Heap C) (f g temporary old f' gone : Function C)
      → IsFunction C heap f
      → IsFunction C heap g
      → Apart f g
      → heap a ≡ none
      → Copied a heap copied g temporary
      → Swaps C copied temporary f old f'
      → Released copied left old gone
      → Assigned a heap left f g f'
  assigned a heap copied left f g temporary old f' gone hf hg apart free c w r =
      let f_kept : (b : ℕ) → a ≢ b → owns C f b ≡ false → left b ≡ heap b =
        λ b d n. r.others b (w.left_block b ∙ n) ∙ c.others b d in
      let mine : (b : ℕ) → owns C f' b ≡ true → left b ≡ copied b = λ b o.
        elim (Bool-cases (owns C f b)) [
          | inl e ↦
              let out = c.owned b (other_block heap f hf a b free e) in
              absurd (ground (arith, sym (w.right_block b) ∙ o, out))
          | inr e ↦ r.others b (w.left_block b ∙ e)
        ] in
      let new = stays f' w.right_valid mine in
      let kept = stays g hg (λ b o. f_kept b (other_block heap g hg a b free o) (apart b o)) in
      record {
        valid = new.valid;
        same = new.same ∙ w.right_target ∙ c.same;
        other_valid = kept.valid;
        other_same = kept.same;
        freed = λ b o. r.freed b (w.left_block b ∙ o);
        others = f_kept;
        apart = λ b o. w.right_block b ∙ c.owned b (other_block heap g hg a b free o);
        unused = λ n.
            r.others a (w.left_block a ∙ unowned heap f hf a free)
            ∙ c.unused (sym (w.right_block a) ∙ n);
      }

  -- Copy assignment of a function gives it a copy of the other's callable and gives its old block back; the
  -- other function and all other blocks are as before, the block from the allocator too unless the function
  -- owns it now, and both functions are valid and have no block in common. Before, the two have no block in
  -- common, and the allocator gives a free one.
  pub copy_assign-Assigned :
      (a : ℕ) (heap : Heap C) (f g : Function C)
      → IsFunction C heap f
      → IsFunction C heap g
      → Apart f g
      → heap a ≡ none
      → Assigned a heap (copy_assign C a heap f g).0 f g (copy_assign C a heap f g).1
  unfolding copy_assign
  copy_assign-Assigned a heap f g hf hg apart free =
      let (copied, temporary) = copy C a heap g in
      let c = copy-Copied a heap g hg in
      let hf' = (stays f hf (λ b o. c.others b (other_block heap f hf a b free o))).valid in
      let w = swap-Swaps C copied temporary f c.valid hf' in
      let r = release-Released copied (swap C temporary f).0 w.left_valid in
      assigned a heap copied (release C copied (swap C temporary f).0).0 f g temporary
        (swap C temporary f).0 (swap C temporary f).1 (release C copied (swap C temporary f).0).1 hf
        hg apart free c w r
