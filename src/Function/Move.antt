-- ===== src/Function/Move.antt =====
-- Move assignment of std::function in src/_armcc/_functional.hpp on the heap.
use weos.Common.{ℕ, ◌≡◌, refl, ◌∙◌, arith, true, false, Option, none}
use weos.Function.{Invoker, Heap, Function, release, move_assign, target, owns, IsFunction}
use weos.Function.Assign.{release-Released, Apart}

module _ (C : Type 0) where
  release-storage :
      (heap : Heap C) (f : Function C) → IsFunction C heap f → (release C heap f).1.storage ≡ none
  unfolding release
  release-storage heap f h = cases f.storage f.invoker h
    where
      cases :
          (s : Option C) (i : Invoker)
          → IsFunction C heap (record { storage = s; invoker = i })
          → (release C heap (record { storage = s; invoker = i })).1.storage ≡ none
      cases s Invoker.null h = h
      cases s Invoker.inplace h = refl
      cases s (Invoker.block a) (h, c, e) = h

  -- What a move assignment has done.
  pub record Moved (heap heap' : Heap C) (f g f' g' : Function C) : Type 0 where
    pub valid : IsFunction C heap' f'
    pub same : target C heap' f' ≡ target C heap g
    pub other_valid : IsFunction C heap' g'
    pub other_none : (b : ℕ) → owns C g' b ≡ false
    pub block : (b : ℕ) → owns C f' b ≡ owns C g b
    pub freed : (b : ℕ) → owns C f b ≡ true → heap' b ≡ none
    pub others : (b : ℕ) → owns C f b ≡ false → heap' b ≡ heap b

  move-cases :
      (heap : Heap C) (f : Function C) (s : Option C) (j : Invoker)
      → IsFunction C heap f
      → IsFunction C heap (record { storage = s; invoker = j })
      → Apart C f (record { storage = s; invoker = j })
      → Moved heap
          (move_assign C heap f (record { storage = s; invoker = j })).0
          f
          (record { storage = s; invoker = j })
          (move_assign C heap f (record { storage = s; invoker = j })).1.0
          (move_assign C heap f (record { storage = s; invoker = j })).1.1
  unfolding move_assign owns target
  move-cases heap f s Invoker.null hf hg apart =
      let r = release-Released C heap f hf in
      record {
        valid = release-storage heap f hf;
        same = refl;
        other_valid = hg;
        other_none = λ b. refl;
        block = λ b. refl;
        freed = r.freed;
        others = r.others;
      }
  move-cases heap f s Invoker.inplace hf hg apart =
      let r = release-Released C heap f hf in
      record {
        valid = hg;
        same = refl;
        other_valid = hg;
        other_none = λ b. refl;
        block = λ b. refl;
        freed = r.freed;
        others = r.others;
      }
  move-cases heap f s (Invoker.block x) hf (h, c, e) apart =
      let r = release-Released C heap f hf in
      let kept : (release C heap f).0 x ≡ heap x = r.others x (apart x (ground arith)) in
      record {
        valid = (release-storage heap f hf, c, kept ∙ e);
        same = kept;
        other_valid = h;
        other_none = λ b. refl;
        block = λ b. refl;
        freed = r.freed;
        others = r.others;
      }

  -- Move assignment of a function gives it the other's callable, with its block, and gives its old block
  -- back; the other function keeps no block, all other blocks are as before, and both functions are valid.
  -- The two have no block in common.
  pub move_assign-Moved :
      (heap : Heap C) (f g : Function C)
      → IsFunction C heap f
      → IsFunction C heap g
      → Apart C f g
      → Moved heap
          (move_assign C heap f g).0
          f
          g
          (move_assign C heap f g).1.0
          (move_assign C heap f g).1.1
  move_assign-Moved heap f g hf hg apart = move-cases heap f g.storage g.invoker hf hg apart
