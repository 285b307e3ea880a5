-- ===== src/Function/Swap.antt =====
-- swap of src/_armcc/_functional.hpp exchanges the callables, wherever they lie.
use weos.Common.{ℕ, ◌≡◌, refl, Option}
use weos.Function.{Invoker, Heap, Function, swap, target, owns, IsFunction}

module _ (C : Type 0) where
  -- What swap has done, on a heap that it does not touch.
  pub record Swaps (heap : Heap C) (f g f' g' : Function C) : Type 0 where
    pub left_valid : IsFunction C heap f'
    pub right_valid : IsFunction C heap g'
    pub left_target : target C heap f' ≡ target C heap g
    pub right_target : target C heap g' ≡ target C heap f
    pub left_block : (b : ℕ) → owns C f' b ≡ owns C g b
    pub right_block : (b : ℕ) → owns C g' b ≡ owns C f b

  swap-cases :
      (heap : Heap C) (r s : Option C) (i j : Invoker)
      → IsFunction C heap (record { storage = r; invoker = i })
      → IsFunction C heap (record { storage = s; invoker = j })
      → Swaps heap
          (record { storage = r; invoker = i })
          (record { storage = s; invoker = j })
          (swap C (record { storage = r; invoker = i }) (record { storage = s; invoker = j })).0
          (swap C (record { storage = r; invoker = i }) (record { storage = s; invoker = j })).1
  unfolding swap target owns
  swap-cases heap r s Invoker.null Invoker.null h k = record {
    left_valid = h;
    right_valid = k;
    left_target = refl;
    right_target = refl;
    left_block = λ b. refl;
    right_block = λ b. refl;
  }
  swap-cases heap r s Invoker.null Invoker.inplace h k = record {
    left_valid = k;
    right_valid = refl;
    left_target = refl;
    right_target = refl;
    left_block = λ b. refl;
    right_block = λ b. refl;
  }
  swap-cases heap r s Invoker.null (Invoker.block y) h (k, c, e) = record {
    left_valid = (h, c, e);
    right_valid = k;
    left_target = refl;
    right_target = refl;
    left_block = λ b. refl;
    right_block = λ b. refl;
  }
  swap-cases heap r s Invoker.inplace Invoker.null h k = record {
    left_valid = refl;
    right_valid = h;
    left_target = refl;
    right_target = refl;
    left_block = λ b. refl;
    right_block = λ b. refl;
  }
  swap-cases heap r s Invoker.inplace Invoker.inplace h k = record {
    left_valid = k;
    right_valid = h;
    left_target = refl;
    right_target = refl;
    left_block = λ b. refl;
    right_block = λ b. refl;
  }
  swap-cases heap r s Invoker.inplace (Invoker.block y) h (k, c, e) = record {
    left_valid = (refl, c, e);
    right_valid = h;
    left_target = refl;
    right_target = refl;
    left_block = λ b. refl;
    right_block = λ b. refl;
  }
  swap-cases heap r s (Invoker.block x) Invoker.null (h, c, e) k = record {
    left_valid = h;
    right_valid = (k, c, e);
    left_target = refl;
    right_target = refl;
    left_block = λ b. refl;
    right_block = λ b. refl;
  }
  swap-cases heap r s (Invoker.block x) Invoker.inplace (h, c, e) k = record {
    left_valid = k;
    right_valid = (refl, c, e);
    left_target = refl;
    right_target = refl;
    left_block = λ b. refl;
    right_block = λ b. refl;
  }
  swap-cases heap r s (Invoker.block x) (Invoker.block y) (h, c, e) (k, d, x') = record {
    left_valid = (h, d, x');
    right_valid = (k, c, e);
    left_target = refl;
    right_target = refl;
    left_block = λ b. refl;
    right_block = λ b. refl;
  }

  -- swap of two functions exchanges their callables and their blocks, whether each of them is empty or has
  -- its callable in place or in a block; both functions stay valid, and the heap is as before.
  pub swap-Swaps :
      (heap : Heap C) (f g : Function C)
      → IsFunction C heap f
      → IsFunction C heap g
      → Swaps heap f g (swap C f g).0 (swap C f g).1
  swap-Swaps heap f g h k = swap-cases heap f.storage g.storage f.invoker g.invoker h k
