-- ===== src/IntrusivePtr/Tests.antt =====
-- Counts in a function as a concrete store, and the theorems on intrusive pointers applied to it.
use weos.Common.{ℕ, suc, ◌+◌, ◌-◌, refl, true, ◌==◌, if◌then◌else◌}
use weos.IntrusivePtr.{Counted, Pointers}
use weos.IntrusivePtr.Counting.{held}

-- The counts, and the other pointer
abbrev counts : Counted
counts = record {
  Store = (ℕ → ℕ) × ℕ;
  count = λ s p. s.0 p;
  add_ref = λ s p. ((λ q. if p == q then suc (s.0 q) else s.0 q), s.1);
  release_ref = λ s p. ((λ q. if p == q then s.0 q - 1 else s.0 q), s.1);
  add_ref_alive = λ s p q h. refl;
  other_pointer = λ s. s.1;
  set_other_pointer = λ s p. (s.0, p);
  other_pointer_set = λ s p. refl;
  count_set = λ s p q. refl;
  other_pointer_add = λ s p h. refl;
  plain = λ p. true;
  other_pointer_release = λ s p h k. refl;
  release_ref_alive = λ s p q h k. refl;
}

-- *this points to the object 4 and the other pointer to 8; nothing else does.
abbrev two_objects : Pointers counts
two_objects = record { this = 4; store = ((λ p. held 4 p + held 8 p + 0), 8) }
