-- ===== src/Threads/Observe.antt =====
-- weos_forEachThread of src/_cmsis_rtos/_thread.cpp. The callable is a function of the client's state that tells whether to go
-- on.
use weos.Common.{
  ℕ, zero, suc, ◌<◌, ◌≡◌, refl, sym, subst, arith, ◌==◌, Bool, false, if◌then◌else◌, Bool-cases,
  inl, inr, Option, none, some, List, [], ◌∷◌, length,
}
use weos.Threads.{States}
use weos.Threads.Chain.{Linked, IsStates}

module _ {C : Type 0} (f : C → ℕ → Bool × C) where
  pub for_each_loop : ℕ → States → ℕ → C → Option C
  for_each_loop zero q i c = none
  for_each_loop (suc fuel) q i c =
      let (go_on, c') = f c i in
      let rest = for_each_loop fuel q (q.next i) c' in
      if i == 0 then some c else if go_on then rest else some c'

  -- for_each_thread
  pub for_each_thread : ℕ → States → C → Option C
  for_each_thread fuel q c = for_each_loop fuel q q.head c

  -- The calls for the states of a list, up to the first that does not go on
  pub visited : List ℕ → C → C
  visited [] c = c
  visited (x ∷ xs) c =
      let (go_on, c') = f c x in let rest = visited xs c' in if go_on then rest else c'

  for_each_loop-visited :
      (fuel : ℕ) (q : States) (i : ℕ) (xs : List ℕ) (c : C)
      → length xs < fuel
      → Linked q.next i xs
      → for_each_loop fuel q i c ≡ some (visited xs c)
  unfolding for_each_loop visited
  for_each_loop-visited zero q i xs c h l = absurd (omega arith)
  for_each_loop-visited (suc fuel) q i [] c h l = ground (arith, l)
  for_each_loop-visited (suc fuel) q i (x ∷ xs) c h (e, pos, l) =
      let solid : (x == 0) ≡ false = ground (arith, pos) in
      let rest = for_each_loop-visited fuel q (q.next x) xs (f c x).1 (omega (arith, h)) l in
      subst (λ i. for_each_loop (suc fuel) q i c ≡ some (visited (x ∷ xs) c)) (sym e)
        (elim (Bool-cases (f c x).0) [ inl g ↦ rw (solid, g) rest | inr g ↦ rw (solid, g) refl ])

  -- for_each_thread calls the function for the states of the list from the first on, until a call does not go on or the
  -- list ends; it needs as much fuel as the list has states, and one more.
  pub for_each_thread-visited :
      (fuel : ℕ) (q : States) (xs : List ℕ) (c : C)
      → IsStates q xs
      → length xs < fuel
      → for_each_thread fuel q c ≡ some (visited xs c)
  unfolding for_each_thread
  for_each_thread-visited fuel q xs c s h = for_each_loop-visited fuel q q.head xs c h s.linked
