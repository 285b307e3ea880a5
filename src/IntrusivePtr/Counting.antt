-- ===== src/IntrusivePtr/Counting.antt =====
-- The reference counts that the intrusive pointers of src/intrusive_ptr.hpp keep.
use weos.Common.{ℕ, ◌+◌, ◌-◌, ◌<◌, ◌≡◌, ◌⊎◌, arith, Bool, true, false, ◌==◌, ==_refl, if◌then◌else◌}
use weos.IntrusivePtr.{
  Counted, Pointers, grab, drop, construct, adopt, copy_construct, move_construct, copy_assign,
  reset,
}

abbrev pub held : ℕ → ℕ → ℕ
held v p = if v == p then 1 else 0

module _ (objects : Counted) where
  open objects use {Store, count, other_pointer}

  -- Every object is counted once for each of the two pointers that points to it, and `others` times for
  -- the other references to it.
  abbrev pub IsCounted : (ℕ → ℕ) → Pointers objects → Type 0
  IsCounted others w =
      (p : ℕ) → 0 < p → count w.store p ≡ held w.this p + held (other_pointer w.store) p + others p

  -- The object is not destroyed when a reference to it is released, or holds no intrusive pointer itself.
  abbrev pub Droppable : ℕ → Store → Type 0
  Droppable v s = 0 < v → (1 < count s v) ⊎ (objects.plain v ≡ true)

  drop-count :
      (v : ℕ) (s : Store) (p : ℕ)
      → (0 < v → 0 < count s v)
      → Droppable v s
      → 0 < p
      → count (drop objects v s) p ≡ count s p - held v p
  drop-count v s p h d n = ground (arith, objects.release_ref_alive s v p, h, d)

  drop-other_pointer :
      (v : ℕ) (s : Store)
      → (0 < v → 0 < count s v)
      → Droppable v s
      → other_pointer (drop objects v s) ≡ other_pointer s
  drop-other_pointer v s h d = ground (arith, objects.other_pointer_release s v, h, d)

  grab-count :
      (v : ℕ) (s : Store) (p : ℕ)
      → (0 < v → 0 < count s v)
      → 0 < p
      → count (grab objects v s) p ≡ count s p + held v p
  grab-count v s p h n = ground (arith, objects.add_ref_alive s v p, h)

  grab-other_pointer :
      (v : ℕ) (s : Store)
      → (0 < v → 0 < count s v)
      → other_pointer (grab objects v s) ≡ other_pointer s
  grab-other_pointer v s h = ground (arith, objects.other_pointer_add s v, h)

  -- A pointer that gets the value of the other one, with a reference more.
  grabbed :
      (others : ℕ → ℕ) (s : Store)
      → ((p : ℕ) → 0 < p → count s p ≡ held (other_pointer s) p + others p)
      → IsCounted others
          (record { this = other_pointer s; store = grab objects (other_pointer s) s })
  grabbed others s h p n =
      let v = other_pointer s in
      let alive : 0 < v → 0 < count s v = λ m. ground (arith, h v m, ==_refl v) in
      let kept = grab-other_pointer v s alive in
      rw kept (omega (arith, grab-count v s p alive n, h p n))

  -- A pointer that gets the value of the other one, which is null then.
  taken :
      (others : ℕ → ℕ) (s : Store)
      → ((p : ℕ) → 0 < p → count s p ≡ held (other_pointer s) p + others p)
      → IsCounted others (record { this = other_pointer s; store = objects.set_other_pointer s 0 })
  taken others s h p n =
      rw (objects.count_set s 0 p, objects.other_pointer_set s 0) (ground (arith, h p n, n))

  module _ (others : ℕ → ℕ) (w : Pointers objects) (h : IsCounted others w) where
    alive_this : 0 < w.this → 0 < count w.store w.this
    alive_this n = ground (arith, h w.this n, ==_refl w.this)

    dropped :
        Droppable w.this w.store
        → (p : ℕ) → 0 < p
        → count (drop objects w.this w.store) p
          ≡ held (other_pointer (drop objects w.this w.store)) p + others p
    dropped d p n =
        rw (drop-other_pointer w.this w.store alive_this d)
          (omega (arith, drop-count w.this w.store p alive_this d n, h p n))

    copied :
        Droppable w.this w.store → (same : Bool) → IsCounted others (copy_assign objects same w)
    unfolding copy_assign
    copied d true = h
    copied d false = grabbed others (drop objects w.this w.store) (dropped d)

  -- A pointer from the constructors, from a null pointer on, counts exactly: construct and copy_construct
  -- add a reference, adopt takes one over from the others, and move_construct that of the other pointer.
  pub constructors-IsCounted :
      (others : ℕ → ℕ) (p : ℕ) (w : Pointers objects)
      → IsCounted others w
      → w.this ≡ 0
      → 0 < p
      → 0 < others p
      → IsCounted others (construct objects p w)
        × IsCounted (λ q. others q - held p q) (adopt objects p w)
        × IsCounted others (copy_construct objects w)
        × IsCounted others (move_construct objects w)
  unfolding construct adopt copy_construct move_construct
  constructors-IsCounted others p w h e pos o =
      let alive : 0 < p → 0 < count w.store p = λ m. ground (arith, h p pos, o) in
      let free : (q : ℕ) → 0 < q → count w.store q ≡ held (other_pointer w.store) q + others q =
        λ q n. ground (arith, e, n, h q n) in
      (
        (λ q n.
            rw (grab-other_pointer p w.store alive)
              (omega (arith, free q n, grab-count p w.store q alive n))),
        (λ q n. ground (arith, e, n, h q n, o)),
        grabbed others w.store free,
        taken others w.store free,
      )

  -- reset(ptr) counts exactly if the object has a reference other than that of *this.
  pub reset-IsCounted :
      (others : ℕ → ℕ) (p : ℕ) (w : Pointers objects)
      → IsCounted others w
      → Droppable w.this w.store
      → 0 < p
      → 0 < held (other_pointer w.store) p + others p
      → IsCounted others (reset objects p w)
  unfolding reset
  reset-IsCounted others p w h d pos o q n =
      let s = drop objects w.this w.store in
      let kept = drop-other_pointer w.this w.store (alive_this others w h) d in
      let alive : 0 < p → 0 < count s p =
        λ m. let c = dropped others w h d p m in ground (arith, c, o, kept) in
      rw (grab-other_pointer p s alive)
        (omega (arith, grab-count p s q alive n, dropped others w h d q n))

  -- reset of a pointer to its own object, if it has the only reference: the object is released, and so
  -- destroyed, before intrusive_ptr_add_ref is called on it.
  pub reset_own-destroyed :
      (others : ℕ → ℕ) (w : Pointers objects)
      → IsCounted others w
      → 0 < w.this
      → objects.plain w.this ≡ true
      → held (other_pointer w.store) w.this + others w.this ≡ 0
      → (reset objects w.this w
          ≡ record w { store = objects.add_ref (objects.release_ref w.store w.this) w.this })
        × (count (objects.release_ref w.store w.this) w.this ≡ 0)
  unfolding reset
  reset_own-destroyed others w h pos plain e =
      let one : count w.store w.this ≡ 1 = ground (arith, h w.this pos, e, ==_refl w.this) in
      (
        ground (arith, pos),
        ground (arith, one, objects.release_ref_alive w.store w.this w.this, plain, ==_refl w.this),
      )
