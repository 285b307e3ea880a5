-- ===== src/IntrusivePtr.antt =====
-- src/intrusive_ptr.hpp: two intrusive pointers and the reference counts of the objects. The functions
-- intrusive_ptr_add_ref and intrusive_ptr_release_ref are the client's.
pub mod Counting
pub mod Tests
use weos.Common.{ℕ, suc, ◌-◌, ◌<◌, ◌≡◌, ◌⊎◌, Bool, true, ◌==◌, if◌then◌else◌}

-- The two functions, on an object that is alive: its count is not zero. An object may itself hold intrusive
-- pointers, which its destructor releases: nothing is assumed of the counts when the last reference to
-- such an object goes. `plain` objects hold none. The second of the two pointers may be a member of an object, so that
-- it is a part of the store, which tells its m_pointer.
pub record Counted : Type 1 where
  pub Store : Type 0
  pub count : Store → ℕ → ℕ
  pub add_ref : Store → ℕ → Store
  pub release_ref : Store → ℕ → Store
  pub add_ref_alive :
      (s : Store) (p q : ℕ)
      → 0 < count s p
      → count (add_ref s p) q ≡ (if p == q then suc (count s q) else count s q)
  pub other_pointer : Store → ℕ
  pub set_other_pointer : Store → ℕ → Store
  pub other_pointer_set : (s : Store) (p : ℕ) → other_pointer (set_other_pointer s p) ≡ p
  pub count_set : (s : Store) (p q : ℕ) → count (set_other_pointer s p) q ≡ count s q
  pub other_pointer_add :
      (s : Store) (p : ℕ) → 0 < count s p → other_pointer (add_ref s p) ≡ other_pointer s
  pub plain : ℕ → Bool
  pub other_pointer_release :
      (s : Store) (p : ℕ)
      → 0 < count s p
      → (1 < count s p) ⊎ (plain p ≡ true)
      → other_pointer (release_ref s p) ≡ other_pointer s
  pub release_ref_alive :
      (s : Store) (p q : ℕ)
      → 0 < count s p
      → (1 < count s p) ⊎ (plain p ≡ true)
      → count (release_ref s p) q ≡ (if p == q then count s q - 1 else count s q)

module _ (objects : Counted) where
  open objects use {Store, add_ref, release_ref, other_pointer, set_other_pointer}

  -- The m_pointer of *this, and the objects with the other intrusive pointer; 0 is the null pointer.
  pub record Pointers : Type 0 where
    pub this : ℕ
    pub store : Store

  -- if (m_pointer) intrusive_ptr_add_ref(m_pointer)
  abbrev pub grab : ℕ → Store → Store
  grab p s = if p == 0 then s else add_ref s p

  -- if (m_pointer) intrusive_ptr_release_ref(m_pointer)
  abbrev pub drop : ℕ → Store → Store
  drop p s = if p == 0 then s else release_ref s p

  -- intrusive_ptr(pointer), for a pointer that is null so far
  pub construct : ℕ → Pointers → Pointers
  construct p w = record w { this = p; store = grab p w.store }

  -- intrusive_ptr(pointer, keep_reference_count)
  pub adopt : ℕ → Pointers → Pointers
  adopt p w = record w { this = p }

  -- intrusive_ptr(const intrusive_ptr&), for a pointer that is null so far
  pub copy_construct : Pointers → Pointers
  copy_construct w = let p = other_pointer w.store in record { this = p; store = grab p w.store }

  -- intrusive_ptr(intrusive_ptr&&)
  pub move_construct : Pointers → Pointers
  move_construct w = record { this = other_pointer w.store; store = set_other_pointer w.store 0 }

  -- operator=(const intrusive_ptr&): the other pointer is read after the release. `same` is `this == &other`.
  pub copy_assign : Bool → Pointers → Pointers
  copy_assign same w =
      let s = drop w.this w.store in
      let p = other_pointer s in if same then w else record { this = p; store = grab p s }

  -- operator=(intrusive_ptr&&), likewise
  pub move_assign : Bool → Pointers → Pointers
  move_assign same w =
      let s = drop w.this w.store in
      if same then w else record { this = other_pointer s; store = set_other_pointer s 0 }

  -- operator=(nullptr_t), reset() and the destructor
  pub clear : Pointers → Pointers
  clear w = record w { this = 0; store = drop w.this w.store }

  -- release: the pointer is the caller's from then on.
  pub release : Pointers → ℕ × Pointers
  release w = (w.this, record w { this = 0 })

  -- reset(ptr)
  pub reset : ℕ → Pointers → Pointers
  reset p w = record w { this = p; store = grab p (drop w.this w.store) }

  -- swap
  pub swap : Pointers → Pointers
  swap w = record { this = other_pointer w.store; store = set_other_pointer w.store w.this }
