-- ===== src/MessageQueue/Tests.antt =====
-- A concrete kernel queue and pool of two, and the theorems applied to them.
use weos.Common.{
  ℕ, ◌<◌, ◌≡◌, refl, arith, Bool, true, false, ltb, ◌==◌, if◌then◌else◌, List, [], ◌∷◌, ◌++◌,
  length, none, some, ok,
}
use weos.Cmsis.{os_ok, os_error_resource, os_event_message}
use weos.MessageQueue.Kernel.{OsMessages, OsPool}
use weos.MessageQueue.{Large, try_send}
use weos.MessageQueue.Fifo.{IsFifo}
use weos.MessageQueue.Send.{Sends, try_send-Sends}

abbrev get_at : List ℕ → (ℕ × ℕ) × List ℕ
get_at [] = ((os_ok, 0), [])
get_at (d ∷ ds) = ((os_event_message, d), ds)

get_at-datum :
    (q : List ℕ) (d : ℕ) (ds : List ℕ)
    → q ≡ d ∷ ds
    → ((get_at q).0.0 ≡ os_event_message) × ((get_at q).0.1 ≡ d) × ((get_at q).1 ≡ ds)
get_at-datum q d ds e = rw e (refl, refl, refl)

get_at-empty : (q : List ℕ) → q ≡ [] → ((get_at q).0.0 ≡ os_ok) × ((get_at q).1 ≡ [])
get_at-empty q e = rw e (refl, refl)

put_at-room :
    (q : List ℕ) (d : ℕ)
    → length q < 2
    → let r : ℕ × List ℕ =
        if ltb (length q) 2 then (os_ok, q ++ d ∷ []) else (os_error_resource, q) in
      (r.0 ≡ os_ok) × (r.1 ≡ q ++ d ∷ [])
put_at-room q d h = ground arith

abbrev messages : OsMessages
messages = record {
  Queue = List ℕ;
  put = λ q d ms. if ltb (length q) 2 then (os_ok, q ++ d ∷ []) else (os_error_resource, q);
  get = λ q ms. get_at q;
  contents = λ q. q;
  capacity = 2;
  put_room = λ q d ms h. put_at-room q d h;
  get_datum = λ q ms d ds e. get_at-datum q d ds e;
  get_empty = λ q e. get_at-empty q e;
}

-- Are the chunks 4 and 8 taken?
record TwoChunks : Type 0 where
  at_4 : Bool
  at_8 : Bool

abbrev alloc_two : TwoChunks → ℕ × TwoChunks
alloc_two p =
    if p.at_4
    then (if p.at_8 then (0, p) else (8, record p { at_8 = true }))
    else (4, record p { at_4 = true })

abbrev free_two : TwoChunks → ℕ → TwoChunks
free_two p c =
    if c == 4 then record p { at_4 = false } else if c == 8 then record p { at_8 = false } else p

abbrev taken_two : TwoChunks → ℕ → Bool
taken_two p c = if c == 4 then p.at_4 else if c == 8 then p.at_8 else false

abbrev room_two : TwoChunks → ℕ
room_two p = if p.at_4 then (if p.at_8 then 0 else 1) else (if p.at_8 then 1 else 2)

abbrev two_chunks : OsPool
two_chunks = record {
  Pool = TwoChunks;
  alloc = alloc_two;
  free = free_two;
  room = room_two;
  taken = taken_two;
  alloc_room = λ p n e. (
    ground (arith, e),
    ground (arith, e),
    ground (arith, e),
    ground (arith, e),
    λ c. ground (arith, e),
  );
  free_taken = λ p c e. (ground (arith, e), λ d. ground (arith, e));
}

-- The queue holds 70, in the chunk 4.
abbrev one_element : Large messages two_chunks ℕ
one_element = record {
  num_available = 1;
  pool = record { at_4 = true; at_8 = false };
  pointers = 4 ∷ [];
  objects = λ c. if c == 4 then some 70 else none;
}

one_element-IsFifo : IsFifo messages two_chunks ℕ one_element (70 ∷ [])
one_element-IsFifo = record {
  held = (refl, refl, (λ e. omega (arith, e)), omega arith, tt, tt);
  slots = refl;
  room = refl;
}

try_send-Sends_example :
    let r = try_send messages two_chunks ℕ one_element 71 (ok tt) in
    Sends messages two_chunks ℕ one_element (70 ∷ []) 71 r.0 r.1
try_send-Sends_example =
    try_send-Sends messages two_chunks ℕ one_element (70 ∷ []) 71 one_element-IsFifo
