-- ===== src/Tq.antt =====
-- src/_cmsis_rtos/_tq.hpp and _tq.cpp: the queue of threads that wait for a notification. The nodes
-- lie in a heap and are linked through `m_v`, whose lowest two bits are flags. The functions behind
-- the supervisor calls run without interruption by a thread; that of an interrupt is not modelled,
-- so a compare-exchange fails only if the word differs.
pub mod Chain
pub mod Notify
pub mod Link
pub mod Unlink
pub mod Order
pub mod Contract
pub mod Sample
pub mod Tests
use weos.Common.{
  ℕ, zero, suc, ◌+◌, ◌*◌, ◌/◌, ◌%◌, Bool, true, false, not, ◌&&◌, ◌==◌, leb, if◌then◌else◌, Option,
  none, some,
}

-- _tq::_t: `v` is m_v, `tokens` the value of the semaphore m_s, `priority` m_p, from the lowest
-- priority as 0.
pub record Node : Type 0 where
  pub v : ℕ
  pub tokens : ℕ
  pub priority : ℕ

-- _tq, and the nodes by their addresses. The address 0 is the null pointer.
pub record Queue : Type 0 where
  pub head : ℕ
  pub node : ℕ → Node

abbrev pub update : (ℕ → Node) → ℕ → Node → ℕ → Node
update f a n b = if a == b then n else f b

abbrev pub put : Queue → ℕ → Node → Queue
put q a n = record q { node = update q.node a n }

-- m_v & ~3
abbrev pub link_of : ℕ → ℕ
link_of v = v / 4 * 4

-- m_v | 3
abbrev pub mark_notified : ℕ → ℕ
mark_notified v = v / 4 * 4 + 3

-- m_v | 2
abbrev pub mark_unlinked : ℕ → ℕ
mark_unlinked v = v / 4 * 4 + 2 + v % 2

-- m_v & 2
abbrev pub is_unlinked : ℕ → Bool
is_unlinked v = v / 2 % 2 == 1

-- m_v & 1
abbrev pub is_notified : ℕ → Bool
is_notified v = v % 2 == 1

-- p | (m_v & 3), for the address p of a node, a multiple of 4
abbrev pub redirect : ℕ → ℕ → ℕ
redirect v p = p + v % 4

-- i->m_v = iv | 3; i->m_s.post();
abbrev pub notified : Node → Node
notified n = record n { v = mark_notified n.v; tokens = n.tokens + 1 }

-- The loop of weos_tq_notify for all waiters.
pub notify_loop : ℕ → Queue → ℕ → Option Queue
notify_loop zero q i = none
notify_loop (suc fuel) q i =
    let rest = notify_loop fuel (put q i (notified (q.node i))) (link_of (q.node i).v) in
    if i == 0 then some q else rest

pub notify_all : ℕ → Queue → Option Queue
unfolding notify_loop
notify_all fuel q =
    let loop = notify_loop fuel (record q { head = 0 }) q.head in
    if q.head == 0 then some q else loop

-- weos_tq_notify for one waiter.
pub notify_one : Queue → Queue
notify_one q = if q.head == 0 then q else record {
  head = link_of (q.node q.head).v;
  node = update q.node q.head (notified (q.node q.head));
}

-- The loop of weos_tq_link, where `i` may be null.
pub link_loop : ℕ → Queue → ℕ → ℕ → ℕ → Option Queue
link_loop zero q t p i = none
link_loop (suc fuel) q t p i =
    let at = if i == 0 then q.head else i in
    let iv = (q.node at).v in
    let next = link_of iv in
    let restart = link_loop fuel q t p 0 in
    let go_on = link_loop fuel q t p next in
    if at == 0
    then some (record q { head = t })
    else if is_unlinked iv
    then restart
    else if not (next == 0) && leb p (q.node next).priority
    then go_on
    else let linked = put q t (record (q.node t) { v = next }) in
      some (put linked at (record (linked.node at) { v = redirect iv t }))

abbrev pub priority_error : ℕ
priority_error = 0x84

-- weos_tq_link with the priority `p` of the running thread: the result and the queue.
pub link : ℕ → Queue → ℕ → ℕ → Option (ℕ × Queue)
link fuel q t p =
    let prioritised = put q t (record (q.node t) { priority = p }) in
    let looped = link_loop fuel prioritised t p 0 in
    if p == priority_error
    then some (1, prioritised)
    else elim looped [ none ↦ none | some q' ↦ some (0, q') ]

-- t->m_v |= 2
abbrev pub set_unlinked : Queue → ℕ → Queue
set_unlinked q t = put q t (record (q.node t) { v = mark_unlinked (q.node t).v })

-- The loop of weos_tq_unlink, where `tn` follows `t`.
pub unlink_loop : ℕ → Queue → ℕ → ℕ → ℕ → Option Queue
unlink_loop zero q t tn i = none
unlink_loop (suc fuel) q t tn i =
    let iv = (q.node i).v in
    let next = link_of iv in
    let go_on = unlink_loop fuel q t tn next in
    if next == 0
    then some (set_unlinked q t)
    else if next == t
    then some (set_unlinked (put q i (record (q.node i) { v = redirect iv tn })) t)
    else go_on

-- weos_tq_unlink
pub svc_unlink : ℕ → Queue → ℕ → Option Queue
svc_unlink fuel q t =
    let tn = link_of (q.node t).v in
    let loop = unlink_loop fuel q t tn q.head in
    if q.head == t
    then some (set_unlinked (record q { head = tn }) t)
    else if q.head == 0
    then some (set_unlinked q t)
    else loop

-- _t::unlink: whether the thread has been notified, and the queue.
pub unlink : ℕ → Queue → ℕ → Option (Bool × Queue)
unlink fuel q t =
    let called = svc_unlink fuel q t in
    if is_unlinked (q.node t).v
    then some (is_notified (q.node t).v, q)
    else elim called [ none ↦ none | some q' ↦ some (is_notified (q'.node t).v, q') ]

-- _t::_t outside of an interrupt: a node with no flags and no tokens, then weos_tq_link.
pub enqueue : ℕ → Queue → ℕ → ℕ → Option (ℕ × Queue)
enqueue fuel q t p = link fuel (put q t (record { v = 0; tokens = 0; priority = 0 })) t p
