-- ===== src/Queue.antt =====
-- queue.go: the queue of callbacks, a linked list with a pointer to its last node. A node is at an
-- address of a heap; a callback is a number, and `none` is the nil function that stops the
-- dispatcher. The time of a node and the channels `notify` and `closeCh` are left out, but for
-- whether `closeCh` was closed.
pub mod Refinement
pub mod Fifo
use centrifuge_go.Prelude.{
  ℕ, ◌+◌, Bool, true, false, List, [], ◌∷◌, Option, none, some, ◌==◌, nat_key, ◌||◌, if◌then◌else◌,
  is_some, not,
}

-- `asyncCB`.
pub record Node : Type 0 where
  pub fn : Option ℕ
  pub next : Option ℕ

-- `cbQueue`; nodes are made at `fresh` and above.
pub record Queue : Type 0 where
  pub nodes : ℕ → Node
  pub fresh : ℕ
  pub head : Option ℕ
  pub tail : Option ℕ
  pub closed : Bool
  pub stopped : Bool

unfoldable pub store : ℕ → Node → (ℕ → Node) → ℕ → Node
store a node nodes b = if a == b then node else nodes b

-- `q.tail.next = cb`, if there is a tail.
unfoldable pub link : Option ℕ → ℕ → (ℕ → Node) → ℕ → Node
link none new nodes = nodes
link (some t) new nodes = store t (record (nodes t) { next = some new }) nodes

-- `pushOrClose`: with a function from `push`, with nil from `close`. The first part is the result.
unfoldable pub push_or_close : Option ℕ → Queue → Bool × Queue
push_or_close fn q = if q.closed then (false, q) else (
  true,
  record q {
    nodes = link q.tail q.fresh (store q.fresh (record { fn = fn; next = none }) q.nodes);
    fresh = q.fresh + 1;
    head = if is_some q.tail then q.head else some q.fresh;
    tail = some q.fresh;
    closed = not (is_some fn);
  },
)

abbrev pub is_at : ℕ → Option ℕ → Bool
is_at a none = false
is_at a (some b) = a == b

-- One round of the loop of `dispatch`: the node taken, if any. A nil function ends the loop.
unfoldable pub dispatch : Queue → Option (Option ℕ) × Queue
dispatch q = elim q.head [
  | none ↦ (none, q)
  | some a ↦ (
    some (q.nodes a).fn,
    record q {
      head = (q.nodes a).next;
      tail = if is_at a q.tail then none else q.tail;
      stopped = not (is_some (q.nodes a).fn) || q.stopped;
    },
  )
]

unfoldable pub new_queue : Queue
new_queue = record {
  nodes = λ a. record { fn = none; next = none };
  fresh = 0;
  head = none;
  tail = none;
  closed = false;
  stopped = false;
}
