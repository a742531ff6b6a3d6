-- ===== src/Queue/Refinement.antt =====
-- The linked list behaves as a list that is appended to at its end and taken from at its front.
use centrifuge_go.Prelude.{
  ℕ, ◌+◌, ◌<◌, false, List, [], ◌∷◌, ◌++◌, Option, none, some, ◌≡◌, refl, ◌≢◌, sym, ap, subst,
  arith, ◌||◌, nat_key, if◌then◌else◌, is_some, not,
}
use centrifuge_go.Queue.{Node, Queue, store, link, push_or_close, dispatch, new_queue, is_at}

-- The nodes from `h` to the last node `t` hold the functions, at addresses below `n`.
Links : (ℕ → Node) → Option ℕ → Option ℕ → ℕ → List (Option ℕ) → Type 0
Links nodes h t n [] = (h ≡ none) × (t ≡ none)
Links nodes h t n (f ∷ []) =
    (a : ℕ) × (h ≡ some a) × (a < n) × (nodes a ≡ record { fn = f; next = none }) × (t ≡ some a)
Links nodes h t n (f ∷ g ∷ fs) =
    (a : ℕ) × (h ≡ some a)
    × (a < n)
    × ((nodes a).fn ≡ f)
    × (t ≢ some a)
    × Links nodes (nodes a).next t n (g ∷ fs)

-- The heap after a push: the new node `n`, and the old last node `t` linked to it.
pushed : (ℕ → Node) → ℕ → ℕ → Option ℕ → ℕ → Node
pushed nodes t n f = link (some t) n (store n (record { fn = f; next = none }) nodes)

pushed-old :
    (nodes : ℕ → Node) (t n : ℕ) (f : Option ℕ) (a : ℕ)
    → a < n
    → some t ≢ some a
    → pushed nodes t n f a ≡ nodes a
unfolding pushed link store
pushed-old nodes t n f a l w = ground arith

pushed-last :
    (nodes : ℕ → Node) (t n : ℕ) (f : Option ℕ)
    → t < n
    → ((pushed nodes t n f t).fn ≡ (nodes t).fn) × ((pushed nodes t n f t).next ≡ some n)
unfolding pushed link store
pushed-last nodes t n f l = ground arith

pushed-new :
    (nodes : ℕ → Node) (t n : ℕ) (f : Option ℕ)
    → t < n
    → pushed nodes t n f n ≡ record { fn = f; next = none }
unfolding pushed link store
pushed-new nodes t n f l = ground arith

Links-push :
    (nodes : ℕ → Node) (h : Option ℕ) (t n : ℕ) (f : Option ℕ) (g : Option ℕ) (gs : List (Option ℕ))
    → Links nodes h (some t) n (g ∷ gs)
    → Links (pushed nodes t n f) h (some n) (n + 1) ((g ∷ gs) ++ (f ∷ []))
unfolding Links
Links-push nodes h t n f g [] (a, e, l, v, w) =
    let same : t ≡ a = ground arith in
    let last = pushed-last nodes t n f (omega arith) in
    (
      a,
      e,
      omega arith,
      ground (arith, v, last, same),
      ground arith,
      (n, ground (arith, last, same), omega arith, pushed-new nodes t n f (omega arith), refl),
    )
Links-push nodes h t n f g (g' ∷ gs) (a, e, l, v, w, rest) =
    let old = pushed-old nodes t n f a l w in
    (
      a,
      e,
      omega arith,
      ground (arith, old, v),
      ground arith,
      subst (λ m. Links (pushed nodes t n f) m.next (some n) (n + 1) (g' ∷ (gs ++ (f ∷ []))))
          (sym old) (Links-push nodes (nodes a).next t n f g' gs rest),
    )

-- The queue holds the functions.
unfoldable pub Holds : Queue → List (Option ℕ) → Type 0
unfolding Links
Holds q fs = Links q.nodes q.head q.tail q.fresh fs

store_self : (a : ℕ) (node : Node) (nodes : ℕ → Node) → store a node nodes a ≡ node
unfolding store
store_self a node nodes = ground arith

Links-tail :
    (nodes : ℕ → Node) (h t : Option ℕ) (n : ℕ) (g : Option ℕ) (gs : List (Option ℕ))
    → Links nodes h t n (g ∷ gs)
    → (u : ℕ) × (t ≡ some u)
unfolding Links
Links-tail nodes h t n g [] (a, e, l, v, w) = (a, w)
Links-tail nodes h t n g (g' ∷ gs) (a, e, l, v, w, rest) =
    Links-tail nodes (nodes a).next t n g' gs rest

push-linked :
    (f : Option ℕ) (q : Queue) (t : ℕ)
    → q.closed ≡ false
    → q.tail ≡ some t
    → (push_or_close f q).1 ≡ record q {
      nodes = pushed q.nodes t q.fresh f;
      fresh = q.fresh + 1;
      tail = some q.fresh;
      closed = not (is_some f);
    }
unfolding push_or_close pushed
push-linked f q t o e = rw (o, e) refl

pub Holds-push :
    (f : Option ℕ) (fs : List (Option ℕ)) (q : Queue)
    → q.closed ≡ false
    → Holds q fs
    → Holds (push_or_close f q).1 (fs ++ (f ∷ []))
unfolding push_or_close Holds Links link store
Holds-push f [] q o (e, w) = (
  q.fresh,
  ground (arith, o, w),
  ground (arith, o),
  rw (o, w) (store_self q.fresh (record { fn = f; next = none }) q.nodes),
  ground (arith, o),
)
Holds-push f (g ∷ gs) q o h =
    let (t, e) = Links-tail q.nodes q.head q.tail q.fresh g gs h in
    subst (λ r. Holds r ((g ∷ gs) ++ (f ∷ []))) (sym (push-linked f q t o e))
      (Links-push q.nodes q.head t q.fresh f g gs
        (subst (λ u. Links q.nodes q.head u q.fresh (g ∷ gs)) e h))

dispatch-head :
    (q : Queue) (a : ℕ)
    → q.head ≡ some a
    → dispatch q ≡ (
      some (q.nodes a).fn,
      record q {
        head = (q.nodes a).next;
        tail = if is_at a q.tail then none else q.tail;
        stopped = not (is_some (q.nodes a).fn) || q.stopped;
      },
    )
unfolding dispatch
dispatch-head q a e = rw e refl

pub Holds-dispatch :
    (f : Option ℕ) (fs : List (Option ℕ)) (q : Queue)
    → Holds q (f ∷ fs)
    → ((dispatch q).0 ≡ some f) × Holds (dispatch q).1 fs
unfolding Holds Links
Holds-dispatch f [] q (a, e, l, v, w) = rw (dispatch-head q a e) (ground (arith, v, w))
Holds-dispatch f (g ∷ gs) q (a, e, l, v, w, rest) =
    let kept : (if is_at a q.tail then none else q.tail) ≡ q.tail = ground arith in
    subst (λ r. (r.0 ≡ some f) × Holds r.1 (g ∷ gs)) (sym (dispatch-head q a e))
      (
        ap (λ x. some x) v,
        subst (λ u. Links q.nodes (q.nodes a).next u q.fresh (g ∷ gs)) (sym kept) rest,
      )

pub Holds-empty : (q : Queue) → Holds q [] → dispatch q ≡ (none, q)
unfolding Holds Links dispatch
Holds-empty q (e, w) = rw e refl

pub new_queue-Holds : Holds new_queue []
unfolding Holds Links new_queue
new_queue-Holds = (refl, refl)
