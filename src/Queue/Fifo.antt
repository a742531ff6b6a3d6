-- ===== src/Queue/Fifo.antt =====
-- The callbacks leave the queue in the order in which they were pushed.
use centrifuge_go.Prelude.{
  ℕ, Bool, true, false, List, [], ◌∷◌, ◌++◌, Option, none, some, ◌≡◌, refl, sym, ap, ◌∙◌, subst,
  arith, inl, inr, ◌||◌, if◌then◌else◌, is_some, not, Bool-cases, Option-cases,
}
use centrifuge_go.Queue.{Queue, push_or_close, dispatch, new_queue}
use centrifuge_go.Queue.Refinement.{Holds, Holds-push, Holds-empty, Holds-dispatch, new_queue-Holds}

-- What the application and the dispatcher do with a queue: `push`, `close`, a round of `dispatch`.
pub data Use : Type 0 where
  pushes : ℕ → Use
  closes : Use
  dispatches : Use

after : Option (Option ℕ) → List (Option ℕ) → List (Option ℕ)
after none rest = rest
after (some f) rest = f ∷ rest

-- The callbacks taken by the rounds of `dispatch`, in order; `none` for the stop.
pub taken : List Use → Queue → List (Option ℕ)
unfolding after
taken [] q = []
taken (pushes f ∷ uses) q = taken uses (push_or_close (some f) q).1
taken (closes ∷ uses) q = taken uses (push_or_close none q).1
taken (dispatches ∷ uses) q = after (dispatch q).0 (taken uses (dispatch q).1)

-- The same on a list of waiting callbacks, and whether the queue was closed.
unfoldable pub listed : List Use → Bool → List (Option ℕ) → List (Option ℕ)
listed [] closed waiting = []
listed (pushes f ∷ uses) closed waiting =
    listed uses closed (if closed then waiting else waiting ++ (some f ∷ []))
listed (closes ∷ uses) closed waiting =
    listed uses true (if closed then waiting else waiting ++ (none ∷ []))
listed (dispatches ∷ uses) closed [] = listed uses closed []
listed (dispatches ∷ uses) closed (f ∷ waiting) = f ∷ listed uses closed waiting

push-closed :
    (f : Option ℕ) (q : Queue) → (push_or_close f q).1.closed ≡ q.closed || not (is_some f)
unfolding push_or_close
push-closed f q = ground arith

dispatch-closed : (q : Queue) → (dispatch q).1.closed ≡ q.closed
unfolding dispatch
dispatch-closed q = elim (Option-cases q.head) [
  | inl n ↦ ground (arith, n)
  | inr (a, n) ↦ ground (arith, n)
]

push-shut : (f : Option ℕ) (q : Queue) → q.closed ≡ true → (push_or_close f q).1 ≡ q
unfolding push_or_close
push-shut f q y = rw y refl

Holds-push_or_closed :
    (f : Option ℕ) (fs : List (Option ℕ)) (q : Queue)
    → Holds q fs
    → Holds (push_or_close f q).1 (if q.closed then fs else fs ++ (f ∷ []))
Holds-push_or_closed f fs q h = elim (Bool-cases q.closed) [
  | inl y ↦
      subst (λ b. Holds (push_or_close f q).1 (if b then fs else fs ++ (f ∷ []))) (sym y)
        (subst (λ r. Holds r fs) (sym (push-shut f q y)) h)
  | inr n ↦
      subst (λ b. Holds (push_or_close f q).1 (if b then fs else fs ++ (f ∷ []))) (sym n)
        (Holds-push f fs q n h)
]

taken-listed :
    (uses : List Use) (q : Queue) (fs : List (Option ℕ))
    → Holds q fs
    → taken uses q ≡ listed uses q.closed fs
unfolding taken listed
taken-listed [] q fs h = refl
taken-listed (pushes f ∷ uses) q fs h =
    let later = if q.closed then fs else fs ++ (some f ∷ []) in
    taken-listed uses (push_or_close (some f) q).1 later (Holds-push_or_closed (some f) fs q h)
    ∙ ap (λ b. listed uses b later) (ground (arith, push-closed (some f) q))
taken-listed (closes ∷ uses) q fs h =
    let later = if q.closed then fs else fs ++ (none ∷ []) in
    taken-listed uses (push_or_close none q).1 later (Holds-push_or_closed none fs q h)
    ∙ ap (λ b. listed uses b later) (ground (arith, push-closed none q))
taken-listed (dispatches ∷ uses) q [] h =
    ap (λ r. after r.0 (taken uses r.1)) (Holds-empty q h) ∙ taken-listed uses q [] h
taken-listed (dispatches ∷ uses) q (f ∷ fs) h =
    let (front, held) = Holds-dispatch f fs q h in
    let rest =
      taken-listed uses (dispatch q).1 fs held ∙ ap (λ b. listed uses b fs) (dispatch-closed q) in
    ap (λ r. after r (taken uses (dispatch q).1)) front ∙ ap (λ l. f ∷ l) rest

-- Whatever is done with a new queue, in whatever order, the rounds of its dispatcher take the
-- callbacks that a list would give them: first pushed, first taken, none pushed after the close, and
-- the stop after all the others.
pub queue_is_a_list : (uses : List Use) → taken uses new_queue ≡ listed uses false []
unfolding new_queue
queue_is_a_list uses = taken-listed uses new_queue [] new_queue-Holds
