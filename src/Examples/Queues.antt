-- ===== src/Examples/Queues.antt =====
-- The theorem about the callback queue, applied.
use centrifuge_go.Prelude.{List, [], ◌∷◌, none, some, ◌≡◌}
use centrifuge_go.Queue.{new_queue}
use centrifuge_go.Queue.Fifo.{Use, pushes, closes, dispatches, taken, listed, queue_is_a_list}

-- A callback is pushed while another one waits, and after the close.
abbrev uses : List Use
uses =
    pushes 1
    ∷ pushes 2
    ∷ dispatches
    ∷ pushes 3
    ∷ dispatches
    ∷ closes
    ∷ pushes 4
    ∷ dispatches
    ∷ dispatches
    ∷ dispatches
    ∷ []

queue_is_a_list_example : taken uses new_queue ≡ some 1 ∷ some 2 ∷ some 3 ∷ none ∷ []
unfolding listed
queue_is_a_list_example = queue_is_a_list uses
