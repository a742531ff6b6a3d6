-- ===== src/Effects.antt =====
-- `queueEvent` and `runHandlerSync` of client.go, and the start of a goroutine. The queue runs what
-- is pushed in order, so here it is the list of what was pushed.
use centrifuge_go.Prelude.{Bool, [], ◌∷◌, ◌++◌, if◌then◌else◌}
use centrifuge_go.State.{Client, Frame, Event, Task}

unfoldable pub queue_event : Event → Client → Client
queue_event e c = if c.queue_closed then c else record c { events = c.events ++ (e ∷ []) }

-- `Close` sets `cbQueue` to nil, so nothing is pushed then.
unfoldable pub run_handler_sync : Event → Client → Client
unfolding queue_event
run_handler_sync e c = if c.cb_queue_set then queue_event e c else c

-- The event is queued if its handler is set.
unfoldable pub notify : Bool → Event → Client → Client
unfolding queue_event
notify handler e c = if handler then queue_event e c else c

unfoldable pub notify_sync : Bool → Event → Client → Client
unfolding run_handler_sync
notify_sync handler e c = if handler then run_handler_sync e c else c

unfoldable pub spawn : Task → Client → Client
spawn t c = record c { tasks = c.tasks ++ (t ∷ []) }

abbrev pub on_client : (Client → Client) → Frame → Frame
on_client g f = record f { client = g f.client }
