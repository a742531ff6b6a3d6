-- ===== src/Calls.antt =====
-- Calls of the application that wait for the connection (client.go: `onConnect`, its futures, and
-- the closures of `Send`, `RPC`, `Publish`, `History`, `Presence` and `PresenceStats`). `ctx` says
-- for each call whether its context is done, and with what error.
pub mod Api
pub mod Settled
use centrifuge_go.Prelude.{
  ℕ, ◌+◌, Bool, true, false, List, [], ◌∷◌, ◌++◌, Option, none, some, nat_key, u64, lookup, insert,
  delete, if◌then◌else◌,
}
use centrifuge_go.Errors.{Result, ok, err, GoError, timeout, client_disconnected, client_closed}
use centrifuge_go.Effects.{spawn}
use centrifuge_go.Requests.{next_cmd_id, send_async, send}
use centrifuge_go.State.{
  CallResult, no_result, Client, Env, Call, Request, State, connected, disconnected, closed,
  connecting, send_req, call_cb, connect_future_timer,
}

abbrev pub Context : Type 0
Context = Call → Option GoError

abbrev pub outcome : Option GoError → Result CallResult
outcome none = ok no_result
outcome (some e) = err e

-- The result is handed to the call that waits for it.
unfoldable pub finish_call : Call → Option GoError → Client → Client
finish_call call e c = record c { results = c.results ++ ((call, outcome e) ∷ []) }

-- `sendRPC`, `sendPublish`, `sendHistory`, `sendPresence`, `sendPresenceStats`, once connected.
unfoldable pub send_call : Env → Call → Client → Client
unfolding finish_call
send_call env call c =
    let (id, c1) = next_cmd_id c in
    let (c2, e) = send_async env (record { id = id; request = call.request }) (call_cb call) c1 in
    elim e [ none ↦ c2 | some x ↦ finish_call call (some x) c2 ]

-- The closure that `Send` passes to `onConnect`; its command has no id and no reply.
unfoldable pub run_send : Env → Context → Call → Option GoError → Client → Client
unfolding finish_call
run_send env ctx call (some e) c = finish_call call (some e) c
run_send env ctx call none c = elim (ctx call) [
  | some e ↦ finish_call call (some e) c
  | none ↦
      let (c', e) = send env (record { id = 0; request = call.request }) c in finish_call call e c'
]

-- The closure that the other calls pass to `onConnect`.
unfoldable pub run_request : Env → Context → Call → Option GoError → Client → Client
unfolding finish_call
run_request env ctx call e c = elim (ctx call) [
  | some x ↦ finish_call call (some x) c
  | none ↦ elim e [ some x ↦ finish_call call (some x) c | none ↦ send_call env call c ]
]

abbrev pub is_send : Request → Bool
is_send (send_req b) = true
is_send _ = false

unfoldable pub run_call : Env → Context → Call → Option GoError → Client → Client
run_call env ctx call e c =
    if is_send call.request then run_send env ctx call e c else run_request env ctx call e c

-- A call made while the client connects becomes a future with a timer.
unfoldable pub add_connect_future : Call → Client → Client
unfolding spawn
add_connect_future call c =
    let id = u64 (c.future_id + 1) in
    spawn (connect_future_timer id)
      (record c { future_id = id; connect_futures = insert id call c.connect_futures })

unfoldable pub on_connect_at : State → Env → Context → Call → Client → Client
unfolding add_connect_future
on_connect_at connected env ctx call c = run_call env ctx call none c
on_connect_at disconnected env ctx call c = run_call env ctx call (some client_disconnected) c
on_connect_at closed env ctx call c = run_call env ctx call (some client_closed) c
on_connect_at connecting env ctx call c = add_connect_future call c

unfoldable pub on_connect : Env → Context → Call → Client → Client
unfolding on_connect_at
on_connect env ctx call c = on_connect_at c.state env ctx call c

-- The timer of a future: it does nothing once the future was resolved.
unfoldable pub connect_future_timeout : Env → Context → ℕ → Client → Client
connect_future_timeout env ctx id c = elim (lookup id c.connect_futures) [
  | none ↦ c
  | some call ↦
      run_call env ctx call (some timeout)
        (record c { connect_futures = delete id c.connect_futures })
]

unfoldable pub run_calls : Env → Context → Option GoError → List (ℕ × Call) → Client → Client
run_calls env ctx e [] c = c
run_calls env ctx e ((id, call) ∷ futures) c =
    run_calls env ctx e futures (run_call env ctx call e c)

unfoldable pub resolve_connect_futures : Env → Context → Option GoError → Client → Client
unfolding run_calls
resolve_connect_futures env ctx e c =
    let c' = run_calls env ctx e c.connect_futures c in record c' { connect_futures = [] }
