-- ===== src/Calls/Settled.antt =====
-- What becomes of a call of a client (client.go: `onConnect` and its futures).
use centrifuge_go.Prelude.{[], ◌∷◌, ◌++◌, some, ◌≡◌, ◌⊎◌, lookup, nat_key, ◌+◌, u64}
use centrifuge_go.Errors.{Result}
use centrifuge_go.Requests.{next_cmd_id, reply_result_of}
use centrifuge_go.State.{Client, Call, CallResult, State, call_cb}

-- What became of a call that was handed to `c`, now `d`: a result was added to the others, the
-- request with the next command id answers it, or it is the next call that waits for the connection.
abbrev pub IsAnswered : Call → Client → Client → Type 0
IsAnswered call c d = (r : Result CallResult) × (d.results ≡ c.results ++ ((call, r) ∷ []))

abbrev pub IsRequested : Call → Client → Client → Type 0
IsRequested call c d =
    lookup (next_cmd_id c).0 d.requests
    ≡ some (record { cb = call_cb call; result = reply_result_of call.request })

abbrev pub IsWaiting : Call → Client → Client → Type 0
IsWaiting call c d = lookup (u64 (c.future_id + 1)) d.connect_futures ≡ some call

abbrev pub IsSettled : Call → Client → Client → Type 0
IsSettled call c d = IsAnswered call c d ⊎ IsRequested call c d ⊎ IsWaiting call c d
