-- ===== src/Client/Answers.antt =====
-- Pending calls (client.go: `handle`, `sendAsyncOn`, and the closures of the calls).
use centrifuge_go.Prelude.{
  true, ◌⊎◌, map, delete, String, ℕ, false, List, [], ◌∷◌, ◌++◌, Option, none, some, ◌≡◌, refl, inl,
  inr, arith, lookup, nat_key, Option-cases, Bool-cases, not, ◌&&◌, is_some, sym, subst,
}
use centrifuge_go.Codes.{disconnected_bad_protocol}
use centrifuge_go.Errors.{GoError, Result, ServerError, ok, err, server_error, client_disconnected}
use centrifuge_go.Calls.{Context, finish_call}
use centrifuge_go.Requests.{pop_request, reply_result_of}
use centrifuge_go.State.{
  Client, Env, Call, CallResult, no_result, rpc_result, history_result, presence_result,
  presence_stats_result, Request, Pending, call_cb, connect_req, subscribe_req, unsubscribe_req,
  refresh_req, sub_refresh_req, rpc_req, publish_req, history_req, presence_req, presence_stats_req,
  send_req, pong_req,
}
use centrifuge_go.Protocol.{Slice, WireInfo, pub_from_proto}
use centrifuge_go.World.{World, in_client}
use centrifuge_go.Client.{
  Reply, Waits, WireHistory, handle_reply, request_timeout, run_callback, fail_callback, present,
  client_info, finish_replied, call_result, answer, malformed_reply, rpc_result_of,
  history_result_of, presence_result_of, presence_stats_result_of, move_to_disconnected_from,
}

abbrev pub pending_call : Call → Pending
pending_call call = record { cb = call_cb call; result = reply_result_of call.request }

-- What the application gets for a request out of a reply that has it.
abbrev pub Reads : Request → Reply → CallResult → Type 0
Reads (rpc_req method sent) r x = (b : Slice) × (r.rpc ≡ some b) × (x ≡ rpc_result b)
Reads (history_req channel o) r x =
    (h : WireHistory) × (r.history ≡ some h)
    × (x ≡ history_result (map pub_from_proto (present h.pubs)) h.offset h.epoch)
Reads (presence_req channel) r x =
    (clients : List (String × Option WireInfo)) × (r.presence ≡ some clients)
    × (x ≡ presence_result (map client_info clients))
Reads (presence_stats_req channel) r x =
    (clients : ℕ) × (users : ℕ) × (r.presence_stats ≡ some (clients, users))
    × (x ≡ presence_stats_result clients users)
Reads _ r x = x ≡ no_result

-- The result that the reply is to give the call: the error of the server, a disconnect if the reply
-- lacks what the call asked for, and else what it asked for.
abbrev pub IsAnswer : Call → Reply → Result CallResult → Type 0
IsAnswer call r (err e) =
    ((se : ServerError) × (r.error ≡ some se) × (e ≡ server_error se))
    ⊎ (r.error ≡ none)
      × (malformed_reply (reply_result_of call.request) r ≡ true)
      × (e ≡ client_disconnected)
IsAnswer call r (ok x) = (r.error ≡ none) × Reads call.request r x

-- The result of the call is the last one added.
abbrev pub IsLast : Call → Reply → Client → Type 0
IsLast call r d =
    (before : List (Call × Result CallResult)) × (x : Result CallResult) × (d.results
      ≡ before ++ ((call, x) ∷ []))
    × IsAnswer call r x

-- A reply that passed the check has what the closure of the call reads.
abbrev HasResult : Request → Reply → Type 0
HasResult request r = (x : CallResult) × (call_result request r ≡ some x) × Reads request r x

checked-result :
    (request : Request) (r : Reply)
    → malformed_reply (reply_result_of request) r ≡ false
    → HasResult request r
unfolding malformed_reply reply_result_of call_result rpc_result_of history_result_of
    presence_result_of presence_stats_result_of
checked-result (rpc_req method sent) r h = elim (Option-cases r.rpc) [
  | inl n ↦ absurd (ground (arith, n, h))
  | inr (b, n) ↦ (rpc_result b, ground (arith, n), (b, n, refl))
]
checked-result (history_req channel o) r h = elim (Option-cases r.history) [
  | inl n ↦ absurd (ground (arith, n, h))
  | inr (x, n) ↦ (_, ground (arith, n), (x, n, refl))
]
checked-result (presence_req channel) r h = elim (Option-cases r.presence) [
  | inl n ↦ absurd (ground (arith, n, h))
  | inr (x, n) ↦ (_, ground (arith, n), (x, n, refl))
]
checked-result (presence_stats_req channel) r h = elim (Option-cases r.presence_stats) [
  | inl n ↦ absurd (ground (arith, n, h))
  | inr ((clients, users), n) ↦ (_, ground (arith, n), (clients, users, n, refl))
]
checked-result (publish_req channel b) r h = (_, refl, refl)
checked-result (send_req b) r h = (_, refl, refl)
checked-result pong_req r h = (_, refl, refl)
checked-result (connect_req token subs) r h = (_, refl, refl)
checked-result (subscribe_req q) r h = (_, refl, refl)
checked-result (unsubscribe_req channel) r h = (_, refl, refl)
checked-result (refresh_req token) r h = (_, refl, refl)
checked-result (sub_refresh_req channel token) r h = (_, refl, refl)

replied-IsLast :
    (call : Call) (r : Reply) (c : Client)
    → not (is_some r.error) && malformed_reply (reply_result_of call.request) r ≡ false
    → IsLast call r (finish_replied call r c)
unfolding finish_replied answer
replied-IsLast call r c h = elim (Option-cases r.error) [
  | inl n ↦
      let found = checked-result call.request r (ground (arith, n, h)) in
      (c.results, ok found.0, ground (arith, n, found.1), (n, found.2))
  | inr (e, n) ↦ (c.results, err (server_error e), ground (arith, n), inl (e, n, refl))
]

refused-IsLast :
    (call : Call) (r : Reply) (c : Client)
    → not (is_some r.error) && malformed_reply (reply_result_of call.request) r ≡ true
    → IsLast call r (finish_call call (some client_disconnected) c)
unfolding finish_call
refused-IsLast call r c h = elim (Option-cases r.error) [
  | inl n ↦ (c.results, err client_disconnected, refl, inr (n, ground (arith, n, h), refl))
  | inr (e, n) ↦ (c.results, err client_disconnected, refl, inr (ground (arith, n, h)))
]

reply-IsLast :
    (env : Env) (ctx : Context) (waits : Waits) (t id : ℕ) (r : Reply) (call : Call) (w : World)
    → lookup id w.client.requests ≡ some (pending_call call)
    → IsLast call r (handle_reply env ctx waits t id r w).client
unfolding handle_reply run_callback fail_callback pop_request
reply-IsLast env ctx waits t id r call w h =
    let w1 = record w { client = (pop_request id w.client).1 } in
    let w2 =
      move_to_disconnected_from env ctx (some t) disconnected_bad_protocol "malformed reply" w1 in
    let p = pending_call call in
    elim (Bool-cases (not (is_some r.error) && malformed_reply p.result r)) [
      | inl y ↦
          let ends : handle_reply env ctx waits t id r w
              ≡ in_client (finish_call call (some client_disconnected)) w2 =
            ground (arith, h, y) in
          subst (λ v. IsLast call r v.client) (sym ends) (refused-IsLast call r w2.client y)
      | inr n ↦
          let ends : handle_reply env ctx waits t id r w ≡ in_client (finish_replied call r) w1 =
            ground (arith, h, n) in
          subst (λ v. IsLast call r v.client) (sym ends) (replied-IsLast call r w1.client n)
    ]

timeout-results :
    (env : Env) (ctx : Context) (waits : Waits) (id : ℕ) (e : GoError) (call : Call) (w : World)
    → lookup id w.client.requests ≡ some (pending_call call)
    → ((request_timeout env ctx waits e id w).client.results
        ≡ w.client.results ++ ((call, err e) ∷ []))
      × ((request_timeout env ctx waits e id w).client.requests ≡ delete id w.client.requests)
unfolding request_timeout fail_callback pop_request finish_call
timeout-results env ctx waits id e call w h = ground (arith, h)

-- No request of a call stays open. When the reply to it comes, the result of the call is added last:
-- the error of the server, or a disconnect if the reply lacks what was asked for, or else what the
-- reply holds. When the timer of the request fires, its error is added to the results instead, and
-- the request is removed.
pub requests_are_answered :
    (env : Env) (ctx : Context) (waits : Waits) (t id : ℕ) (r : Reply) (e : GoError) (call : Call)
    (w : World)
    → lookup id w.client.requests ≡ some (pending_call call)
    → IsLast call r (handle_reply env ctx waits t id r w).client
      × ((request_timeout env ctx waits e id w).client.results
          ≡ w.client.results ++ ((call, err e) ∷ []))
      × ((request_timeout env ctx waits e id w).client.requests ≡ delete id w.client.requests)
requests_are_answered env ctx waits t id r e call w h =
    let fired = timeout-results env ctx waits id e call w h in
    (reply-IsLast env ctx waits t id r call w h, fired.0, fired.1)
