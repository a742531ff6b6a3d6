-- ===== src/Client/Consistency/Runs.antt =====
-- The consistency of a client: runs of operations of it and its subscriptions.
use centrifuge_go.Prelude.{true, ◌≡◌, arith, nat_key}
use centrifuge_go.Codes.{disconnected_disconnect_called}
use centrifuge_go.Calls.{Context}
use centrifuge_go.State.{Env, stop, unsubscribed}
use centrifuge_go.Subscription.{run}
use centrifuge_go.World.{World, in_client}
use centrifuge_go.Client.Core.Runs.{OpKeeps, OpsKeep, run-KeepsClient, run_all-KeepsClient}
use centrifuge_go.Client.{
  ClientOp, ClientOps, Attempted, Waited, attempted, asked, waited, rest_now, then_next, step,
  steps, attempt_of, token_call_of, waits_of, connects, reconnect_timer_fires, disconnects,
  closes_client, sets_token, adds_subscription, removes_subscription, calls_client,
  client_call_times_out, transport_reports, token_timer_fires, frame_arrives, reply_arrives,
  request_times_out, callback_fails, delivers_server, subscription_runs, connect,
  start_reconnecting, reconnect_timer_fired, disconnect, close,
}
use centrifuge_go.Client.Consistency.{IsConsistent, KeepsConsistent, move_to_closed-IsConsistent}
use centrifuge_go.Client.Consistency.Connects.{
  KeepsAttempt, start_connecting-IsConsistent, start_reconnecting_if-IsConsistent,
}
use centrifuge_go.Client.Consistency.Reports.{
  move_to_disconnected-IsConsistent, handle_transport_disconnect-IsConsistent,
  send_refresh-IsConsistent,
}
use centrifuge_go.Client.Consistency.Replies.{
  IsConsistent-about, on_sub-IsConsistent, on_connect-IsConsistent, handle_unsolicited-IsConsistent,
}
use centrifuge_go.Client.Consistency.Callbacks.{
  KeepsWaits, fail_callback-IsConsistent, handle_reply-IsConsistent, request_timeout-IsConsistent,
}
use centrifuge_go.Client.Consistency.Futures.{
  connect_future_timeout-IsConsistent, deliver_server-IsConsistent, registry-IsConsistent,
}

-- What others do to the client while a subscription waits keeps it consistent.
abbrev mutual
  pub StepFits : ClientOp → Type 0
  StepFits (connects a m) = AttemptFits a × StepsFit m
  StepFits (reconnect_timer_fires a) = AttemptFits a
  StepFits (closes_client m) = StepsFit m
  StepFits (transport_reports t d m) = StepsFit m
  StepFits (token_timer_fires generation (asked m reply h)) = StepsFit m × StepsFit h
  StepFits (frame_arrives t p m) = StepsFit m
  StepFits (reply_arrives t id r k) = WaitsFit k
  StepFits (request_times_out e id k) = WaitsFit k
  StepFits (callback_fails cb e k) = WaitsFit k
  StepFits (delivers_server attempt channel ps m) = StepsFit m
  StepFits (subscription_runs a op) = OpKeeps IsConsistent op
  StepFits _ = true ≡ true

  pub AttemptFits : Attempted → Type 0
  AttemptFits (attempted m reply refused dialing dialed h) =
      StepsFit m × StepsFit refused × StepsFit dialing × StepsFit h

  pub WaitsFit : Waited → Type 0
  WaitsFit (waited m ops closing) = StepsFit m × OpsKeep IsConsistent ops × StepsFit closing

  pub StepsFit : ClientOps → Type 0
  StepsFit rest_now = true ≡ true
  StepsFit (then_next ctx op ops) = StepFits op × StepsFit ops

disconnect-IsConsistent :
    (env : Env) (ctx : Context) → KeepsConsistent (λ w. (disconnect env ctx w).0)
unfolding disconnect
disconnect-IsConsistent env ctx w v = ground (
  arith,
  v,
  move_to_disconnected-IsConsistent env ctx disconnected_disconnect_called "disconnect called" w v,
)

close-IsConsistent :
    (env : Env) (ctx : Context) (meanwhile : World → World)
    → KeepsConsistent meanwhile
    → KeepsConsistent (close env ctx meanwhile)
unfolding close
close-IsConsistent env ctx meanwhile k w v =
    ground (arith, v, move_to_closed-IsConsistent env ctx meanwhile k w v)

mutual
  unfolding step connect start_reconnecting reconnect_timer_fired

  keeps_step :
      (env : Env) (ctx : Context) (op : ClientOp) → StepFits op → KeepsConsistent (step env ctx op)
  keeps_step env ctx (connects a m) q w v =
      start_connecting-IsConsistent env ctx (attempt_of env a) (steps env m)
        (keeps_attempt env a q.0) (keeps_steps env m q.1) w v
  keeps_step env ctx (reconnect_timer_fires a) q w v =
      start_reconnecting_if-IsConsistent env ctx (attempt_of env a) (λ c. true)
        (keeps_attempt env a q)
        (in_client (λ c. record c { reconnect_timer = stop c.reconnect_timer }) w)
        (ground (arith, v))
  keeps_step env ctx disconnects q w v = disconnect-IsConsistent env ctx w v
  keeps_step env ctx (closes_client m) q w v =
      close-IsConsistent env ctx (steps env m) (keeps_steps env m q) w v
  keeps_step env ctx (sets_token token) q w v =
      (registry-IsConsistent "" token true 0 unsubscribed w.client v).2
  keeps_step env ctx (adds_subscription channel conflict a) q w v =
      (registry-IsConsistent channel "" conflict a unsubscribed w.client v).0
  keeps_step env ctx (removes_subscription channel a) q w v =
      (registry-IsConsistent channel "" true a (w.heap a).state w.client v).1
  keeps_step env ctx (calls_client call) q w v = on_connect-IsConsistent env ctx call w.client v
  keeps_step env ctx (client_call_times_out id) q w v =
      connect_future_timeout-IsConsistent env ctx id w.client v
  keeps_step env ctx (transport_reports t d m) q w v =
      handle_transport_disconnect-IsConsistent env ctx (steps env m) t d (keeps_steps env m q) w v
  keeps_step env ctx (token_timer_fires generation (asked m reply h)) q w v =
      send_refresh-IsConsistent env ctx (token_call_of env (asked m reply h)) generation
        (keeps_steps env m q.0) (keeps_steps env h q.1) w v
  keeps_step env ctx (frame_arrives t p m) q w v =
      handle_unsolicited-IsConsistent env ctx (steps env m) t p (keeps_steps env m q) w v
  keeps_step env ctx (reply_arrives t id r k) q w v =
      handle_reply-IsConsistent env ctx (waits_of env k) t id r (keeps_waits env k q) w v
  keeps_step env ctx (request_times_out e id k) q w v =
      request_timeout-IsConsistent env ctx (waits_of env k) e id (keeps_waits env k q) w v
  keeps_step env ctx (callback_fails cb e k) q w v =
      fail_callback-IsConsistent env ctx (waits_of env k) cb e (keeps_waits env k q) w v
  keeps_step env ctx (delivers_server attempt channel ps m) q w v =
      deliver_server-IsConsistent (λ p. steps env m) attempt channel ps (λ p. keeps_steps env m q) w
        v
  keeps_step env ctx (subscription_runs a op) q w v =
      on_sub-IsConsistent a (run env op) (run-KeepsClient IsConsistent IsConsistent-about env op q)
        w v

  keeps_attempt : (env : Env) (a : Attempted) → AttemptFits a → KeepsAttempt (attempt_of env a)
  keeps_attempt env (attempted m reply refused dialing dialed h) (qm, qr, qd, qh) = record {
    asks = keeps_steps env m qm;
    refused = keeps_steps env refused qr;
    dials = keeps_steps env dialing qd;
    reports = keeps_steps env h qh;
  }

  keeps_waits : (env : Env) (k : Waited) → WaitsFit k → KeepsWaits (waits_of env k)
  keeps_waits env (waited m ops closing) (qm, qo, qc) = record {
    handlers = keeps_steps env m qm;
    frames = run_all-KeepsClient IsConsistent IsConsistent-about env ops qo;
    closes = keeps_steps env closing qc;
  }

  keeps_steps : (env : Env) (ops : ClientOps) → StepsFit ops → KeepsConsistent (steps env ops)
  keeps_steps env rest_now q w v = v
  keeps_steps env (then_next ctx op ops) q w v =
      keeps_steps env ops q.1 (step env ctx op w) (keeps_step env ctx op q.0 w v)

-- Whatever the application, the server, the timers and the goroutines do to a client and its
-- subscriptions, in whatever order and however nested in the waits of each other, the client stays
-- consistent: its atomic mirror agrees with its state, its token refresh is armed only while it is
-- connected, it holds a transport only while connecting or connected, and calls wait only while it
-- is connecting. What is done to the client outside of these operations, while a subscription
-- waits, keeps it consistent.
pub steps-IsConsistent :
    (env : Env) (ops : ClientOps) (w : World)
    → StepsFit ops
    → IsConsistent w.client
    → IsConsistent (steps env ops w).client
steps-IsConsistent env ops w q v = keeps_steps env ops q w v
