-- ===== src/Client/Closed/Runs.antt =====
-- Runs of operations of a closed client and its subscriptions.
use centrifuge_go.Prelude.{true, ◌≡◌, arith, nat_key, none, [], false}
use centrifuge_go.Calls.{Context}
use centrifuge_go.State.{Env, closed, unsubscribed}
use centrifuge_go.Subscription.{run}
use centrifuge_go.World.{World}
use centrifuge_go.Client.Core.Runs.{OpKeeps, OpsKeep, run-KeepsClient, run_all-KeepsClient}
use centrifuge_go.Client.{
  ClientOp, ClientOps, Waited, waited, rest_now, then_next, step, steps, attempt_of, token_call_of,
  waits_of, connects, reconnect_timer_fires, disconnects, closes_client, sets_token,
  adds_subscription, removes_subscription, calls_client, client_call_times_out, transport_reports,
  token_timer_fires, frame_arrives, reply_arrives, request_times_out, callback_fails,
  delivers_server, subscription_runs, connect, start_reconnecting,
}
use centrifuge_go.Client.Consistency.{IsConsistent}
use centrifuge_go.Client.Consistency.Runs.{StepsFit, steps-IsConsistent}
use centrifuge_go.Client.Closed.{
  IsClosed, IsClosed-about, KeepsClosed, KeepsWaitsClosed, connect-IsClosed,
  reconnect_timer_fired-IsClosed, disconnect-IsClosed, close-IsClosed,
  handle_transport_disconnect-IsClosed, send_refresh-IsClosed, handle_unsolicited-IsClosed,
  on_connect-IsClosed,
}
use centrifuge_go.Client.Closed.Callbacks.{
  fail_callback-IsClosed, handle_reply-IsClosed, request_timeout-IsClosed,
  connect_future_timeout-IsClosed, deliver_server-IsClosed, registry-IsClosed, on_sub-IsClosed,
}

-- What others do to a closed client while a subscription waits leaves it closed. A connect, a
-- reconnect and a token refresh do not get as far as a wait.
abbrev mutual
  pub StepLeaves : ClientOp → Type 0
  StepLeaves (reply_arrives t id r k) = WaitLeaves k
  StepLeaves (request_times_out e id k) = WaitLeaves k
  StepLeaves (callback_fails cb e k) = WaitLeaves k
  StepLeaves (delivers_server attempt channel ps m) = StepsLeave m
  StepLeaves (subscription_runs a op) = OpKeeps IsClosed op
  StepLeaves _ = true ≡ true

  pub WaitLeaves : Waited → Type 0
  WaitLeaves (waited m ops closing) = StepsLeave m × OpsKeep IsClosed ops

  pub StepsLeave : ClientOps → Type 0
  StepsLeave rest_now = true ≡ true
  StepsLeave (then_next ctx op ops) = StepLeaves op × StepsLeave ops

mutual
  unfolding step connect start_reconnecting

  keeps_step :
      (env : Env) (ctx : Context) (op : ClientOp) → StepLeaves op → KeepsClosed (step env ctx op)
  keeps_step env ctx (connects a m) q w v =
      connect-IsClosed env ctx (attempt_of env a) (steps env m) w v
  keeps_step env ctx (reconnect_timer_fires a) q w v =
      reconnect_timer_fired-IsClosed env ctx (attempt_of env a) w v
  keeps_step env ctx disconnects q w v = disconnect-IsClosed env ctx w v
  keeps_step env ctx (closes_client m) q w v = close-IsClosed env ctx (steps env m) w v
  keeps_step env ctx (sets_token token) q w v =
      (registry-IsClosed "" token true 0 unsubscribed w.client v).2
  keeps_step env ctx (adds_subscription channel conflict a) q w v =
      (registry-IsClosed channel "" conflict a unsubscribed w.client v).0
  keeps_step env ctx (removes_subscription channel a) q w v =
      (registry-IsClosed channel "" true a (w.heap a).state w.client v).1
  keeps_step env ctx (calls_client call) q w v = on_connect-IsClosed env ctx call w.client v
  keeps_step env ctx (client_call_times_out id) q w v =
      connect_future_timeout-IsClosed env ctx id w.client v
  keeps_step env ctx (transport_reports t d m) q w v =
      handle_transport_disconnect-IsClosed env ctx (steps env m) t d w v
  keeps_step env ctx (token_timer_fires generation k) q w v =
      send_refresh-IsClosed env ctx (token_call_of env k) generation w v
  keeps_step env ctx (frame_arrives t p m) q w v =
      handle_unsolicited-IsClosed env ctx (steps env m) t p w v
  keeps_step env ctx (reply_arrives t id r k) q w v =
      handle_reply-IsClosed env ctx (waits_of env k) t id r (keeps_waits env k q) w v
  keeps_step env ctx (request_times_out e id k) q w v =
      request_timeout-IsClosed env ctx (waits_of env k) e id (keeps_waits env k q) w v
  keeps_step env ctx (callback_fails cb e k) q w v =
      fail_callback-IsClosed env ctx (waits_of env k) cb e (keeps_waits env k q) w v
  keeps_step env ctx (delivers_server attempt channel ps m) q w v =
      deliver_server-IsClosed (λ p. steps env m) attempt channel ps (λ p. keeps_steps env m q) w v
  keeps_step env ctx (subscription_runs a op) q w v =
      on_sub-IsClosed a (run env op) (run-KeepsClient IsClosed IsClosed-about env op q) w v

  keeps_waits : (env : Env) (k : Waited) → WaitLeaves k → KeepsWaitsClosed (waits_of env k)
  keeps_waits env (waited m ops closing) (qm, qo) = record {
    handlers = keeps_steps env m qm;
    frames = run_all-KeepsClient IsClosed IsClosed-about env ops qo;
  }

  keeps_steps : (env : Env) (ops : ClientOps) → StepsLeave ops → KeepsClosed (steps env ops)
  keeps_steps env rest_now q w v = v
  keeps_steps env (then_next ctx op ops) q w v =
      keeps_steps env ops q.1 (step env ctx op w) (keeps_step env ctx op q.0 w v)

-- Close is final. Whatever is done to a closed client and its subscriptions, in whatever order and
-- however nested, the client stays closed; a consistent one has no transport, no token refresh and no
-- waiting call then, and its atomic mirror says that it is not connected. What is done to the client
-- outside of the operations, while a subscription waits, keeps it closed and consistent.
pub closed_is_final :
    (env : Env) (ops : ClientOps) (w : World)
    → StepsLeave ops
    → StepsFit ops
    → IsConsistent w.client
    → w.client.state ≡ closed
    → ((steps env ops w).client.state ≡ closed)
      × ((steps env ops w).client.transport ≡ none)
      × ((steps env ops w).client.refresh_timer ≡ none)
      × ((steps env ops w).client.connect_futures ≡ [])
      × ((steps env ops w).client.connected ≡ false)
closed_is_final env ops w q fits v c =
    ground (arith, keeps_steps env ops q w c, steps-IsConsistent env ops w fits v)
