-- ===== src/Client/Operations.antt =====
-- Every way in which a client and its subscriptions change: the calls of the application, the frames
-- of the server, the timers, and the goroutines. What happens while an operation waits is itself a
-- list of operations, so that a run is an interleaving.
use centrifuge_go.Prelude.{ℕ, String, Bool, List, Option}
use centrifuge_go.Errors.{GoError, Result}
use centrifuge_go.Protocol.{WirePublication}
use centrifuge_go.Calls.{Context, on_connect, connect_future_timeout}
use centrifuge_go.State.{Env, Call, Callback, Disconnect}
use centrifuge_go.Subscription.{Op, Ops, run, run_all}
use centrifuge_go.World.{World, on_sub, in_client}
use centrifuge_go.Client.Teardown.{new_subscription, remove_subscription, set_token}
use centrifuge_go.Client.Transitions.{handle_transport_disconnect}
use centrifuge_go.Client.ServerSubs.{deliver_server}
use centrifuge_go.Client.Tokens.{ConnectionTokenCall, send_refresh}
use centrifuge_go.Client.Connect.{Attempt}
use centrifuge_go.Client.Dispatch.{Push, handle_unsolicited}
use centrifuge_go.Client.Replies.{Reply, Waits, handle_reply, request_timeout, fail_callback}
use centrifuge_go.Client.Api.{connect, reconnect_timer_fired, disconnect, close}

mutual
  pub data ClientOp : Type 0 where
    connects : Attempted → ClientOps → ClientOp
    reconnect_timer_fires : Attempted → ClientOp
    disconnects : ClientOp
    closes_client : ClientOps → ClientOp
    sets_token : String → ClientOp
    adds_subscription : String → Bool → ℕ → ClientOp
    removes_subscription : String → ℕ → ClientOp
    calls_client : Call → ClientOp
    client_call_times_out : ℕ → ClientOp
    transport_reports : Option ℕ → Option Disconnect → ClientOps → ClientOp
    token_timer_fires : ℕ → Asked → ClientOp
    frame_arrives : ℕ → Option Push → ClientOps → ClientOp
    reply_arrives : ℕ → ℕ → Reply → Waited → ClientOp
    request_times_out : GoError → ℕ → Waited → ClientOp
    callback_fails : Callback → GoError → Waited → ClientOp
    delivers_server : ℕ → String → List WirePublication → ClientOps → ClientOp
    subscription_runs : ℕ → Op → ClientOp

  -- What is decided outside during an attempt: what happens in `GetToken`, its answer, what happens
  -- in OnError after it, during the dial, its result, and what happens in OnError then.
  pub data Attempted : Type 0 where
    attempted : ClientOps → Result String → ClientOps → ClientOps → Result ℕ → ClientOps → Attempted

  -- A call of `GetToken`: what happens while it runs, its answer, and what happens in OnError.
  pub data Asked : Type 0 where
    asked : ClientOps → Result String → ClientOps → Asked

  -- What happens during the waits of a callback: in the handlers of the client, in those of a
  -- subscription, and while a transport closes.
  pub data Waited : Type 0 where
    waited : ClientOps → Ops → ClientOps → Waited

  -- A row of operations, each with the contexts that are done by then.
  pub data ClientOps : Type 0 where
    rest_now : ClientOps
    then_next : Context → ClientOp → ClientOps → ClientOps

unfoldable mutual
  pub step : Env → Context → ClientOp → World → World
  step env ctx (connects a m) w = (connect env ctx (attempt_of env a) (steps env m) w).0
  step env ctx (reconnect_timer_fires a) w = reconnect_timer_fired env ctx (attempt_of env a) w
  step env ctx disconnects w = (disconnect env ctx w).0
  step env ctx (closes_client m) w = close env ctx (steps env m) w
  step env ctx (sets_token token) w = in_client (set_token token) w
  step env ctx (adds_subscription channel conflict a) w =
      in_client (λ c. (new_subscription channel conflict a c).0) w
  step env ctx (removes_subscription channel a) w =
      in_client (λ c. (remove_subscription channel a (w.heap a).state c).0) w
  step env ctx (calls_client call) w = in_client (on_connect env ctx call) w
  step env ctx (client_call_times_out id) w = in_client (connect_future_timeout env ctx id) w
  step env ctx (transport_reports t d m) w = handle_transport_disconnect env ctx (steps env m) t d w
  step env ctx (token_timer_fires generation k) w =
      send_refresh env ctx (token_call_of env k) generation w
  step env ctx (frame_arrives t p m) w = handle_unsolicited env ctx (steps env m) t p w
  step env ctx (reply_arrives t id r k) w = handle_reply env ctx (waits_of env k) t id r w
  step env ctx (request_times_out e id k) w = request_timeout env ctx (waits_of env k) e id w
  step env ctx (callback_fails cb e k) w = fail_callback env ctx (waits_of env k) cb e w
  step env ctx (delivers_server attempt channel ps m) w =
      deliver_server (λ p. steps env m) attempt channel ps w
  step env ctx (subscription_runs a op) w = on_sub a (run env op) w

  pub attempt_of : Env → Attempted → Attempt
  attempt_of env (attempted m reply refused dialing dialed h) = record {
    token_call = record { meanwhile = steps env m; reply = reply; handled = steps env refused };
    dialing = steps env dialing;
    dialed = dialed;
    handled = steps env h;
  }

  pub token_call_of : Env → Asked → ConnectionTokenCall
  token_call_of env (asked m reply h) = record {
    meanwhile = steps env m;
    reply = reply;
    handled = steps env h;
  }

  pub waits_of : Env → Waited → Waits
  waits_of env (waited m ops closing) = record {
    meanwhile = steps env m;
    in_frame = run_all env ops;
    closing = steps env closing;
  }

  pub steps : Env → ClientOps → World → World
  steps env rest_now w = w
  steps env (then_next ctx op ops) w = steps env ops (step env ctx op w)
