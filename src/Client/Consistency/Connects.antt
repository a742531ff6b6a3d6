-- ===== src/Client/Consistency/Connects.antt =====
-- The whole of a connect attempt, and a failed connect.
use centrifuge_go.Prelude.{
  ℕ, String, Bool, true, false, Option, none, some, ◌≡◌, refl, ◌⊎◌, arith, inl, inr, nat_key, ◌==◌,
}
use centrifuge_go.Codes.{connecting_connect_called}
use centrifuge_go.Errors.{GoError, server_error, connect_error}
use centrifuge_go.Calls.{Context}
use centrifuge_go.Effects.{notify}
use centrifuge_go.State.{
  Client, Env, Event, State, connecting, connected, disconnected, closed, is_disconnected,
  on_connecting,
}
use centrifuge_go.World.{World, in_client}
use centrifuge_go.Client.{
  set_state_locked, schedule_reconnect_locked, handle_error, is_current_attempt, TokenStep, go_on,
  stop_here, begin_attempt, connect_token, close_transport, Attempt, go_on_with, run_attempt,
  start_reconnecting_if, start_connecting, after_connect_error, connect_failed,
}
use centrifuge_go.Client.Consistency.{
  IsConsistent, KeepsConsistent, move_to_disconnected_if-IsConsistent,
}
use centrifuge_go.Client.Consistency.Attempts.{
  reached_world, connect_token-IsConsistent, dial-IsConsistent, begin_attempt-IsConsistent,
  handle_error-IsConsistent, retry_if_current-IsConsistent,
}

-- What happens outside during an attempt keeps a client consistent.
pub record KeepsAttempt (a : Attempt) : Type 0 where
  pub asks : KeepsConsistent a.token_call.meanwhile
  pub refused : KeepsConsistent a.token_call.handled
  pub dials : KeepsConsistent a.dialing
  pub reports : KeepsConsistent a.handled

go_on_with-IsConsistent :
    (env : Env) (a : Attempt) (attempt : ℕ) (step : TokenStep) (w : World)
    → KeepsAttempt a
    → IsConsistent (reached_world step).client
    → IsConsistent (go_on_with env a attempt step w).client
unfolding go_on_with
go_on_with-IsConsistent env a attempt (stop_here w1) w k v = v
go_on_with-IsConsistent env a attempt (go_on w1) w k v =
    dial-IsConsistent env a attempt a.dialed k.reports (a.dialing w1) (k.dials w1 v)

run_attempt-IsConsistent :
    (env : Env) (ctx : Context) (a : Attempt) (begun : Option ℕ × Client) (w : World)
    → KeepsAttempt a
    → IsConsistent begun.1
    → IsConsistent (run_attempt env ctx a begun w).client
unfolding run_attempt
run_attempt-IsConsistent env ctx a (none, c) w k v = v
run_attempt-IsConsistent env ctx a (some attempt, c) w k v =
    let w1 = record w { client = c } in
    go_on_with-IsConsistent env a attempt (connect_token env ctx a.token_call attempt w1) w1 k
      (connect_token-IsConsistent env ctx a.token_call attempt k.asks k.refused w1 v)

pub start_reconnecting_if-IsConsistent :
    (env : Env) (ctx : Context) (a : Attempt) (current : Client → Bool)
    → KeepsAttempt a
    → KeepsConsistent (start_reconnecting_if env ctx a current)
unfolding start_reconnecting_if
start_reconnecting_if-IsConsistent env ctx a current k w v =
    run_attempt-IsConsistent env ctx a (begin_attempt current w.client) w k
      (begin_attempt-IsConsistent current w.client v)

State-cases : (s : State) → (s ≡ disconnected) ⊎ (is_disconnected s ≡ false)
State-cases disconnected = inl refl
State-cases connecting = inr refl
State-cases connected = inr refl
State-cases closed = inr refl

started-IsConsistent :
    (set : Bool) (e : Event) (c : Client)
    → c.state ≡ disconnected
    → IsConsistent c
    → IsConsistent (notify set e (set_state_locked connecting (record c { close_ch_open = true })))
unfolding set_state_locked notify
started-IsConsistent set e c s v = ground (arith, s, v)

pub start_connecting-IsConsistent :
    (env : Env) (ctx : Context) (a : Attempt) (meanwhile : World → World)
    → KeepsAttempt a
    → KeepsConsistent meanwhile
    → KeepsConsistent (λ w. (start_connecting env ctx a meanwhile w).0)
unfolding start_connecting set_state_locked notify
start_connecting-IsConsistent env ctx a meanwhile k m w v =
    let c = w.client in
    let c1 = set_state_locked connecting (record c { close_ch_open = true }) in
    let e = on_connecting connecting_connect_called "connect called" in
    let w2 = record w { client = notify c.handlers.on_connecting e c1 } in
    let same = λ (d : Client). d.connect_attempt == c.connect_attempt in
    elim (State-cases c.state) [
      | inl s ↦ ground (
        arith,
        v,
        s,
        start_reconnecting_if-IsConsistent env ctx a same k (meanwhile w2)
            (m w2 (started-IsConsistent c.handlers.on_connecting e c s v)),
      )
      | inr s ↦ ground (arith, v, s)
    ]

after_connect_error-IsConsistent :
    (env : Env) (ctx : Context) (attempt : ℕ) (token : String) (e : GoError)
    → KeepsConsistent (after_connect_error env ctx attempt token e)
unfolding after_connect_error schedule_reconnect_locked
after_connect_error-IsConsistent env ctx attempt token (server_error se) w v = ground (
  arith,
  v,
  move_to_disconnected_if-IsConsistent env ctx (is_current_attempt attempt) se.code se.message w v,
  retry_if_current-IsConsistent env attempt w v,
)
after_connect_error-IsConsistent env ctx attempt token _ w v =
    retry_if_current-IsConsistent env attempt w v

pub connect_failed-IsConsistent :
    (env : Env) (ctx : Context) (handled closing : World → World) (t attempt : ℕ) (token : String)
    (e : GoError)
    → KeepsConsistent handled
    → KeepsConsistent closing
    → KeepsConsistent (connect_failed env ctx handled closing t attempt token e)
unfolding connect_failed
connect_failed-IsConsistent env ctx handled closing t attempt token e h k w v =
    let w0 = in_client (handle_error (connect_error e)) w in
    let w1 = handled w0 in
    let v1 = h w0 (handle_error-IsConsistent (connect_error e) w.client v) in
    let w2 = record w1 { client = close_transport t (record (w1.client) { transport = none }) } in
    let v2 : IsConsistent w2.client = ground (arith, v1) in
    ground (
      arith,
      v,
      v1,
      after_connect_error-IsConsistent env ctx attempt token e (closing w2) (k w2 v2),
    )
