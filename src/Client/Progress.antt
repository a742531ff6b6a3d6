-- ===== src/Client/Progress.antt =====
-- What a client that is connecting waits for: connect attempts and their failures.
use centrifuge_go.Prelude.{
  u64, ◌+◌, ℕ, String, Bool, true, false, none, some, ◌≡◌, refl, subst, sym, is_empty, ◌⊎◌, arith,
  inl, inr, Option-cases, nat_key, if◌then◌else◌, ◌&&◌, ◌||◌, is_some,
}
use centrifuge_go.Codes.{disconnected_unauthorized}
use centrifuge_go.Errors.{
  GoError, Result, ok, err, server_error, transport_error, refresh_error, connect_error,
  is_unauthorized,
}
use centrifuge_go.Calls.{Context}
use centrifuge_go.Effects.{notify_sync, spawn}
use centrifuge_go.State.{connecting, Client, Env, is_armed, reader_task, connect_cb}
use centrifuge_go.World.{World, in_client}
use centrifuge_go.Client.{
  schedule_reconnect_locked, handle_error, is_current_attempt, move_to_disconnected_if,
  refresh_token, TokenStep, go_on, stop_here, begin_attempt, retry_if_current, token_refused,
  ConnectionTokenCall, connect_token, send_connect, transport_opened, close_transport, Attempt,
  dial, go_on_with, run_attempt, start_reconnecting_if, after_connect_error, connect_failed,
}
use centrifuge_go.Client.Consistency.{disconnect_now-IsTornDown}

-- The attempt is over, or a reconnect timer is armed.
unfoldable pub IsRetried : ℕ → Client → Type 0
IsRetried attempt c = (is_current_attempt attempt c ≡ false) ⊎ (is_armed c.reconnect_timer ≡ true)

-- Or the client has a transport, whose reader reports its end.
unfoldable pub GoesOn : ℕ → Client → Type 0
GoesOn attempt c = IsRetried attempt c ⊎ (is_some c.transport ≡ true)

retry_if_current-IsRetried :
    (env : Env) (attempt : ℕ) (w : World)
    → IsRetried attempt (retry_if_current env attempt w).client
unfolding IsRetried schedule_reconnect_locked
retry_if_current-IsRetried env attempt w = ground arith

-- A disconnect whose condition says no more than that the attempt is current.
disconnected-IsRetried :
    (env : Env) (ctx : Context) (current : Client → Bool) (attempt code : ℕ) (reason : String)
    (w : World)
    → (is_current_attempt attempt w.client ≡ false) ⊎ (current w.client ≡ true)
    → IsRetried attempt (move_to_disconnected_if env ctx current code reason w).0.client
unfolding IsRetried move_to_disconnected_if
disconnected-IsRetried env ctx current attempt code reason w h =
    ground (arith, h, (disconnect_now-IsTornDown env ctx code reason w).state)

abbrev refusable : ℕ → Bool → Client → Bool
refusable attempt had c = is_current_attempt attempt c && (had || c.refresh_required)

-- A token step that stops leaves the attempt over or retried.
Stops : ℕ → TokenStep → Type 0
Stops attempt (go_on w) = true ≡ true
Stops attempt (stop_here w) = IsRetried attempt w.client

Stops-if :
    (attempt : ℕ) (b : Bool) (x y : TokenStep)
    → (b ≡ true → Stops attempt x)
    → (b ≡ false → Stops attempt y)
    → Stops attempt (if b then x else y)
Stops-if attempt true x y p q = p refl
Stops-if attempt false x y p q = q refl

-- Why a refused token ends an attempt with `GetToken`: what disconnects has no other condition.
refused-IsRetried :
    (env : Env) (ctx : Context) (attempt : ℕ) (had : Bool) (w : World)
    → (move_to_disconnected_if env ctx
          (refusable attempt had)
          disconnected_unauthorized
          "unauthorized"
          w).1
        || had
      ≡ true
    → IsRetried attempt
        (move_to_disconnected_if env ctx
          (refusable attempt had)
          disconnected_unauthorized
          "unauthorized"
          w).0.client
unfolding IsRetried move_to_disconnected_if
refused-IsRetried env ctx attempt had w h =
    ground (
      arith,
      h,
      (disconnect_now-IsTornDown env ctx disconnected_unauthorized "unauthorized" w).state,
    )

token_refused-Stops :
    (env : Env) (ctx : Context) (handled : World → World) (attempt : ℕ) (had : Bool) (e : GoError)
    (w : World)
    → Stops attempt (token_refused env ctx handled attempt had e w)
unfolding Stops token_refused
token_refused-Stops env ctx handled attempt had e w =
    let moved =
      move_to_disconnected_if env ctx (refusable attempt had) disconnected_unauthorized
        "unauthorized" w in
    let w2 = handled (in_client (handle_error (refresh_error e)) w) in
    Stops-if attempt (is_unauthorized e)
      (if moved.1 || had then stop_here moved.0 else go_on moved.0)
      (stop_here (retry_if_current env attempt w2))
      (λ y.
        Stops-if attempt (moved.1 || had) (stop_here moved.0) (go_on moved.0)
          (refused-IsRetried env ctx attempt had w) (λ n. refl))
      (λ n. retry_if_current-IsRetried env attempt w2)

answered-Stops :
    (env : Env) (ctx : Context) (handled : World → World) (attempt : ℕ) (had : Bool)
    (reply : Result String) (w : World)
    → Stops attempt (elim reply as (λ x. TokenStep) [
      | err e ↦ token_refused env ctx handled attempt had e w
      | ok token ↦
          if is_current_attempt attempt w.client
          then go_on (record w { client = record (w.client) { token = token } })
          else stop_here w
    ])
unfolding Stops IsRetried
answered-Stops env ctx handled attempt had (err e) w =
    token_refused-Stops env ctx handled attempt had e w
answered-Stops env ctx handled attempt had (ok token) w =
    Stops-if attempt (is_current_attempt attempt w.client)
      (go_on (record w { client = record (w.client) { token = token } })) (stop_here w) (λ y. refl)
      (λ n. inl n)

connect_token-Stops :
    (env : Env) (ctx : Context) (call : ConnectionTokenCall) (attempt : ℕ) (w : World)
    → Stops attempt (connect_token env ctx call attempt w)
unfolding connect_token Stops
connect_token-Stops env ctx call attempt w =
    let c = w.client in
    let (w1, reply) = refresh_token call w in
    Stops-if attempt (c.refresh_required || (is_empty c.token && c.has_get_token)) _ (go_on w)
      (λ y. answered-Stops env ctx call.handled attempt c.has_get_token reply w1) (λ n. refl)

transport_opened-GoesOn :
    (env : Env) (attempt t : ℕ) (c : Client) → GoesOn attempt (transport_opened env attempt t c).0
unfolding transport_opened schedule_reconnect_locked GoesOn IsRetried
transport_opened-GoesOn env attempt t c =
    let c1 = spawn (reader_task t) (record c { refresh_required = false }) in
    elim (Option-cases (send_connect env t (connect_cb t attempt c.token) c1).1) [
      | inl n ↦ ground (arith, n)
      | inr (e, n) ↦ ground (arith, n)
    ]

dial-GoesOn :
    (env : Env) (a : Attempt) (attempt : ℕ) (dialed : Result ℕ) (w : World)
    → GoesOn attempt (dial env a attempt dialed w).client
unfolding dial handle_error notify_sync GoesOn IsRetried
dial-GoesOn env a attempt (err e) w = inl (
    retry_if_current-IsRetried env attempt
      (a.handled (in_client (handle_error (transport_error e)) w)))
dial-GoesOn env a attempt (ok t) w =
    let opened = transport_opened-GoesOn env attempt t w.client in
    elim (Option-cases (transport_opened env attempt t w.client).1) [
      | inl n ↦ ground (arith, n, opened)
      | inr (e, n) ↦ ground (arith, n, opened)
    ]

go_on_with-GoesOn :
    (env : Env) (a : Attempt) (attempt : ℕ) (step : TokenStep) (w : World)
    → Stops attempt step
    → GoesOn attempt (go_on_with env a attempt step w).client
unfolding go_on_with Stops GoesOn
go_on_with-GoesOn env a attempt (stop_here w1) w h = inl h
go_on_with-GoesOn env a attempt (go_on w1) w h = dial-GoesOn env a attempt a.dialed (a.dialing w1)

after_connect_error-IsRetried :
    (env : Env) (ctx : Context) (attempt : ℕ) (token : String) (e : GoError) (w : World)
    → IsRetried attempt (after_connect_error env ctx attempt token e w).client
unfolding after_connect_error schedule_reconnect_locked IsRetried
after_connect_error-IsRetried env ctx attempt token (server_error se) w = ground (
  arith,
  disconnected-IsRetried env ctx (is_current_attempt attempt) attempt se.code se.message w,
  retry_if_current-IsRetried env attempt w,
)
after_connect_error-IsRetried env ctx attempt token _ w = retry_if_current-IsRetried env attempt w

closed-IsRetried :
    (attempt t : ℕ) (w : World)
    → is_current_attempt attempt w.client ≡ false
    → IsRetried attempt (close_transport t w.client)
unfolding IsRetried
closed-IsRetried attempt t w h = inl h

-- The number of an attempt that begins is the current one.
run_attempt-GoesOn :
    (env : Env) (ctx : Context) (a : Attempt) (attempt : ℕ) (c : Client) (w : World)
    → GoesOn attempt (run_attempt env ctx a (some attempt, c) w).client
unfolding run_attempt
run_attempt-GoesOn env ctx a attempt c w =
    let w1 = record w { client = c } in
    go_on_with-GoesOn env a attempt (connect_token env ctx a.token_call attempt w1) w1
      (connect_token-Stops env ctx a.token_call attempt w1)

started-GoesOn :
    (env : Env) (ctx : Context) (a : Attempt) (current : Client → Bool) (attempt : ℕ) (w : World)
    → (begin_attempt current w.client).0 ≡ some attempt
    → GoesOn attempt (start_reconnecting_if env ctx a current w).client
unfolding start_reconnecting_if
started-GoesOn env ctx a current attempt w h =
    subst
      (λ o. GoesOn attempt (run_attempt env ctx a (o, (begin_attempt current w.client).1) w).client)
      (sym h) (run_attempt-GoesOn env ctx a attempt (begin_attempt current w.client).1 w)

failed-IsRetried :
    (env : Env) (ctx : Context) (handled closing : World → World) (t attempt : ℕ) (token : String)
    (e : GoError) (w : World)
    → IsRetried attempt (connect_failed env ctx handled closing t attempt token e w).client
unfolding connect_failed
failed-IsRetried env ctx handled closing t attempt token e w =
    let w1 = handled (in_client (handle_error (connect_error e)) w) in
    let w2 = record w1 { client = close_transport t (record (w1.client) { transport = none }) } in
    ground (
      arith,
      closed-IsRetried attempt t w,
      closed-IsRetried attempt t w1,
      after_connect_error-IsRetried env ctx attempt token e (closing w2),
    )

begin_attempt-starts :
    (current : Client → Bool) (c : Client)
    → c.state ≡ connecting
    → current c ≡ true
    → (begin_attempt current c).0 ≡ some (u64 (c.connect_attempt + 1))
unfolding begin_attempt
begin_attempt-starts current c h k = ground (arith, h, k)

-- A connecting client is never left without a connect attempt to wait for. `startReconnectingIf`
-- begins the next attempt while its condition holds, and when that stops, for want of a token, at a
-- failed dial, at a connect command that could not be written, or with a transport, then the client
-- is not in this attempt any more, or a reconnect timer is armed, or the client holds a transport.
-- When the connect command of an attempt fails, the client is not in that attempt any more, or a
-- reconnect timer is armed. The handlers and what happens during the waits are arbitrary.
pub attempt-GoesOn :
    (env : Env) (ctx : Context) (a : Attempt) (current : Client → Bool) (attempt t : ℕ)
    (handled closing : World → World) (token : String) (e : GoError) (v w : World)
    → w.client.state ≡ connecting
    → current w.client ≡ true
    → ((begin_attempt current w.client).0 ≡ some (u64 (w.client.connect_attempt + 1)))
      × GoesOn
          (u64 (w.client.connect_attempt + 1))
          (start_reconnecting_if env ctx a current w).client
      × IsRetried attempt (connect_failed env ctx handled closing t attempt token e v).client
attempt-GoesOn env ctx a current attempt t handled closing token e v w h k =
    let n = begin_attempt-starts current w.client h k in
    (
      n,
      started-GoesOn env ctx a current (u64 (w.client.connect_attempt + 1)) w n,
      failed-IsRetried env ctx handled closing t attempt token e v,
    )
