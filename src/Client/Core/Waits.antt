-- ===== src/Client/Core/Waits.antt =====
-- The methods of a subscription that wait, and what depends on the core of its client only.
use centrifuge_go.Prelude.{ℕ, String, true, false, List, [], ◌∷◌, none, arith, nat_key}
use centrifuge_go.Codes.{unsubscribed_unauthorized}
use centrifuge_go.Errors.{
  GoError, Result, ok, err, as_server_error, subscribe_error, get_state_error,
  subscription_unsubscribed,
}
use centrifuge_go.Calls.{Context, on_connect}
use centrifuge_go.Protocol.{StreamPosition, WirePublication, Publication, SubscribeResult}
use centrifuge_go.Effects.{spawn}
use centrifuge_go.State.{Task, disconnect_task, Client, Env, Call, Frame}
use centrifuge_go.Subscription.{
  TokenCall, StateCall, subscribe_failed, token_received, continue_async, get_state_failed,
  state_received, get_state_and_resubscribe, lock_current_attempt, lock_current_subscribe,
  emit_error, schedule_resubscribe, set_inflight, no_conn_generation, subscribe_replied, deliver,
  adopt_position, resubscribe, send_current, move_to_unsubscribed_locked, move_to_subscribed,
  subscribe_timed_out, finish_subscribe_error,
}
use centrifuge_go.Client.Core.{
  SameCore, SparesCore, resubscribe-SparesCore, send_current-SparesCore,
}
use centrifuge_go.Client.Core.Frames.{
  lock_current_attempt-SparesCore, lock_current_subscribe-SparesCore, emit_error-SparesCore,
  finish_subscribe_error-SparesCore, move_to_unsubscribed_locked-SparesCore,
  move_to_subscribed-SparesCore,
}

-- A method of a subscription that keeps what `P` says of the client.
abbrev pub KeepsClient : (Client → Type 0) → (Frame → Frame) → Type 0
KeepsClient P op = (f : Frame) → P f.client → P (op f).client

-- `P` depends on the core only, and a call that waits for the connection keeps it.
pub record IsAboutCore (P : Client → Type 0) : Type 0 where
  pub same : (c d : Client) → SameCore c d → P d → P c
  pub calls :
      (env : Env) (ctx : Context) (call : Call) (c : Client) → P c → P (on_connect env ctx call c)

module _ (P : Client → Type 0) (about : IsAboutCore P) where
  pub SparesCore-KeepsClient : (op : Frame → Frame) → SparesCore op → KeepsClient P op
  SparesCore-KeepsClient op spares f v = about.same (op f).client f.client (spares f) v

  spawn-keeps : (t : Task) (c : Client) → P c → P (spawn t c)
  unfolding spawn
  spawn-keeps t c v = about.same (spawn t c) c (ground arith) v

  lock-keeps :
      (env : Env) (attempt generation : ℕ)
      → KeepsClient P (λ f. (lock_current_subscribe env attempt generation f).1)
  lock-keeps env attempt generation =
      SparesCore-KeepsClient (λ f. (lock_current_subscribe env attempt generation f).1)
        (lock_current_subscribe-SparesCore env attempt generation)

  pub emit_error-keeps : (e : GoError) → KeepsClient P (emit_error e)
  emit_error-keeps e = SparesCore-KeepsClient (emit_error e) (emit_error-SparesCore e)

  subscribe_failed-KeepsClient :
      (env : Env) (handled : Frame → Frame) (e : GoError) (attempt generation : ℕ)
      → KeepsClient P handled
      → KeepsClient P (subscribe_failed env handled e attempt generation)
  unfolding subscribe_failed schedule_resubscribe
  subscribe_failed-KeepsClient env handled e attempt generation k f v =
      let f1 = (lock_current_subscribe env attempt generation f).1 in
      let v1 : P f1.client = lock-keeps env attempt generation f v in
      let f2 = (lock_current_subscribe env attempt generation f1).1 in
      let v2 : P f2.client = lock-keeps env attempt generation f1 v1 in
      let g = emit_error (subscribe_error e) f1 in
      let f3 = (lock_current_subscribe env attempt generation (handled g)).1 in
      let v3 : P f3.client =
        lock-keeps env attempt generation (handled g)
          (k g (emit_error-keeps (subscribe_error e) f1 v1)) in
      let v4 : P (finish_subscribe_error env e (as_server_error e) f3).client =
        SparesCore-KeepsClient (finish_subscribe_error env e (as_server_error e))
          (finish_subscribe_error-SparesCore env e (as_server_error e)) f3 v3 in
      ground
        (arith, v1, v2, v3, v4, spawn-keeps (disconnect_task none subscribe_timed_out) f1.client v1)

  unsubscribed-keeps :
      (code : ℕ) (reason : String) (e : GoError)
      → KeepsClient P (move_to_unsubscribed_locked code reason e)
  unsubscribed-keeps code reason e =
      SparesCore-KeepsClient (move_to_unsubscribed_locked code reason e)
        (move_to_unsubscribed_locked-SparesCore code reason e)

  resubscribe-keeps : (env : Env) → KeepsClient P (resubscribe env)
  resubscribe-keeps env = SparesCore-KeepsClient (resubscribe env) (resubscribe-SparesCore env)

  send_current-keeps :
      (env : Env) (token : String) (attempt invalidations : ℕ)
      → KeepsClient P (send_current env token attempt invalidations)
  send_current-keeps env token attempt invalidations =
      SparesCore-KeepsClient (send_current env token attempt invalidations)
        (send_current-SparesCore env token attempt invalidations)

  token_received-KeepsClient :
      (env : Env) (handled : Frame → Frame) (reply : Result String) (attempt invalidations : ℕ)
      → KeepsClient P handled
      → KeepsClient P (token_received env handled reply attempt invalidations)
  unfolding token_received
  token_received-KeepsClient env handled (err e) attempt invalidations k f v = ground (
    arith,
    v,
    resubscribe-keeps env (set_inflight false f) v,
    subscribe_failed-KeepsClient env handled e attempt no_conn_generation k (set_inflight false f)
        v,
    unsubscribed-keeps unsubscribed_unauthorized "unauthorized" subscription_unsubscribed
        (set_inflight false f) v,
  )
  token_received-KeepsClient env handled (ok token) attempt invalidations k f v = ground (
    arith,
    v,
    resubscribe-keeps env (set_inflight false f) v,
    unsubscribed-keeps unsubscribed_unauthorized "unauthorized" subscription_unsubscribed
        (set_inflight false f) v,
    send_current-keeps env token attempt invalidations
        (record f { sub = record (f.sub) { token = token } }) v,
  )

  pub continue_async-KeepsClient :
      (env : Env) (call : TokenCall)
      → KeepsClient P call.meanwhile
      → KeepsClient P call.handled
      → KeepsClient P (continue_async env call)
  unfolding continue_async
  continue_async-KeepsClient env call m h f v =
      let s = f.sub in
      ground (
        arith,
        token_received-KeepsClient env call.handled call.reply s.subscribe_attempt s.invalidations h
            (call.meanwhile f) (m f v),
        send_current-keeps env s.token s.subscribe_attempt s.invalidations f v,
      )

  get_state_failed-KeepsClient :
      (env : Env) (handled : Frame → Frame) (e : GoError) (attempt : ℕ)
      → KeepsClient P handled
      → KeepsClient P (get_state_failed env handled e attempt)
  unfolding get_state_failed schedule_resubscribe
  get_state_failed-KeepsClient env handled e attempt k f v =
      let g = emit_error (get_state_error e) f in
      let v1 : P (lock_current_attempt env attempt (handled g)).1.client =
        SparesCore-KeepsClient (λ g. (lock_current_attempt env attempt g).1)
          (lock_current_attempt-SparesCore env attempt) (handled g)
          (k g (emit_error-keeps (get_state_error e) f v)) in
      ground (arith, v1)

  state_received-KeepsClient :
      (env : Env) (handled : Frame → Frame) (reply : Result StreamPosition) (token : TokenCall)
      (attempt invalidations : ℕ)
      → KeepsClient P handled
      → KeepsClient P token.meanwhile
      → KeepsClient P token.handled
      → KeepsClient P (state_received env handled reply token attempt invalidations)
  unfolding state_received
  state_received-KeepsClient env handled (err e) token attempt invalidations k m h f v = ground (
    arith,
    v,
    resubscribe-keeps env (set_inflight false f) v,
    get_state_failed-KeepsClient env handled e attempt k (set_inflight false f) v,
  )
  state_received-KeepsClient env handled (ok p) token attempt invalidations k m h f v = ground (
    arith,
    v,
    resubscribe-keeps env (set_inflight false f) v,
    continue_async-KeepsClient env token m h
        (record f { sub = record (f.sub) { recover = true; offset = p.offset; epoch = p.epoch } })
        v,
  )

  pub get_state_and_resubscribe-KeepsClient :
      (env : Env) (call : StateCall) (token : TokenCall)
      → KeepsClient P call.meanwhile
      → KeepsClient P call.handled
      → KeepsClient P token.meanwhile
      → KeepsClient P token.handled
      → KeepsClient P (get_state_and_resubscribe env call token)
  unfolding get_state_and_resubscribe
  get_state_and_resubscribe-KeepsClient env call token c k m h f v =
      state_received-KeepsClient env call.handled call.reply token f.sub.subscribe_attempt
        f.sub.invalidations k m h (call.meanwhile f) (c f v)

  pub subscribe_replied-KeepsClient :
      (env : Env) (handled : Frame → Frame) (r : Result SubscribeResult) (attempt generation : ℕ)
      → KeepsClient P handled
      → KeepsClient P (λ f. (subscribe_replied env handled r attempt generation f).0)
  unfolding subscribe_replied
  subscribe_replied-KeepsClient env handled (ok r) attempt generation k f v =
      SparesCore-KeepsClient (λ f. (move_to_subscribed env r generation attempt f).0)
        (move_to_subscribed-SparesCore env r generation attempt) (set_inflight false f) v
  subscribe_replied-KeepsClient env handled (err e) attempt generation k f v =
      subscribe_failed-KeepsClient env handled e attempt generation k (set_inflight false f) v

  pub deliver-KeepsClient :
      (handle : Publication → Frame → Frame) (session : ℕ)
      (pairs : List (WirePublication × Publication))
      → ((event : Publication) → KeepsClient P (handle event))
      → KeepsClient P (deliver handle session pairs)
  unfolding deliver
  deliver-KeepsClient handle session [] k f v = v
  deliver-KeepsClient handle session ((p, event) ∷ rest) k f v =
      let f1 : Frame = record f { sub = adopt_position p f.sub } in
      ground (
        arith,
        v,
        deliver-KeepsClient handle session rest k f1 v,
        deliver-KeepsClient handle session rest k (handle event f1) (k event f1 v),
      )
