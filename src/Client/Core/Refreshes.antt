-- ===== src/Client/Core/Refreshes.antt =====
-- The timers and the token refresh of a subscription, and its client.
use centrifuge_go.Prelude.{
  ℕ, String, Bool, Option, some, arith, inl, inr, Option-cases, nat_key, lookup,
}
use centrifuge_go.Codes.{unsubscribed_unauthorized}
use centrifuge_go.Errors.{GoError, Result, ok, err, as_server_error, sub_refresh_error, timeout}
use centrifuge_go.Calls.{Context, finish_call}
use centrifuge_go.Requests.{send_ignoring_error}
use centrifuge_go.State.{Client, Env, Call, Frame, stop, sub_refresh_req, sub_refresh_cb}
use centrifuge_go.Subscription.{
  TokenCall, emit_error, sub_future_timeout, run_sub_future, refresh, refresh_token_received,
  refresh_replied, refresh_timer_fired, unsubscribe_if_refresh_current, rearm,
}
use centrifuge_go.Client.Core.Frames.{
  finish_call-SameCore, unsubscribe_if_refresh_current-SparesCore, rearm-SparesCore,
  send_ignoring_error-SameCore,
}
use centrifuge_go.Client.Core.Waits.{
  KeepsClient, IsAboutCore, SparesCore-KeepsClient, emit_error-keeps,
}

module _ (P : Client → Type 0) (about : IsAboutCore P) where
  run_sub_future-keeps :
      (env : Env) (ctx : Context) (call : Call) (e : Option GoError) (c : Client)
      → P c
      → P (run_sub_future env ctx call e c)
  unfolding run_sub_future finish_call
  run_sub_future-keeps env ctx call e c v =
      let finished = λ (x : GoError).
        about.same (finish_call call (some x) c) c (finish_call-SameCore call (some x) c) v in
      elim (Option-cases (ctx call)) [
        | inl n ↦ elim (Option-cases e) [
          | inl m ↦ ground (arith, n, m, about.calls env ctx call c v)
          | inr (x, m) ↦ ground (arith, n, m, finished x)
        ]
        | inr (x, n) ↦ ground (arith, n, finished x)
      ]

  pub sub_future_timeout-KeepsClient :
      (env : Env) (ctx : Context) (id : ℕ) → KeepsClient P (sub_future_timeout env ctx id)
  unfolding sub_future_timeout
  sub_future_timeout-KeepsClient env ctx id f v =
      elim (Option-cases (lookup id f.sub.sub_futures)) [
        | inl n ↦ ground (arith, n, v)
        | inr (call, n) ↦
            ground (arith, n, run_sub_future-keeps env ctx call (some timeout) f.client v)
      ]

  refresh_stopped-keeps :
      (env : Env) (session invalidations code : ℕ) (reason : String)
      → KeepsClient P (unsubscribe_if_refresh_current env session invalidations code reason)
  refresh_stopped-keeps env session invalidations code reason =
      SparesCore-KeepsClient P about
        (unsubscribe_if_refresh_current env session invalidations code reason)
        (unsubscribe_if_refresh_current-SparesCore env session invalidations code reason)

  rearm-keeps : (session ttl : ℕ) → KeepsClient P (rearm session ttl)
  rearm-keeps session ttl =
      SparesCore-KeepsClient P about (rearm session ttl) (rearm-SparesCore session ttl)

  refresh_token_received-KeepsClient :
      (env : Env) (handled : Frame → Frame) (reply : Result String) (session invalidations : ℕ)
      → KeepsClient P handled
      → KeepsClient P (refresh_token_received env handled reply session invalidations)
  unfolding refresh_token_received
  refresh_token_received-KeepsClient env handled (err e) session invalidations k f v =
      let g = emit_error (sub_refresh_error e) f in
      ground (
        arith,
        refresh_stopped-keeps env session invalidations unsubscribed_unauthorized "unauthorized" f
            v,
        rearm-keeps session 10 (handled g)
            (k g (emit_error-keeps P about (sub_refresh_error e) f v)),
      )
  refresh_token_received-KeepsClient env handled (ok token) session invalidations k f v =
      let request = sub_refresh_req f.sub.channel token in
      let cb = sub_refresh_cb f.sub.address session invalidations in
      ground (
        arith,
        refresh_stopped-keeps env session invalidations unsubscribed_unauthorized "unauthorized" f
            v,
        about.same (send_ignoring_error env request cb f.client) f.client
            (send_ignoring_error-SameCore env request cb f.client) v,
      )

  refresh-KeepsClient :
      (env : Env) (call : TokenCall) (session : ℕ)
      → KeepsClient P call.meanwhile
      → KeepsClient P call.handled
      → KeepsClient P (refresh env call session)
  unfolding refresh
  refresh-KeepsClient env call session m h f v = ground (
    arith,
    v,
    m f v,
    refresh_token_received-KeepsClient env call.handled call.reply session f.sub.invalidations h
        (call.meanwhile f) (m f v),
  )

  pub refresh_replied-KeepsClient :
      (env : Env) (handled : Frame → Frame) (r : Result (Bool × ℕ)) (session invalidations : ℕ)
      → KeepsClient P handled
      → KeepsClient P (refresh_replied env handled r session invalidations)
  unfolding refresh_replied
  refresh_replied-KeepsClient env handled (ok (expires, ttl)) session invalidations k f v =
      ground (arith, v, rearm-keeps session ttl f v)
  refresh_replied-KeepsClient env handled (err e) session invalidations k f v =
      let f1 = emit_error (sub_refresh_error e) f in
      let g = handled f1 in
      let vg = k f1 (emit_error-keeps P about (sub_refresh_error e) f v) in
      elim (Option-cases (as_server_error e)) [
        | inl n ↦ ground (arith, v, n, rearm-keeps session 10 g vg)
        | inr (se, n) ↦ ground (
          arith,
          v,
          n,
          rearm-keeps session 10 g vg,
          refresh_stopped-keeps env session invalidations se.code se.message g vg,
        )
      ]

  pub refresh_timer_fired-KeepsClient :
      (env : Env) (call : TokenCall)
      → KeepsClient P call.meanwhile
      → KeepsClient P call.handled
      → KeepsClient P (refresh_timer_fired env call)
  unfolding refresh_timer_fired
  refresh_timer_fired-KeepsClient env call m h f v = elim (Option-cases f.sub.refresh_timer) [
    | inl n ↦ ground (arith, n, v)
    | inr (t, n) ↦ ground (
      arith,
      n,
      v,
      refresh-KeepsClient env call t.key m h
          (record f { sub = record (f.sub) { refresh_timer = stop f.sub.refresh_timer } }) v,
    )
  ]
