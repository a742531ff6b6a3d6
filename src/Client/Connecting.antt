-- ===== src/Client/Connecting.antt =====
-- The consistency of a client: the reply to a connect command.
use centrifuge_go.Prelude.{
  ℕ, String, List, [], ◌∷◌, none, inl, inr, arith, Bool-cases, nat_key, ltb, if◌then◌else◌, ◌*◌,
}
use centrifuge_go.Protocol.{SubscribeResult}
use centrifuge_go.Backoff.{second}
use centrifuge_go.Calls.{Context, resolve_connect_futures}
use centrifuge_go.Effects.{notify, spawn}
use centrifuge_go.State.{Client, Env, connected, on_connected, on_server_unsubscribed, ping_timer}
use centrifuge_go.Subscription.{resubscribe}
use centrifuge_go.World.{World, in_client}
use centrifuge_go.Client.{
  set_state_locked, schedule_refresh_locked, connected_now, ConnectResult, connect_server_subs,
  connect_server_sub, remove_unlisted, listed, unlisted, report_unsubscribed, finish_connect,
  connect_replied,
}
use centrifuge_go.Client.Core.{
  SameCore-trans, notify-SameCore, each_sub-SameCore, resolve_connect_futures-SameCore,
  resubscribe-SparesCore,
}
use centrifuge_go.Client.Consistency.{IsConsistent, SameCore-IsConsistent, KeepsConsistent}

connected_now-IsConsistent :
    (env : Env) (ctx : Context) (r : ConnectResult) (c : Client)
    → IsConsistent (connected_now env ctx r c)
unfolding connected_now schedule_refresh_locked set_state_locked
connected_now-IsConsistent env ctx r c =
    let c1 = set_state_locked connected c in
    let c2 = if r.expires then schedule_refresh_locked (r.ttl * second) c1 else c1 in
    let e = on_connected r.client r.version r.data_bytes in
    SameCore-IsConsistent (connected_now env ctx r c) (record c2 { connect_futures = [] })
      (SameCore-trans
        (notify-SameCore c.handlers.on_connected e (resolve_connect_futures env ctx none c2))
        (resolve_connect_futures-SameCore env ctx none c2))
      (elim (Bool-cases r.expires) [ inl y ↦ ground (arith, y) | inr n ↦ ground (arith, n) ])

connect_server_sub-IsConsistent :
    (attempt : ℕ) (channel : String) (r : SubscribeResult) (c : Client)
    → IsConsistent c
    → IsConsistent (connect_server_sub attempt channel r c)
unfolding connect_server_sub notify
connect_server_sub-IsConsistent attempt channel r c v = ground arith

connect_server_subs-IsConsistent :
    (meanwhile : World → World) (attempt : ℕ) (subs : List (String × SubscribeResult))
    → KeepsConsistent meanwhile
    → KeepsConsistent (connect_server_subs meanwhile attempt subs)
unfolding connect_server_subs
connect_server_subs-IsConsistent meanwhile attempt [] k w v = v
connect_server_subs-IsConsistent meanwhile attempt ((channel, r) ∷ subs) k w v =
    let w1 = in_client (connect_server_sub attempt channel r) w in
    let v1 = connect_server_sub-IsConsistent attempt channel r w.client v in
    ground
      (arith, v, connect_server_subs-IsConsistent meanwhile attempt subs k (meanwhile w1) (k w1 v1))

report_unsubscribed-IsConsistent :
    (gone : List String) (c : Client) → IsConsistent c → IsConsistent (report_unsubscribed gone c)
unfolding report_unsubscribed
report_unsubscribed-IsConsistent [] c v = v
report_unsubscribed-IsConsistent (channel ∷ rest) c v =
    let set = c.handlers.on_server_unsubscribed in
    let e = on_server_unsubscribed (channel ∷ []) in
    report_unsubscribed-IsConsistent rest (notify set e c)
      (SameCore-IsConsistent (notify set e c) c (notify-SameCore set e c) v)

remove_unlisted-IsConsistent :
    (replies : List (String × SubscribeResult)) (c : Client)
    → IsConsistent c
    → IsConsistent (remove_unlisted replies c)
unfolding remove_unlisted
remove_unlisted-IsConsistent replies c v =
    report_unsubscribed-IsConsistent (unlisted replies c.server_subs)
      (record c { server_subs = listed replies c.server_subs })
      (record { mirrors = v.mirrors; refreshes = v.refreshes; opens = v.opens; waits = v.waits })

finish_connect-IsConsistent :
    (env : Env) (r : ConnectResult) (t attempt : ℕ)
    → KeepsConsistent (finish_connect env r t attempt)
unfolding finish_connect spawn
finish_connect-IsConsistent env r t attempt w v =
    let c = record (w.client) { reconnect_attempts = 0 } in
    let c1 =
      if ltb 0 r.ping then spawn (ping_timer t r.ping) (record c { send_pong = r.pong }) else c in
    ground (
      arith,
      v,
      each_sub-SameCore (resubscribe env) c.subs (record w { client = c1 })
          (resubscribe-SparesCore env),
    )

-- The reply to a connect command keeps a client consistent, whatever attempt it belongs to, if what
-- runs in its handlers does.
pub connect_replied-IsConsistent :
    (env : Env) (ctx : Context) (meanwhile : World → World) (r : ConnectResult) (t attempt : ℕ)
    (w : World)
    → KeepsConsistent meanwhile
    → IsConsistent w.client
    → IsConsistent (connect_replied env ctx meanwhile r t attempt w).client
unfolding connect_replied
connect_replied-IsConsistent env ctx meanwhile r t attempt w k v =
    let w0 = in_client (connected_now env ctx r) w in
    let w1 = meanwhile w0 in
    let v1 = k w0 (connected_now-IsConsistent env ctx r w.client) in
    let w2 = connect_server_subs meanwhile attempt r.subs w1 in
    let v2 = connect_server_subs-IsConsistent meanwhile attempt r.subs k w1 v1 in
    let w3 = in_client (remove_unlisted r.subs) w2 in
    let v3 = k w3 (remove_unlisted-IsConsistent r.subs w2.client v2) in
    let v4 = finish_connect-IsConsistent env r t attempt (meanwhile w3) v3 in
    ground (arith, v, v2, v4)
