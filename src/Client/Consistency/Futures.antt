-- ===== src/Client/Consistency/Futures.antt =====
-- Waiting calls, deliveries, and the registry of subscriptions.
use centrifuge_go.Prelude.{
  ℕ, String, Bool, List, [], ◌∷◌, some, arith, inl, inr, Option-cases, nat_key, string_key, ap,
  lookup, insert, delete,
}
use centrifuge_go.Errors.{timeout}
use centrifuge_go.Calls.{Context, connect_future_timeout}
use centrifuge_go.Protocol.{WirePublication}
use centrifuge_go.State.{SubState, Client, Env}
use centrifuge_go.World.{World}
use centrifuge_go.Client.{
  deliver_server, adopt_server_position, new_subscription, remove_subscription, set_token,
}
use centrifuge_go.Client.Core.{run_call-SameCore}
use centrifuge_go.Client.Consistency.{IsConsistent, SameCore-IsConsistent, KeepsConsistent}

removed-IsConsistent :
    (id : ℕ) (c : Client)
    → IsConsistent c
    → IsConsistent (record c { connect_futures = delete id c.connect_futures })
unfolding delete
removed-IsConsistent id c v = record {
  mirrors = v.mirrors;
  refreshes = v.refreshes;
  opens = v.opens;
  waits = elim v.waits [ inl n ↦ inl (ap (delete id) n) | inr s ↦ inr s ];
}

pub connect_future_timeout-IsConsistent :
    (env : Env) (ctx : Context) (id : ℕ) (c : Client)
    → IsConsistent c
    → IsConsistent (connect_future_timeout env ctx id c)
unfolding connect_future_timeout
connect_future_timeout-IsConsistent env ctx id c v =
    let c1 = record c { connect_futures = delete id c.connect_futures } in
    elim (Option-cases (lookup id c.connect_futures)) [
      | inl n ↦ ground (arith, n, v)
      | inr (call, n) ↦
          SameCore-IsConsistent (connect_future_timeout env ctx id c) c1
            (ground (arith, n, run_call-SameCore env ctx call (some timeout) c1))
            (removed-IsConsistent id c v)
    ]

pub deliver_server-IsConsistent :
    (handle : WirePublication → World → World) (attempt : ℕ) (channel : String)
    (ps : List WirePublication)
    → ((p : WirePublication) → KeepsConsistent (handle p))
    → KeepsConsistent (deliver_server handle attempt channel ps)
unfolding deliver_server
deliver_server-IsConsistent handle attempt channel [] k w v = v
deliver_server-IsConsistent handle attempt channel (p ∷ ps) k w v =
    elim (Option-cases (lookup channel w.client.server_subs)) [
      | inl n ↦ ground (arith, n, v)
      | inr (s, n) ↦
          let c = w.client in
          let w1 = record w {
            client = record c {
              server_subs = insert channel (adopt_server_position p s) c.server_subs;
            };
          } in
          let v1 : IsConsistent w1.client = ground (arith, v) in
          ground (
            arith,
            n,
            v,
            deliver_server-IsConsistent handle attempt channel ps k w1 v1,
            deliver_server-IsConsistent handle attempt channel ps k (handle p w1) (k p w1 v1),
          )
    ]

pub registry-IsConsistent :
    (channel token : String) (conflict : Bool) (a : ℕ) (state : SubState) (c : Client)
    → IsConsistent c
    → IsConsistent (new_subscription channel conflict a c).0
      × IsConsistent (remove_subscription channel a state c).0
      × IsConsistent (set_token token c)
unfolding new_subscription remove_subscription set_token
registry-IsConsistent channel token conflict a state c v =
    elim (Option-cases (lookup channel c.subs)) [
      | inl n ↦ ground (arith, n, v)
      | inr (b, n) ↦ ground (arith, n, v)
    ]
