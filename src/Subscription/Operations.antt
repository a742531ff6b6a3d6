-- ===== src/Subscription/Operations.antt =====
-- Every way in which a subscription changes: the calls of the application, the pushes and replies of
-- the server, the timers, and the changes of the client by others. What happens while an operation
-- waits for a handler is itself a list of operations, so that a run is an interleaving.
use centrifuge_go.Prelude.{ℕ, String, Bool, List, Option}
use centrifuge_go.Errors.{Result}
use centrifuge_go.Protocol.{StreamPosition, WireInfo, WirePublication, Publication, SubscribeResult}
use centrifuge_go.Calls.{Context}
use centrifuge_go.State.{Client, Frame, Env, Call}
use centrifuge_go.Subscription.Transitions.{
  move_to_unsubscribed, move_to_subscribing_locked, unsubscribe,
}
use centrifuge_go.Subscription.Resubscribe.{resubscribe, subscribe}
use centrifuge_go.Subscription.Failure.{TokenCall, continue_async, get_state_and_resubscribe}
use centrifuge_go.Subscription.Reply.{deliver}
use centrifuge_go.Subscription.Push.{
  handle_publication, handle_join, handle_leave, handle_unsubscribe, invalidate_state,
  set_tags_filter,
}
use centrifuge_go.Subscription.Refresh.{refresh_replied}
use centrifuge_go.Subscription.Futures.{on_subscribe, sub_future_timeout}
use centrifuge_go.Subscription.Callbacks.{
  subscribe_replied, resubscribe_timer_fired, refresh_timer_fired,
}

mutual
  pub data Op : Type 0 where
    subscribes : Bool → Op
    unsubscribes : Op
    sets_tags_filter : Option ℕ → Op
    calls : Call → Op
    call_times_out : Context → ℕ → Op
    resubscribes : Op
    resubscribe_timer_fires : Op
    refresh_timer_fires : Waiting → Op
    gets_token : Waiting → Op
    gets_state : Ops → Result StreamPosition → Ops → Waiting → Op
    subscribe_replies : Result SubscribeResult → ℕ → ℕ → Ops → Op
    refresh_replies : Result (Bool × ℕ) → ℕ → ℕ → Ops → Op
    delivers : ℕ → List (WirePublication × Publication) → Ops → Op
    publication_pushed : WirePublication → Op
    join_pushed leave_pushed : Option WireInfo → Op
    unsubscribe_pushed : ℕ → String → Op
    invalidates : Op
    loses_transport : ℕ → String → Op
    closes : ℕ → String → Op
    client_changes : (Client → Client) → Op

  -- A call of `GetToken`: what happens while it runs, its answer, and what happens in OnError.
  pub data Waiting : Type 0 where
    token_call : Ops → Result String → Ops → Waiting

  pub data Ops : Type 0 where
    nothing : Ops
    next : Op → Ops → Ops

unfoldable mutual
  pub run : Env → Op → Frame → Frame
  run env (subscribes registered) f = (subscribe env registered f).0
  run env unsubscribes f = (unsubscribe env f).0
  run env (sets_tags_filter t) f = record f { sub = (set_tags_filter t f.sub).0 }
  run env (calls call) f = on_subscribe call f
  run env (call_times_out ctx id) f = sub_future_timeout env ctx id f
  run env resubscribes f = resubscribe env f
  run env resubscribe_timer_fires f = resubscribe_timer_fired env f
  run env (refresh_timer_fires w) f = refresh_timer_fired env (run_call env w) f
  run env (gets_token w) f = continue_async env (run_call env w) f
  run env (gets_state m reply h w) f =
      get_state_and_resubscribe env
        (record { meanwhile = run_all env m; reply = reply; handled = run_all env h })
        (run_call env w) f
  run env (subscribe_replies r attempt generation h) f =
      (subscribe_replied env (run_all env h) r attempt generation f).0
  run env (refresh_replies r session invalidations h) f =
      refresh_replied env (run_all env h) r session invalidations f
  run env (delivers session pairs h) f = deliver (λ _. run_all env h) session pairs f
  run env (publication_pushed p) f = (handle_publication env p f).0
  run env (join_pushed info) f = handle_join info f
  run env (leave_pushed info) f = handle_leave info f
  run env (unsubscribe_pushed code reason) f = handle_unsubscribe env code reason f
  run env invalidates f = invalidate_state f
  run env (loses_transport code reason) f = move_to_subscribing_locked code reason f
  run env (closes code reason) f = move_to_unsubscribed code reason f
  run env (client_changes g) f = record f { client = g f.client }

  pub run_call : Env → Waiting → TokenCall
  run_call env (token_call m reply h) = record {
    meanwhile = run_all env m;
    reply = reply;
    handled = run_all env h;
  }

  pub run_all : Env → Ops → Frame → Frame
  run_all env nothing f = f
  run_all env (next op ops) f = run_all env ops (run env op f)
