-- ===== src/Examples/Runs.antt =====
-- The theorems about whole runs of a subscription and of a client, applied.
use centrifuge_go.Prelude.{
  ◌∷◌, inr, lookup, nat_key, true, false, [], some, none, ◌≡◌, refl, arith, ◌⊎◌, ◌≢◌,
}
use centrifuge_go.Errors.{ok, unauthorized, timeout, err}
use centrifuge_go.State.{subscribe_cb, result_subscribe, Frame, closed}
use centrifuge_go.Subscription.{
  Ops, StateCall, TokenCall, token_call, nothing, next, run_all, subscribes, unsubscribes,
  gets_token, subscribe_replies, loses_transport, publication_pushed, client_changes, invalidates,
  resubscribe, continue_async, get_state_and_resubscribe, handle_unsubscribe, subscribe_replied,
  resubscribe_timer_fired,
}
use centrifuge_go.Subscription.Lifecycle.{IsTold, told}
use centrifuge_go.Subscription.Lifecycle.Runs.{AllMindful, run_all-IsTold}
use centrifuge_go.Subscription.Progress.{IsOwned, LeavesOwned, AwaitsReply, landed-IsOwned, GoesOn}
use centrifuge_go.Subscription.Progress.Waits.{IsLive, never_stranded}
use centrifuge_go.World.{World}
use centrifuge_go.Client.{
  ClientOps, attempted, rest_now, then_next, steps, connects, disconnects, closes_client,
  calls_client, transport_reports, subscription_runs, reconnect_timer_fires, set_token,
}
use centrifuge_go.Client.Consistency.{IsConsistent}
use centrifuge_go.Client.Consistency.Runs.{StepsFit, steps-IsConsistent}
use centrifuge_go.Client.Closed.Runs.{StepsLeave, closed_is_final}
use centrifuge_go.Client.{Attempt, attempt_of, start_reconnecting_if, connect_failed, begin_attempt}
use centrifuge_go.Client.Progress
use centrifuge_go.Client.Progress.{attempt-GoesOn}
use centrifuge_go.Examples.{
  dialing, env, no_context, new_sub, waiting_sub, live_client, new_client, live, a_call, a_reply,
  a_publication,
}

abbrev fresh : Frame
fresh = record { client = live_client; sub = new_sub }

abbrev waiting : Frame
waiting = record { client = live_client; sub = waiting_sub }

-- Subscribe; while GetToken runs, the client's token is set and the state is invalidated; the server
-- replies, and publishes; the transport is lost, and the application unsubscribes.
abbrev story : Ops
story = next (subscribes true) (
    next
      (gets_token (
        token_call (next (client_changes (set_token "c2")) (next invalidates nothing)) (ok "t1")
          nothing))
      (next (subscribe_replies (ok a_reply) 0 4 nothing) (
        next (publication_pushed a_publication)
          (next (loses_transport 1 "x") (next unsubscribes nothing)))))

set_token-IsTold : (f : Frame) → IsTold f → IsTold (record f { client = set_token "c2" f.client })
unfolding set_token
set_token-IsTold f v = ground (arith, v)

story-Mindful : AllMindful story
unfolding set_token
story-Mindful =
    (refl, (((set_token-IsTold, (refl, refl)), refl), (refl, (refl, (refl, (refl, refl))))))

fresh-IsTold : IsTold fresh
unfolding told
fresh-IsTold = ground arith

run_all-IsTold_example : IsTold (run_all env story fresh)
run_all-IsTold_example = run_all-IsTold env story fresh story-Mindful fresh-IsTold

abbrev refusing : TokenCall
refusing = record {
  meanwhile = run_all env nothing;
  reply = err timeout;
  handled = run_all env nothing;
}

abbrev positioned_call : StateCall
positioned_call = record {
  meanwhile = run_all env nothing;
  reply = ok (record { offset = 3; epoch = "e" });
  handled = run_all env nothing;
}

empty_run-LeavesOwned : LeavesOwned (run_all env nothing)
unfolding run_all
empty_run-LeavesOwned g h = landed-IsOwned g h

abbrev flying : Frame
flying = record waiting {
  client = record live_client {
    requests =
        (9, record { cb = subscribe_cb waiting_sub.address 3 4; result = result_subscribe }) ∷ [];
  };
}

flying-AwaitsReply : AwaitsReply flying.sub.address flying.client.requests
unfolding AwaitsReply lookup
flying-AwaitsReply = (9, refl)

flying-IsOwned : IsOwned flying
unfolding IsOwned
flying-IsOwned = inr (inr flying-AwaitsReply)

flying-GoesOn : GoesOn flying
unfolding GoesOn
flying-GoesOn = inr (inr (inr (inr flying-AwaitsReply)))

never_stranded_example :
    IsLive (continue_async env refusing waiting)
    × IsLive (get_state_and_resubscribe env positioned_call refusing waiting)
    × (GoesOn (subscribe_replied env (run_all env nothing) (err timeout) 3 4 waiting).0
        ⊎ ((subscribe_replied env (run_all env nothing) (err timeout) 3 4 waiting).1 ≢ none))
    × IsOwned (subscribe_replied env (run_all env nothing) (err timeout) 3 4 waiting).0
    × IsLive (resubscribe env flying)
    × GoesOn (handle_unsubscribe env 2500 "insufficient state" flying)
    × GoesOn (resubscribe_timer_fired env flying)
never_stranded_example =
    never_stranded env positioned_call refusing (run_all env nothing) (err timeout) 3 4 2500
      "insufficient state" flying waiting empty_run-LeavesOwned empty_run-LeavesOwned
      empty_run-LeavesOwned flying-IsOwned flying-GoesOn

abbrev now : World
now = record { client = new_client; heap = λ a. new_sub }

-- Connect; in OnConnecting a call is made; in the dial the application disconnects. Then it
-- connects again with success, and subscribes; the transport is lost; the client closes, and in
-- its handlers connects once more.
abbrev client_story : ClientOps
client_story =
    then_next no_context
      (connects
        (attempted rest_now (ok "c1") rest_now (then_next no_context disconnects rest_now) (ok 5)
          rest_now)
        (then_next no_context (calls_client a_call) rest_now))
      (then_next no_context
        (connects (attempted rest_now (ok "c1") rest_now rest_now (ok 6) rest_now) rest_now)
        (then_next no_context (subscription_runs 1 (subscribes true)) (
          then_next no_context (transport_reports (some 6) none rest_now) (
            then_next no_context
              (closes_client (
                then_next no_context
                  (reconnect_timer_fires
                    (attempted rest_now (err unauthorized) rest_now rest_now (ok 7) rest_now))
                  rest_now))
              rest_now))))

now-IsConsistent : IsConsistent now.client
now-IsConsistent = ground arith

client_story-StepsFit : StepsFit client_story
client_story-StepsFit = ground arith

steps-IsConsistent_example : IsConsistent (steps env client_story now).client
steps-IsConsistent_example =
    steps-IsConsistent env client_story now client_story-StepsFit now-IsConsistent

abbrev over : World
over = record live { client = record new_client { state = closed } }

over-IsConsistent : IsConsistent over.client
over-IsConsistent = ground arith

client_story-StepsLeave : StepsLeave client_story
client_story-StepsLeave = ground arith

closed_is_final_example :
    ((steps env client_story over).client.state ≡ closed)
    × ((steps env client_story over).client.transport ≡ none)
    × ((steps env client_story over).client.refresh_timer ≡ none)
    × ((steps env client_story over).client.connect_futures ≡ [])
    × ((steps env client_story over).client.connected ≡ false)
closed_is_final_example =
    closed_is_final env client_story over client_story-StepsLeave client_story-StepsFit
      over-IsConsistent refl

-- GetToken fails, and the transport of the attempt after it is refused.
abbrev failing : Attempt
failing = attempt_of env (attempted rest_now (err timeout) rest_now rest_now (ok 7) rest_now)

attempt-GoesOn_example :
    ((begin_attempt (λ c. true) dialing.client).0 ≡ some 3)
    × Progress.GoesOn 3 (start_reconnecting_if env no_context failing (λ c. true) dialing).client
    × Progress.IsRetried 2
        (connect_failed env no_context
          (steps env rest_now)
          (steps env rest_now)
          7
          2
          "c1"
          timeout
          dialing).client
attempt-GoesOn_example =
    attempt-GoesOn env no_context failing (λ c. true) 2 7 (steps env rest_now) (steps env rest_now)
      "c1" timeout dialing dialing refl refl
