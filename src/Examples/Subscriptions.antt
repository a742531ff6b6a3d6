-- ===== src/Examples/Subscriptions.antt =====
-- The theorems about a subscription, applied.
use centrifuge_go.Prelude.{
  ◌↔◌, ◌&&◌, ltb, nat_key, Bool, ℕ, true, false, List, [], ◌∷◌, some, ◌≡◌, refl, inl, arith, lookup,
}
use centrifuge_go.Errors.{GoError, server_error, subscribe_error, ok}
use centrifuge_go.Protocol.{Bytes}
use centrifuge_go.State.{Frame, subscribing, unsubscribed, json}
use centrifuge_go.Subscription.{
  Ops, token_call, nothing, next, run_all, subscribes, unsubscribes, resubscribes, gets_token,
  refresh_timer_fires, subscribe_replies, loses_transport, publication_pushed, subscribe_replied,
  emit_error, set_inflight, move_to_subscribed, apply_recovered, applied, become_subscribed,
  with_result, move_to_unsubscribed,
}
use centrifuge_go.Subscription.Soundness.{IsSound}
use centrifuge_go.Subscription.Soundness.Runs.{run_all-IsSound}
use centrifuge_go.Subscription.Unsubscribed.{run_all-unsubscribed}
use centrifuge_go.Subscription.Staleness.{
  Agrees, stale_reply_changes_nothing, subscribed_needs_current_reply,
}
use centrifuge_go.Subscription.Stream.{
  Sent, is_quotable, stream, last_base, events, apply_recovered-stream,
}
use centrifuge_go.PushIds.{reassign}
use centrifuge_go.PushIds.Routing.{IsRoutedBy, reassign-IsRoutedBy, reassign-others}
use centrifuge_go.Examples.{
  env, new_sub, waiting_sub, live_sub, live_client, a_reply, a_publication,
}

abbrev fresh : Frame
fresh = record { client = live_client; sub = new_sub }

abbrev waiting : Frame
waiting = record { client = live_client; sub = waiting_sub }

abbrev live : Frame
live = record { client = live_client; sub = live_sub }

-- Subscribe; GetToken answers; the server replies; while a refresh asks for a token, the application
-- unsubscribes and subscribes again; a publication, and then the transport is lost.
abbrev story : Ops
story = next (subscribes true) (
    next (gets_token (token_call nothing (ok "t1") nothing)) (
      next (subscribe_replies (ok a_reply) 0 4 nothing) (
        next
          (refresh_timer_fires
            (token_call (next unsubscribes (next (subscribes true) nothing)) (ok "t2") nothing))
          (next (publication_pushed a_publication) (next (loses_transport 1 "x") nothing)))))

fresh-IsSound : IsSound fresh.sub
fresh-IsSound = ground arith

waiting-IsSound : IsSound waiting.sub
waiting-IsSound = ground arith

run_all-IsSound_example : IsSound (run_all env story fresh).sub
run_all-IsSound_example = run_all-IsSound env story fresh fresh-IsSound

-- After an unsubscribe: the reply to the subscribe sent before, a publication and a resubscribe.
abbrev after_unsubscribe : Ops
after_unsubscribe =
    next (subscribe_replies (ok a_reply) 3 4 nothing)
      (next (publication_pushed a_publication) (next resubscribes nothing))

run_all-unsubscribed_example : (run_all env after_unsubscribe fresh).sub.state ≡ unsubscribed
run_all-unsubscribed_example = run_all-unsubscribed env after_unsubscribe fresh refl refl

stale_reply_changes_nothing_example :
    Agrees (subscribe_replied env (run_all env nothing) (ok a_reply) 2 4 waiting).0.sub waiting.sub
stale_reply_changes_nothing_example =
    stale_reply_changes_nothing env (run_all env nothing) a_reply 2 4 waiting (inl (omega arith))

subscribed_needs_current_reply_example :
    (waiting.sub.state ≡ subscribing)
    × (waiting.sub.subscribe_attempt ≡ 3)
    × (waiting.client.conn_generation ≡ 4)
unfolding subscribe_replied move_to_subscribed become_subscribed apply_recovered with_result
subscribed_needs_current_reply_example =
    subscribed_needs_current_reply env (run_all env nothing) a_reply 3 4 waiting (ground arith) refl

abbrev limit_exceeded : GoError
limit_exceeded = server_error (record { code = 106; message = "limit exceeded"; temporary = false })

-- OnError unsubscribes.
abbrev unsubscribing : Frame → Frame
unsubscribing = move_to_unsubscribed 0 "unsubscribe called"

-- What OnError leaves of the subscription.
abbrev unsubscribed_meanwhile : Frame
unsubscribed_meanwhile = unsubscribing (emit_error (subscribe_error limit_exceeded) waiting)

abbrev unflagged : Frame
unflagged = set_inflight false waiting

abbrev sent : List Sent
sent = (true, 3 ∷ [], a_publication) ∷ (false, 4 ∷ 5 ∷ [], a_publication) ∷ []

-- Bytes of ASCII.
unfoldable is_ascii : Bytes → Bool
is_ascii [] = true
is_ascii (b ∷ bytes) = ltb b 128 && is_ascii bytes

apply_recovered-stream_example :
    apply_recovered env json (stream some (λ base d. d) json (1 ∷ 2 ∷ []) sent) live_sub
    ≡ applied
        (record live_sub { prev_data = some (4 ∷ 5 ∷ []) })
        (events some (λ base d. d) json (1 ∷ 2 ∷ []) sent)
unfolding last_base is_quotable is_ascii
apply_recovered-stream_example =
    apply_recovered-stream env some is_ascii (λ base d. d) json (1 ∷ 2 ∷ []) sent live_sub
      (λ b e. refl) refl (λ b n. refl) refl refl

-- The subscription at 1 has id 7, and the one at 2 has id 8.
abbrev registry : List (ℕ × ℕ)
registry = (7, 1) ∷ (8, 2) ∷ []

first-IsRoutedBy : IsRoutedBy 1 7 registry
unfolding IsRoutedBy lookup
first-IsRoutedBy k e = ground arith

reassign-IsRoutedBy_example : IsRoutedBy 1 9 (reassign 1 7 9 registry)
reassign-IsRoutedBy_example = reassign-IsRoutedBy 1 7 9 registry first-IsRoutedBy

reassign-others_example :
    (lookup 8 (reassign 1 7 9 registry) ≡ some 2) ↔ ((lookup 8 registry ≡ some 2) × (false ≡ false))
reassign-others_example = reassign-others 1 7 9 2 registry 8 (omega arith)
