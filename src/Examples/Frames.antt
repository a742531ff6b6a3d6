-- ===== src/Examples/Frames.antt =====
-- The theorems about transports, calls and the creation of objects, applied.
use centrifuge_go.Prelude.{
  delete, ℕ, ◌<◌, ◌≤◌, true, false, String, List, [], ◌∷◌, ◌++◌, map, Option, none, some, ◌≡◌, ◌≢◌,
  ◌⊎◌, refl, arith, lookup, string_key, nat_key, is_some,
}
use centrifuge_go.Errors.{err, timeout}
use centrifuge_go.Codes.{connecting_transport_closed, disconnected_message_size_limit}
use centrifuge_go.State.{Client, Disconnect, json}
use centrifuge_go.Subscription.{nothing, next, subscribes, run_all, make_subscription}
use centrifuge_go.Subscription.Soundness.{IsSound}
use centrifuge_go.Transport.{
  extract_disconnect, close_error, close_message_too_big, reader as transport_reader, read_failed,
  new_transport, decode_failed,
}
use centrifuge_go.Transport.Frames.{extract_disconnect_lem}
use centrifuge_go.Transport.Reading.{taken, concat, IsEnded, reader-IsEnded}
use centrifuge_go.World.{World}
use centrifuge_go.Client.{
  Config, Reply, Waits, ServerReply, reconnects, handle_reply, request_timeout, reader, new_client,
  initial_client, with_defaults, split_endpoint, all_supported, has_ws_prefix, create_subscription,
  steps, rest_now, then_next, disconnects,
}
use centrifuge_go.Client.Answers.{pending_call, IsLast, requests_are_answered}
use centrifuge_go.Client.Consistency.{IsConsistent}
use centrifuge_go.Client.Start.{is_refused, new_client-IsConsistent, create_subscription_lem}
use centrifuge_go.Examples.{env, no_context, new_sub, live_client, live, a_call}

abbrev no_json : String → Option Disconnect
no_json text = none

extract_disconnect_lem_example :
    ((3000 ≤ 3500)
      × (extract_disconnect no_json (close_error 3500 "bye")
          ≡ some (record { code = 3500; reason = "bye"; reconnect = reconnects 3500 })))
    ⊎ ((3500 < 3000)
        × (3500 ≢ close_message_too_big)
        × (extract_disconnect no_json (close_error 3500 "bye")
            ≡ some (record {
              code = connecting_transport_closed;
              reason = "bye";
              reconnect = reconnects 3500;
            })))
    ⊎ ((3500 ≡ close_message_too_big)
        × (extract_disconnect no_json (close_error 3500 "bye")
            ≡ some (record {
              code = disconnected_message_size_limit;
              reason = "bye";
              reconnect = false;
            })))
extract_disconnect_lem_example = extract_disconnect_lem no_json 3500 "bye" refl (omega arith)

abbrev batches : List (List ℕ)
batches = (1 ∷ 2 ∷ []) ∷ [] ∷ (3 ∷ []) ∷ []

reader-IsEnded_example :
    IsEnded
      (transport_reader no_json
        (map (taken true) batches ++ (read_failed (close_error 1009 "big") ∷ []))
        (new_transport json))
      ([] ++ concat batches)
      (extract_disconnect no_json (close_error 1009 "big"))
    × IsEnded
        (transport_reader no_json
          (map (taken true) batches ++ (taken false (4 ∷ []) ∷ []))
          (new_transport json))
        (([] ++ concat batches) ++ (4 ∷ []))
        (some decode_failed)
unfolding new_transport
reader-IsEnded_example =
    reader-IsEnded no_json batches (4 ∷ []) (close_error 1009 "big") [] (new_transport json)

abbrev an_empty_reply : Reply
an_empty_reply = record {
  error = none;
  connect = none;
  subscribe = none;
  refresh = none;
  sub_refresh = none;
  rpc = none;
  history = some (record { pubs = []; offset = 7; epoch = "e" });
  presence = none;
  presence_stats = none;
}

abbrev a_ping : ServerReply
a_ping = record { id = 0; body = an_empty_reply; push = none }

abbrev an_answer : ServerReply
an_answer = record { id = 10; body = an_empty_reply; push = none }

abbrev quiet : Waits
quiet = record { meanwhile = λ w. w; in_frame = λ f. f; closing = λ w. w }

abbrev frames : List (List ServerReply)
frames = (a_ping ∷ an_answer ∷ []) ∷ (a_ping ∷ []) ∷ []

abbrev asking : World
asking = record live { client = record live_client { requests = (10, pending_call a_call) ∷ [] } }

requests_are_answered_example :
    IsLast a_call an_empty_reply
      (handle_reply env no_context quiet 5 10 an_empty_reply asking).client
    × ((request_timeout env no_context quiet timeout 10 asking).client.results
        ≡ asking.client.results ++ ((a_call, err timeout) ∷ []))
    × ((request_timeout env no_context quiet timeout 10 asking).client.requests
        ≡ delete 10 asking.client.requests)
unfolding lookup
requests_are_answered_example =
    requests_are_answered env no_context quiet 5 10 an_empty_reply timeout a_call asking refl

abbrev a_config : Config
a_config = record {
  token = "t";
  has_get_token = false;
  name = "";
  read_timeout = 0;
  write_timeout = 0;
  handshake_timeout = 0;
  max_server_ping_delay = 0;
  min_reconnect_delay = 0;
  max_reconnect_delay = 0;
}

abbrev made : Client
made = initial_client 2 true (with_defaults a_config)

new_client-IsConsistent_example :
    (0 < 2)
    × IsConsistent
        (steps env
          (then_next no_context disconnects rest_now)
          (record { client = made; heap = λ a. new_sub })).client
unfolding new_client split_endpoint all_supported has_ws_prefix initial_client
new_client-IsConsistent_example =
    new_client-IsConsistent env "ws://a,wss://b" true a_config made
      (record { client = made; heap = λ a. new_sub }) (then_next no_context disconnects rest_now)
      refl refl (refl, refl)

create_subscription_lem_example :
    (is_some (create_subscription "chat" none 2 live).1 ≡ false)
    × (lookup "chat" (create_subscription "chat" none 2 live).0.client.subs ≡ some 2)
    × ((create_subscription "chat" none 2 live).0.heap 1 ≡ live.heap 1)
    × IsSound
        (run_all env
          (next (subscribes true) nothing)
          (record { client = live_client; sub = make_subscription 2 "chat" none })).sub
unfolding is_refused lookup
create_subscription_lem_example =
    create_subscription_lem env "chat" none 2 1 "chat" live (next (subscribes true) nothing)
