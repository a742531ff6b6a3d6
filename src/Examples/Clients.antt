-- ===== src/Examples/Clients.antt =====
-- The theorems about the client, applied.
use centrifuge_go.Prelude.{
  ◌∷◌, map, string_key, true, [], none, some, ◌++◌, ◌≡◌, refl, ◌≢◌, arith, ◌⊎◌, lookup, nat_key,
  u32, ◌<◌,
}
use centrifuge_go.Errors.{ok}
use centrifuge_go.State.{Command, connecting, disconnected, closed, refresh_req, refresh_cb}
use centrifuge_go.World.{World}
use centrifuge_go.Requests.{next_cmd_id, send_async, reply_result_of}
use centrifuge_go.Requests.Table.{next_cmd_id_lem, send_async_lem, written_by}
use centrifuge_go.Client.{disconnect_now, tear_down, close_now, move_to_connecting_from}
use centrifuge_go.Client.Consistency.{
  IsConsistent, IsTornDown, ends_connection, move_to_connecting_from-IsConsistent,
}
use centrifuge_go.Client.{connect_replied, ConnectResult}
use centrifuge_go.Protocol.{SubscribeResult}
use centrifuge_go.Client.{
  Reply, WireResult, WireConnect, answer, subscribe_result, connect_result, malformed_reply,
  malformed_subs, malformed_result, has_nil_publication,
}
use centrifuge_go.Client.Connecting.{connect_replied-IsConsistent}
use centrifuge_go.Client.Complete.{checked_subscribe_lem, checked_connect_lem, read_pubs, sent_pubs}
use centrifuge_go.Examples.{
  a_reply, a_publication, env, no_context, live_client, dialing_client, live, dialing,
}

abbrev nothing_happens : World → World
nothing_happens w = w

live-IsConsistent : IsConsistent live_client
live-IsConsistent = ground arith

ends_connection_example :
    IsTornDown live_client (disconnect_now env no_context 0 "over" live).client disconnected 3
    × IsTornDown live_client (tear_down env no_context 0 "over" live).client connecting 2
    × IsTornDown live_client (close_now env no_context live).client closed 3
ends_connection_example = ends_connection env no_context 0 "over" live

move_to_connecting_from-IsConsistent_example :
    IsConsistent
      (move_to_connecting_from env no_context nothing_happens
        (some 5)
        1
        "transport closed"
        live).client
move_to_connecting_from-IsConsistent_example =
    move_to_connecting_from-IsConsistent env no_context nothing_happens (some 5) 1
      "transport closed" (λ w v. v) live live-IsConsistent

abbrev connect_reply : ConnectResult
connect_reply = record {
  client = "id";
  version = "6";
  data_bytes = none;
  expires = true;
  ttl = 60;
  ping = 25;
  pong = true;
  subs = [];
}

abbrev refreshing : Command
refreshing = record { id = 10; request = refresh_req "c2" }

send_async_lem_example :
    ((send_async env refreshing (refresh_cb 4) live_client).1 ≡ none)
    × ((send_async env refreshing (refresh_cb 4) live_client).0.written
        ≡ live_client.written ++ ((5, refreshing) ∷ []))
    × (lookup 10 (send_async env refreshing (refresh_cb 4) live_client).0.requests
        ≡ some (record { cb = refresh_cb 4; result = reply_result_of refreshing.request }))
unfolding written_by
send_async_lem_example = send_async_lem env refreshing (refresh_cb 4) live_client 10

next_cmd_id_lem_example :
    ((next_cmd_id live_client).0 ≢ 0)
    × ((next_cmd_id live_client).0 < 4294967296)
    × (((next_cmd_id live_client).0 ≡ 10) ⊎ (u32 10 ≡ 0) × ((next_cmd_id live_client).0 ≡ 1))
    × ((next_cmd_id live_client).1.cmd_id ≡ (next_cmd_id live_client).0)
next_cmd_id_lem_example = next_cmd_id_lem live_client

dialing-IsConsistent : IsConsistent dialing_client
dialing-IsConsistent = ground arith

connect_replied-IsConsistent_example :
    IsConsistent (connect_replied env no_context nothing_happens connect_reply 6 2 dialing).client
connect_replied-IsConsistent_example =
    connect_replied-IsConsistent env no_context nothing_happens connect_reply 6 2 dialing (λ w v. v)
      dialing-IsConsistent

abbrev wire_result : WireResult SubscribeResult
wire_result = record { fields = a_reply; pubs = some a_publication ∷ [] }

abbrev wire_connect : WireConnect
wire_connect = record { fields = connect_reply; wire_subs = ("a", some wire_result) ∷ [] }

abbrev a_wire_reply : Reply
a_wire_reply = record {
  error = none;
  connect = some wire_connect;
  subscribe = some wire_result;
  refresh = none;
  sub_refresh = none;
  rpc = none;
  history = none;
  presence = none;
  presence_stats = none;
}

checked_subscribe_lem_example :
    (x : WireResult SubscribeResult) × (answer (some wire_result) none ≡ some (ok x))
    × (map some (subscribe_result x).publications ≡ x.pubs)
unfolding malformed_reply malformed_result has_nil_publication
checked_subscribe_lem_example = checked_subscribe_lem a_wire_reply refl refl

checked_connect_lem_example :
    (x : WireConnect) × (answer (some wire_connect) none ≡ some (ok x))
    × (read_pubs (connect_result x).subs ≡ sent_pubs x.wire_subs)
unfolding malformed_reply malformed_subs malformed_result has_nil_publication
checked_connect_lem_example = checked_connect_lem a_wire_reply refl refl
