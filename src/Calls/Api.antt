-- ===== src/Calls/Api.antt =====
-- The calls of a client and of a subscription: `Send`, `RPC`, `Publish`, `History`, `Presence` and
-- `PresenceStats`, up to the wait for the result or the end of the context. A call that returns at
-- once returns the error here; the results of the others come to the client's results.
use centrifuge_go.Prelude.{ℕ, String, Bool, false, List, [], ◌∷◌, Option, none, some, if◌then◌else◌}
use centrifuge_go.Errors.{GoError, client_closed, subscription_unsubscribed}
use centrifuge_go.Protocol.{Slice, StreamPosition}
use centrifuge_go.Calls.{Context, on_connect}
use centrifuge_go.State.{
  Client, Frame, Env, Call, Request, HistoryOptions, is_closed, is_unsubscribed, send_req, rpc_req,
  publish_req, history_req, presence_req, presence_stats_req,
}
use centrifuge_go.Subscription.{on_subscribe}

-- `HistoryOption`, and the three that the package has.
abbrev pub HistoryOption : Type 0
HistoryOption = HistoryOptions → HistoryOptions

unfoldable pub with_history_since : Option StreamPosition → HistoryOption
with_history_since sp options = record options { since = sp }

unfoldable pub with_history_limit : ℕ → HistoryOption
with_history_limit limit options = record options { limit = limit }

unfoldable pub with_history_reverse : Bool → HistoryOption
with_history_reverse reverse options = record options { reverse = reverse }

-- The loop over `opts`.
unfoldable pub apply_options : List HistoryOption → HistoryOptions → HistoryOptions
apply_options [] options = options
apply_options (opt ∷ opts) options = apply_options opts (opt options)

abbrev no_options : HistoryOptions
no_options = record { limit = 0; since = none; reverse = false }

-- The part that the calls of a client share. `ticket` is the pair of channels that a call makes.
unfoldable pub client_call : Env → Context → Call → Client → Client × Option GoError
client_call env ctx call c =
    if is_closed c.state then (c, some client_closed) else (on_connect env ctx call c, none)

abbrev call_of : ℕ → Request → Call
call_of ticket request = record { ticket = ticket; request = request }

unfoldable pub send_data : Env → Context → ℕ → Slice → Client → Client × Option GoError
send_data env ctx ticket b c = client_call env ctx (call_of ticket (send_req b)) c

unfoldable pub rpc : Env → Context → ℕ → String → Slice → Client → Client × Option GoError
rpc env ctx ticket method b c = client_call env ctx (call_of ticket (rpc_req method b)) c

unfoldable pub publish : Env → Context → ℕ → String → Slice → Client → Client × Option GoError
publish env ctx ticket channel b c = client_call env ctx (call_of ticket (publish_req channel b)) c

unfoldable pub history :
    Env → Context → ℕ → String → List HistoryOption → Client → Client × Option GoError
history env ctx ticket channel opts c =
    client_call env ctx (call_of ticket (history_req channel (apply_options opts no_options))) c

unfoldable pub presence : Env → Context → ℕ → String → Client → Client × Option GoError
presence env ctx ticket channel c = client_call env ctx (call_of ticket (presence_req channel)) c

unfoldable pub presence_stats : Env → Context → ℕ → String → Client → Client × Option GoError
presence_stats env ctx ticket channel c =
    client_call env ctx (call_of ticket (presence_stats_req channel)) c

-- The part that the calls of a subscription share.
unfoldable pub sub_call : Call → Frame → Frame × Option GoError
sub_call call f =
    if is_unsubscribed f.sub.state
    then (f, some subscription_unsubscribed)
    else (on_subscribe call f, none)

unfoldable pub sub_publish : ℕ → Slice → Frame → Frame × Option GoError
sub_publish ticket b f = sub_call (call_of ticket (publish_req f.sub.channel b)) f

unfoldable pub sub_history : ℕ → List HistoryOption → Frame → Frame × Option GoError
sub_history ticket opts f =
    sub_call (call_of ticket (history_req f.sub.channel (apply_options opts no_options))) f

unfoldable pub sub_presence : ℕ → Frame → Frame × Option GoError
sub_presence ticket f = sub_call (call_of ticket (presence_req f.sub.channel)) f

unfoldable pub sub_presence_stats : ℕ → Frame → Frame × Option GoError
sub_presence_stats ticket f = sub_call (call_of ticket (presence_stats_req f.sub.channel)) f
