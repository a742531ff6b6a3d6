-- ===== src/Client/ServerSubs.antt =====
-- Server-side subscriptions: the pushes for them, and the connect reply that lists them.
use centrifuge_go.Prelude.{
  ℕ, String, Bool, false, List, [], ◌∷◌, Option, none, some, string_key, nat_key, ◌&&◌, ◌||◌, not,
  if◌then◌else◌, ltb, is_empty, is_nil, is_some, lookup, insert, delete,
}
use centrifuge_go.Protocol.{
  Slice, StreamPosition, WireInfo, WirePublication, SubscribeResult, info_from_proto,
  pub_from_proto,
}
use centrifuge_go.Effects.{notify}
use centrifuge_go.State.{
  Client, ServerSub, SubscribedEvent, on_server_publication, on_server_join, on_server_leave,
  on_server_subscribed, on_server_unsubscribed, deliver_server_recovered,
}
use centrifuge_go.Subscription.{subscribed_event}
use centrifuge_go.World.{World}
use centrifuge_go.Client.Teardown.{is_connected_attempt}

-- A publication with an offset moves the position; its epoch is taken only while none is known,
-- and only if the publication is of the channel itself.
unfoldable pub adopt_server_position : WirePublication → ServerSub → ServerSub
adopt_server_position p s =
    if ltb 0 p.offset
    then record s {
      offset = p.offset;
      epoch =
          if is_empty s.epoch && (not (is_empty p.epoch) && is_empty p.channel)
          then p.epoch
          else s.epoch;
    }
    else s

unfoldable pub handle_server_publication : String → WirePublication → Client → Client
unfolding adopt_server_position
handle_server_publication channel p c = elim (lookup channel c.server_subs) [
  | none ↦ c
  | some s ↦
      let s' = if s.recoverable then adopt_server_position p s else s in
      notify c.handlers.on_server_publication (on_server_publication channel (pub_from_proto p))
        (record c { server_subs = insert channel s' c.server_subs })
]

unfoldable pub handle_server_join : String → Option WireInfo → Client → Client
handle_server_join channel info c =
    if is_some (lookup channel c.server_subs)
    then notify c.handlers.on_server_join (on_server_join channel (info_from_proto info)) c
    else c

unfoldable pub handle_server_leave : String → Option WireInfo → Client → Client
handle_server_leave channel info c =
    if is_some (lookup channel c.server_subs)
    then notify c.handlers.on_server_leave (on_server_leave channel (info_from_proto info)) c
    else c

-- `protocol.Subscribe`, a push that starts a server-side subscription.
pub record SubscribePush : Type 0 where
  pub recoverable : Bool
  pub positioned : Bool
  pub offset : ℕ
  pub epoch : String
  pub data_bytes : Slice

server_sub_event : SubscribePush → SubscribedEvent
server_sub_event p = record {
  data_bytes = p.data_bytes;
  recovered = false;
  was_recovering = false;
  recoverable = p.recoverable;
  positioned = p.positioned;
  position =
      if p.positioned || p.recoverable
      then some (record { offset = p.offset; epoch = p.epoch })
      else none;
}

unfoldable pub handle_server_sub : String → SubscribePush → Client → Client
unfolding server_sub_event
handle_server_sub channel p c =
    let s : ServerSub = record {
      offset = p.offset;
      epoch = p.epoch;
      recoverable = p.recoverable;
    } in
    if is_some (lookup channel c.server_subs)
    then c
    else notify c.handlers.on_server_subscribe (on_server_subscribed channel (server_sub_event p))
        (record c { server_subs = insert channel s c.server_subs })

unfoldable pub handle_server_unsub : String → Client → Client
handle_server_unsub channel c =
    if is_some (lookup channel c.server_subs)
    then notify c.handlers.on_server_unsubscribed (on_server_unsubscribed (channel ∷ []))
        (record c { server_subs = delete channel c.server_subs })
    else c

-- What the connect reply makes of a subscription that is known already. With an empty epoch the
-- position known is kept; with publications the offset moves when they are delivered.
unfoldable pub renewed : SubscribeResult → ServerSub → ServerSub
renewed r s =
    let take_position = not (is_empty r.epoch) || is_empty s.epoch in
    record {
      offset = if take_position && is_nil r.publications then r.offset else s.offset;
      epoch = if take_position then r.epoch else s.epoch;
      recoverable = r.recoverable;
    }

unfoldable pub server_sub_after : SubscribeResult → Option ServerSub → ServerSub
unfolding renewed
server_sub_after r none = record { offset = r.offset; epoch = r.epoch; recoverable = r.recoverable }
server_sub_after r (some s) = renewed r s

-- One round of the loop over `res.Subs`.
unfoldable pub connect_server_sub : ℕ → String → SubscribeResult → Client → Client
unfolding server_sub_after
connect_server_sub attempt channel r c =
    let s = server_sub_after r (lookup channel c.server_subs) in
    let c1 = record c { server_subs = insert channel s c.server_subs } in
    let c2 =
      notify c.handlers.on_server_subscribe (on_server_subscribed channel (subscribed_event r))
        c1 in
    notify (not (is_nil r.publications)) (deliver_server_recovered channel attempt r.publications)
      c2

-- The subscriptions that the connect reply does not list are gone: the map without them, and the
-- channels of an event each.
unfoldable pub listed :
    List (String × SubscribeResult) → List (String × ServerSub) → List (String × ServerSub)
listed replies [] = []
listed replies ((channel, s) ∷ subs) =
    let rest = listed replies subs in
    if is_some (lookup channel replies) then (channel, s) ∷ rest else rest

unfoldable pub unlisted : List (String × SubscribeResult) → List (String × ServerSub) → List String
unlisted replies [] = []
unlisted replies ((channel, s) ∷ subs) =
    let rest = unlisted replies subs in
    if is_some (lookup channel replies) then rest else channel ∷ rest

unfoldable pub report_unsubscribed : List String → Client → Client
report_unsubscribed [] c = c
report_unsubscribed (channel ∷ rest) c =
    report_unsubscribed rest
      (notify c.handlers.on_server_unsubscribed (on_server_unsubscribed (channel ∷ [])) c)

unfoldable pub remove_unlisted : List (String × SubscribeResult) → Client → Client
unfolding listed
remove_unlisted replies c =
    report_unsubscribed (unlisted replies c.server_subs)
      (record c { server_subs = listed replies c.server_subs })

-- The queued function that delivers the publications recovered by a connect. `handle` is the
-- OnPublication handler, with all that happens while it runs.
unfoldable pub deliver_server :
    (WirePublication → World → World) → ℕ → String → List WirePublication → World → World
unfolding adopt_server_position
deliver_server handle attempt channel [] w = w
deliver_server handle attempt channel (p ∷ ps) w =
    let c = w.client in
    let moved = λ (s : ServerSub). record w {
      client = record c { server_subs = insert channel (adopt_server_position p s) c.server_subs };
    } in
    let last = λ (s : ServerSub).
      deliver_server handle attempt channel ps
        (if c.handlers.on_server_publication then handle p (moved s) else moved s) in
    elim (lookup channel c.server_subs) [
      | none ↦ w
      | some s ↦ if is_connected_attempt attempt c then last s else w
    ]

-- The positions that the connect command asks to recover from.
unfoldable pub recover_positions : List (String × ServerSub) → List (String × StreamPosition)
recover_positions [] = []
recover_positions ((channel, s) ∷ subs) =
    let rest = recover_positions subs in
    if s.recoverable then (channel, record { offset = s.offset; epoch = s.epoch }) ∷ rest else rest
