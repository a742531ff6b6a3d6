-- ===== src/Client/Start.antt =====
-- A client and its subscriptions from their creation on.
use centrifuge_go.Prelude.{
  ℕ, ◌<◌, String, Bool, List, [], ◌∷◌, Option, none, some, ◌≡◌, arith, inl, inr, Option-cases,
  Bool-cases, length, subst, sym, string_key, nat_key, lookup, ◌∙◌, is_some, false, refl, ◌&&◌,
  ◌||◌, not, ◌==◌, if◌then◌else◌, lookup-insert,
}
use centrifuge_go.State.{Client, Frame, Env, uses_delta}
use centrifuge_go.Subscription.{
  Ops, SubscriptionConfig, make_subscription, bare_subscription, run_all,
}
use centrifuge_go.Subscription.Soundness.{IsSound}
use centrifuge_go.Subscription.Soundness.Runs.{run_all-IsSound}
use centrifuge_go.World.{World}
use centrifuge_go.Client.{
  Config, new_client, initial_client, split_endpoint, in_front, all_supported, with_defaults,
  ClientOps, steps, create_subscription, new_subscription, conflicts,
}
use centrifuge_go.Client.Consistency.{IsConsistent}
use centrifuge_go.Client.Consistency.Runs.{StepsFit, steps-IsConsistent}

in_front-length : (c : _) (endpoints : List String) → 0 < length (in_front c endpoints)
in_front-length c [] = omega arith
in_front-length c (e ∷ endpoints) = ground arith

split_endpoint-length : (s : String) → 0 < length (split_endpoint s)
unfolding split_endpoint
split_endpoint-length String.[] = omega arith
split_endpoint-length (String.◌∷◌ c s) = ground (arith, in_front-length c (split_endpoint s))

new_client-made :
    (endpoint : String) (is_protobuf : Bool) (config : Config) (c : Client)
    → new_client endpoint is_protobuf config ≡ some c
    → initial_client (length (split_endpoint endpoint)) is_protobuf (with_defaults config) ≡ c
unfolding new_client
new_client-made endpoint is_protobuf config c h =
    elim (Bool-cases (all_supported (split_endpoint endpoint))) [
      | inl y ↦ ground (arith, y, h)
      | inr n ↦ ground (arith, n, h)
    ]

initial_client-IsConsistent :
    (endpoints : ℕ) (is_protobuf : Bool) (config : Config)
    → IsConsistent (initial_client endpoints is_protobuf config)
unfolding initial_client
initial_client-IsConsistent endpoints is_protobuf config = ground arith

-- A client that `newClient` made has an endpoint to choose from, and is consistent after whatever the
-- application, the server, the timers and the goroutines do to it and its subscriptions. What is done
-- to the client outside of the operations, while a subscription waits, keeps it consistent.
pub new_client-IsConsistent :
    (env : Env) (endpoint : String) (is_protobuf : Bool) (config : Config) (c : Client) (w : World)
    (ops : ClientOps)
    → new_client endpoint is_protobuf config ≡ some c
    → w.client ≡ c
    → StepsFit ops
    → (0 < c.endpoints) × IsConsistent (steps env ops w).client
unfolding initial_client
new_client-IsConsistent env endpoint is_protobuf config c w ops h e q =
    let made = new_client-made endpoint is_protobuf config c h in
    let n = length (split_endpoint endpoint) in
    let start = initial_client-IsConsistent n is_protobuf (with_defaults config) in
    (
      subst (λ d. 0 < d.endpoints) made (split_endpoint-length endpoint),
      steps-IsConsistent env ops w q (subst IsConsistent (made ∙ sym e) start),
    )

make_subscription-IsSound :
    (a : ℕ) (channel : String) (config : Option SubscriptionConfig)
    → IsSound (make_subscription a channel config)
unfolding make_subscription bare_subscription
make_subscription-IsSound a channel none = ground arith
make_subscription-IsSound a channel (some config) = ground arith

-- Delta compression and a tags filter do not go together.
abbrev has_both : Option SubscriptionConfig → Bool
has_both none = false
has_both (some config) = is_some config.tags_filter && uses_delta config.delta_type

-- Why `NewSubscription` refuses: the channel has a subscription, or the options do not go together.
unfoldable pub is_refused : String → Option SubscriptionConfig → Client → Bool
is_refused channel config c = is_some (lookup channel c.subs) || has_both config

has_both-conflicts : (config : Option SubscriptionConfig) → conflicts config ≡ has_both config
has_both-conflicts none = refl
has_both-conflicts (some config) = refl

created :
    (channel : String) (config : Option SubscriptionConfig) (a b : ℕ) (k : String) (w : World)
    → (is_some (create_subscription channel config a w).1 ≡ is_refused channel config w.client)
      × (lookup k (create_subscription channel config a w).0.client.subs ≡ (
          if not (is_refused channel config w.client) && (channel == k)
          then some a
          else lookup k w.client.subs))
      × ((create_subscription channel config a w).0.heap b ≡ (
          if not (is_refused channel config w.client) && (b == a)
          then make_subscription a channel config
          else w.heap b))
unfolding create_subscription new_subscription is_refused
created channel config a b k w =
    let same = has_both-conflicts config in
    elim (Option-cases (lookup channel w.client.subs)) [
      | inl n ↦ ground (arith, n, same, lookup-insert channel k a w.client.subs)
      | inr (x, n) ↦ ground (arith, n, same)
    ]

-- `NewSubscription` refuses just when the channel has a subscription already, or the options ask for
-- delta compression and a tags filter. It then changes no entry of the registry and no subscription;
-- otherwise it registers a new subscription at the channel, and the other entries and the other
-- subscriptions stay. The timers, the waiting calls and the numeric channel id of a new subscription
-- agree with its state after every interleaving of operations.
pub create_subscription_lem :
    (env : Env) (channel : String) (config : Option SubscriptionConfig) (a b : ℕ) (k : String)
    (w : World) (ops : Ops)
    → (is_some (create_subscription channel config a w).1 ≡ is_refused channel config w.client)
      × (lookup k (create_subscription channel config a w).0.client.subs ≡ (
          if not (is_refused channel config w.client) && (channel == k)
          then some a
          else lookup k w.client.subs))
      × ((create_subscription channel config a w).0.heap b ≡ (
          if not (is_refused channel config w.client) && (b == a)
          then make_subscription a channel config
          else w.heap b))
      × IsSound
          (run_all env ops
            (record { client = w.client; sub = make_subscription a channel config })).sub
create_subscription_lem env channel config a b k w ops =
    let made = created channel config a b k w in
    let f : Frame = record { client = w.client; sub = make_subscription a channel config } in
    (made.0, made.1, made.2, run_all-IsSound env ops f (make_subscription-IsSound a channel config))
