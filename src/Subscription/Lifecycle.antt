-- ===== src/Subscription/Lifecycle.antt =====
-- The lifecycle that a subscription promises to its application, as a machine that reads the queued
-- events: subscribing, subscribed and unsubscribed take their turns, and publications, joins and
-- leaves come only while subscribed.
pub mod Quiet
pub mod Moves
pub mod Waits
pub mod Sessions
pub mod Refreshes
pub mod Runs
use centrifuge_go.Prelude.{
  String, Bool, true, false, List, [], ◌∷◌, ◌++◌, Option, none, some, ◌≡◌, refl, arith, ◌==◌,
  string_key, if◌then◌else◌,
}
use centrifuge_go.State.{
  Client, Frame, Event, SubState, unsubscribed, subscribing, subscribed, on_subscribing,
  on_subscribed, on_unsubscribed, on_publication, on_join, on_leave,
}

starts : SubState → Option SubState
starts unsubscribed = some subscribing
starts subscribed = some subscribing
starts subscribing = none

succeeds : SubState → Option SubState
succeeds subscribing = some subscribed
succeeds _ = none

ends : SubState → Option SubState
ends unsubscribed = none
ends _ = some unsubscribed

delivers_in : SubState → Option SubState
delivers_in subscribed = some subscribed
delivers_in _ = none

-- One event; events of other channels, errors and queued deliveries do not move the machine.
unfoldable pub tell : String → SubState → Event → Option SubState
unfolding starts succeeds ends delivers_in
tell channel s (on_subscribing c code reason) = if c == channel then starts s else some s
tell channel s (on_subscribed c e) = if c == channel then succeeds s else some s
tell channel s (on_unsubscribed c code reason) = if c == channel then ends s else some s
tell channel s (on_publication c p) = if c == channel then delivers_in s else some s
tell channel s (on_join c info) = if c == channel then delivers_in s else some s
tell channel s (on_leave c info) = if c == channel then delivers_in s else some s
tell channel s _ = some s

-- `none` once an event came out of turn.
unfoldable pub told : String → Option SubState → List Event → Option SubState
told channel s [] = s
told channel none (e ∷ events) = none
told channel (some s) (e ∷ events) = told channel (tell channel s e) events

after : String → Option SubState → Event → Option SubState
after channel none e = none
after channel (some s) e = tell channel s e

told-append :
    (channel : String) (s : Option SubState) (events : List Event) (e : Event)
    → told channel s (events ++ (e ∷ [])) ≡ after channel (told channel s events) e
unfolding told after
told-append channel none [] e = refl
told-append channel (some s) [] e = refl
told-append channel none (x ∷ events) e = refl
told-append channel (some s) (x ∷ events) e = told-append channel (tell channel s x) events e

-- The events queued so far tell the state that the subscription is in. The handlers of the lifecycle
-- are set, and the queue is open.
pub record IsTold (f : Frame) : Type 0 where
  pub tells : told f.sub.channel (some unsubscribed) f.client.events ≡ some f.sub.state
  pub hears_subscribing : f.sub.handlers.on_subscribing ≡ true
  pub hears_subscribed : f.sub.handlers.on_subscribed ≡ true
  pub hears_unsubscribed : f.sub.handlers.on_unsubscribed ≡ true
  pub open_queue : f.client.queue_closed ≡ false

-- What a method may rely on for the time that it waits.
abbrev pub KeepsTold : (Frame → Frame) → Type 0
KeepsTold g = (f : Frame) → IsTold f → IsTold (g f)

-- One more event that the machine takes.
pub told-next :
    (channel : String) (events : List Event) (e : Event) (s t : SubState)
    → told channel (some unsubscribed) events ≡ some s
    → tell channel s e ≡ some t
    → told channel (some unsubscribed) (events ++ (e ∷ [])) ≡ some t
unfolding after
told-next channel events e s t h k =
    ground (arith, told-append channel (some unsubscribed) events e, h, k)
