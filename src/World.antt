-- ===== src/World.antt =====
-- A client with the subscriptions that it made: the heap gives the subscription at each address.
use centrifuge_go.Prelude.{ℕ, String, List, [], ◌∷◌, ◌==◌, nat_key, if◌then◌else◌}
use centrifuge_go.State.{Client, Subscription, Frame}

pub record World : Type 0 where
  pub client : Client
  pub heap : ℕ → Subscription

abbrev pub update : (ℕ → Subscription) → ℕ → Subscription → ℕ → Subscription
update heap a s b = if a == b then s else heap b

abbrev pub frame : World → ℕ → Frame
frame w a = record { client = w.client; sub = w.heap a }

abbrev pub put : World → ℕ → Frame → World
put w a f = record { client = f.client; heap = update w.heap a f.sub }

-- A method of the subscription at an address.
unfoldable pub on_sub : ℕ → (Frame → Frame) → World → World
on_sub a op w = put w a (op (frame w a))

-- `for _, s := range c.subs { … }`.
unfoldable pub each_sub : (Frame → Frame) → List (String × ℕ) → World → World
each_sub op [] w = w
each_sub op ((channel, a) ∷ subs) w = each_sub op subs (on_sub a op w)

abbrev pub in_client : (Client → Client) → World → World
in_client g w = record w { client = g w.client }
