-- ===== src/Client/Reports.antt =====
-- What a teardown does to the registered subscriptions.
use centrifuge_go.Prelude.{nat_key, string_key}
use centrifuge_go.State.{Subscription}
use centrifuge_go.World.{World}
