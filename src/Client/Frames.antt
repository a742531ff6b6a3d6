-- ===== src/Client/Frames.antt =====
-- The way of the server's frames from a websocket to the client.
use centrifuge_go.Prelude.{ℕ, List, [], ◌∷◌}
use centrifuge_go.Calls.{Context}
use centrifuge_go.State.{Env}
use centrifuge_go.Transport.{reader as transport_reader}
use centrifuge_go.World.{World}
use centrifuge_go.Client.{ServerReply, Waits, handle, reader}

-- The frames handled one after the other.
pub handle_all : Env → (ServerReply → Context × Waits) → ℕ → List ServerReply → World → World
handle_all env scene t [] w = w
handle_all env scene t (r ∷ rs) w =
    handle_all env scene t rs (handle env (scene r).0 (scene r).1 t r w)
