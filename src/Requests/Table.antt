-- ===== src/Requests/Table.antt =====
-- What the request table and the command ids guarantee to a caller of `sendAsync`.
use centrifuge_go.Prelude.{
  ℕ, ◌+◌, ◌<◌, List, Option, none, some, ◌≡◌, refl, ◌≢◌, ◌⊎◌, inl, inr, arith, ◌==◌, ◌++◌, Bool,
  false, [], ◌∷◌, nat_key, if◌then◌else◌, u32, lookup, insert, is_some, lookup-insert,
  lookup-delete, lookup-insert_self, Option-cases,
}
use mathlib.Core.List.{append-nil}
use centrifuge_go.Errors.{GoError, client_disconnected}
use centrifuge_go.Effects.{spawn}
use centrifuge_go.State.{Client, Env, Command, Pending, Callback, ReplyResult}
use centrifuge_go.Requests.{
  next_id, next_cmd_id, add_request, pop_request, send_on, send, async_sent, send_async,
  send_async_on, reply_result_of,
}

-- A new command id is never zero, fits in 32 bits, is the successor of the last id except that zero
-- is skipped, and is remembered as the last id.
pub next_cmd_id_lem :
    (c : Client)
    → ((next_cmd_id c).0 ≢ 0)
      × ((next_cmd_id c).0 < 4294967296)
      × (((next_cmd_id c).0 ≡ u32 (c.cmd_id + 1))
          ⊎ (u32 (c.cmd_id + 1) ≡ 0) × ((next_cmd_id c).0 ≡ 1))
      × ((next_cmd_id c).1.cmd_id ≡ (next_cmd_id c).0)
unfolding next_cmd_id next_id
next_cmd_id_lem c = ground arith

send_on-requests :
    (env : Env) (t : ℕ) (cmd : Command) (c : Client) → (send_on env t cmd c).0.requests ≡ c.requests
unfolding send_on spawn
send_on-requests env t cmd c = ground arith

send-requests : (env : Env) (cmd : Command) (c : Client) → (send env cmd c).0.requests ≡ c.requests
unfolding send
send-requests env cmd c = elim (Option-cases c.transport) [
  | inl n ↦ ground (arith, n)
  | inr (t, n) ↦ ground (arith, n, send_on-requests env t cmd c)
]

async_sent-lookup :
    (k id : ℕ) (x : Pending) (m : List (ℕ × Pending)) (r : Client × Option GoError)
    → r.0.requests ≡ insert id x m
    → lookup k (async_sent id r).0.requests
      ≡ (if id == k then (if is_some (async_sent id r).1 then none else some x) else lookup k m)
unfolding async_sent pop_request spawn
async_sent-lookup k id x m (c, none) h = ground (arith, h, lookup-insert id k x m)
async_sent-lookup k id x m (c, some e) h =
    ground
      (arith, h, lookup-delete id k c.requests, lookup-insert id k x m, lookup-insert_self id x m)

-- The table after `sendAsync`, by the error that it returns.
pub send_async-lookup :
    (env : Env) (cmd : Command) (cb : Callback) (c : Client) (k : ℕ)
    → lookup k (send_async env cmd cb c).0.requests ≡ (
        if cmd.id == k
        then (if is_some (send_async env cmd cb c).1
            then none
            else some (record { cb = cb; result = reply_result_of cmd.request }))
        else lookup k c.requests)
unfolding send_async send_async_on add_request
send_async-lookup env cmd cb c k =
    async_sent-lookup k cmd.id (record { cb = cb; result = reply_result_of cmd.request }) c.requests
      (send env cmd (add_request cmd.id (reply_result_of cmd.request) cb c))
      (send-requests env cmd (add_request cmd.id (reply_result_of cmd.request) cb c))

-- Whether the client has a transport that takes the command.
abbrev pub takes : Env → Command → Client → Bool
takes env cmd c = elim c.transport [ none ↦ false | some t ↦ env.write_ok t cmd ]

unfoldable pub written_by : Env → Command → Client → List (ℕ × Command)
written_by env cmd c = elim c.transport [
  | none ↦ []
  | some t ↦ if env.write_ok t cmd then (t, cmd) ∷ [] else []
]

add_request-transport :
    (id : ℕ) (result : ReplyResult) (cb : Callback) (c : Client)
    → ((add_request id result cb c).transport ≡ c.transport)
      × ((add_request id result cb c).written ≡ c.written)
unfolding add_request
add_request-transport id result cb c = (refl, refl)

-- `sendAsync` succeeds just when the client has a transport and the write to it does. Then the
-- command is the last one written to that transport, and the table holds its callback and the result
-- it expects. Otherwise nothing is written, the error says that the client is disconnected, and the
-- table holds nothing for the command. The other ids are as before.
pub send_async_lem :
    (env : Env) (cmd : Command) (cb : Callback) (c : Client) (k : ℕ)
    → ((send_async env cmd cb c).1 ≡ (if takes env cmd c then none else some client_disconnected))
      × ((send_async env cmd cb c).0.written ≡ c.written ++ written_by env cmd c)
      × (lookup k (send_async env cmd cb c).0.requests ≡ (
          if cmd.id == k
          then (if takes env cmd c
              then some (record { cb = cb; result = reply_result_of cmd.request })
              else none)
          else lookup k c.requests))
unfolding send_async send_async_on add_request send send_on async_sent pop_request spawn written_by
send_async_lem env cmd cb c k =
    let found = send_async-lookup env cmd cb c k in
    let p : Pending = record { cb = cb; result = reply_result_of cmd.request } in
    elim (Option-cases c.transport) [
      | inl n ↦
          ground (arith, n, found, lookup-insert_self cmd.id p c.requests, append-nil c.written)
      | inr (t, n) ↦
          ground (arith, n, found, lookup-insert_self cmd.id p c.requests, append-nil c.written)
    ]
