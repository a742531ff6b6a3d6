-- ===== src/Errors.antt =====
-- errors.go, and the `Error` type of protocol.go: the errors that the client makes and inspects.
use centrifuge_go.Prelude.{
  ℕ, String, Bool, true, false, Option, none, some, ◌≡◌, refl, ◌⊎◌, inl, inr,
}

-- `Error` of protocol.go: an error that the server sent. `code` is a uint32.
pub record ServerError : Type 0 where
  pub code : ℕ
  pub message : String
  pub temporary : Bool

-- The sentinels, the wrappers, and `other` for any error of another package.
pub data GoError : Type 0 where
  timeout client_disconnected client_closed : GoError
  subscription_unsubscribed duplicate_subscription unauthorized : GoError
  server_error : ServerError → GoError
  transport_error connect_error refresh_error configuration_error : GoError → GoError
  subscribe_error get_state_error sub_refresh_error : GoError → GoError
  delta_error : String → ℕ → GoError → GoError
  other : String → GoError

-- The `Unwrap` methods.
unfoldable pub unwrap : GoError → Option GoError
unwrap (transport_error e) = some e
unwrap (connect_error e) = some e
unwrap (refresh_error e) = some e
unwrap (configuration_error e) = some e
unwrap (subscribe_error e) = some e
unwrap (get_state_error e) = some e
unwrap (sub_refresh_error e) = some e
unwrap (delta_error channel offset e) = some e
unwrap _ = none

-- `errors.Is(err, ErrTimeout)` and `errors.Is(err, ErrUnauthorized)`, which follow `Unwrap`.
unfoldable pub is_timeout : GoError → Bool
is_timeout timeout = true
is_timeout (transport_error e) = is_timeout e
is_timeout (connect_error e) = is_timeout e
is_timeout (refresh_error e) = is_timeout e
is_timeout (configuration_error e) = is_timeout e
is_timeout (subscribe_error e) = is_timeout e
is_timeout (get_state_error e) = is_timeout e
is_timeout (sub_refresh_error e) = is_timeout e
is_timeout (delta_error channel offset e) = is_timeout e
is_timeout _ = false

unfoldable pub is_unauthorized : GoError → Bool
is_unauthorized unauthorized = true
is_unauthorized (transport_error e) = is_unauthorized e
is_unauthorized (connect_error e) = is_unauthorized e
is_unauthorized (refresh_error e) = is_unauthorized e
is_unauthorized (configuration_error e) = is_unauthorized e
is_unauthorized (subscribe_error e) = is_unauthorized e
is_unauthorized (get_state_error e) = is_unauthorized e
is_unauthorized (sub_refresh_error e) = is_unauthorized e
is_unauthorized (delta_error channel offset e) = is_unauthorized e
is_unauthorized _ = false

-- `errors.As(err, &serverError)`.
unfoldable pub as_server_error : GoError → Option ServerError
as_server_error (server_error e) = some e
as_server_error (transport_error e) = as_server_error e
as_server_error (connect_error e) = as_server_error e
as_server_error (refresh_error e) = as_server_error e
as_server_error (configuration_error e) = as_server_error e
as_server_error (subscribe_error e) = as_server_error e
as_server_error (get_state_error e) = as_server_error e
as_server_error (sub_refresh_error e) = as_server_error e
as_server_error (delta_error channel offset e) = as_server_error e
as_server_error _ = none

-- A result of the model, where the source returns a value and an error.
pub data Result {ℓ} (A : Type ℓ) : Type ℓ where
  ok : A → Result A
  err : GoError → Result A

pub Result-cases {ℓ} :
    {A : Type ℓ} (r : Result A) → ((a : A) × (r ≡ ok a)) ⊎ ((e : GoError) × (r ≡ err e))
Result-cases (ok a) = inl (a, refl)
Result-cases (err e) = inr (e, refl)
