-- ===== src/System.antt =====
-- How the parts run together: one dispatcher, fed by the HTTP server and by the consumers of the
-- Redis streams, as main wires them. Each handler and each step of a worker is one event; they come
-- in any order.
pub mod Outcomes
pub mod Accounts
pub mod Drained
pub mod Ingested
pub mod Streamed
mod Tests
use xyllo.Base.{Bytes, Bool, true, false, ℕ, ltb, length, Option, none, some, List, [], ◌∷◌}
use xyllo.Config.{RedisConfig}
use xyllo.Auth.{JwtLibrary}
use xyllo.Json.Numbers.{◌>>=◌}
use xyllo.Dispatcher.{Dispatcher, Payload, Action, step}
use xyllo.Ingestor.{Server, Request, Response, Chance, serve}
use xyllo.RedisStore.{Message}
use xyllo.StreamIngestor.{Ack, Consumer, Draw, stream_key, handle_message}

pub record System : Type 0 where
  pub server : Server
  pub redis : RedisConfig
  pub acked : List Ack

-- A request, a message of a region's stream, or an action of the dispatcher.
pub data Happening : Type 0 where
  requests : Chance → Request → Happening
  receives : Bytes → Message → Draw → Happening
  acts : Action → Happening

-- What the outside sees of it: the response, the message of a region's stream and whether it was
-- acknowledged, or the payloads that a direct call of Submit has put into the buffer.
pub data Outcome : Type 0 where
  answered : Response → Outcome
  consumed : Bytes → Message → Bool → Outcome
  moved : List Payload → Outcome

-- The consumers work on the server's dispatcher and translators.
abbrev pub consumer_of : System → Consumer
consumer_of s = record { cfg = s.redis; disp = s.server.disp; reg = s.server.reg; acked = s.acked }

after_answer : System → Server × Response → System × Outcome
after_answer s (server, response) = (record s { server = server }, answered response)

after_message : Bytes → Message → System → Consumer → System × Outcome
after_message region msg s c = (
  record s { server = record s.server { disp = c.disp }; acked = c.acked },
  consumed region msg (ltb (length s.acked) (length c.acked)),
)

after_action : System → Dispatcher × List Payload → System × Outcome
after_action s (d, ps) = (record s { server = record s.server { disp = d } }, moved ps)

abbrev map_option {ℓ κ} : {A : Type ℓ} {B : Type κ} → (A → B) → Option A → Option B
map_option f none = none
map_option f (some a) = some (f a)

module _ (jwt : JwtLibrary) where
  unfoldable pub happen : Happening → System → Option (System × Outcome)
  unfolding after_answer after_message after_action
  happen (requests chance request) s =
      map_option (after_answer s) (serve jwt chance request s.server)
  happen (receives region msg draw) s =
      map_option (after_message region msg s)
        (handle_message (stream_key s.redis region) region msg draw (consumer_of s))
  happen (acts a) s = map_option (after_action s) (step a s.server.disp)

  abbrev then_happen : Outcome → Option (System × List Outcome) → Option (System × List Outcome)
  then_happen o none = none
  then_happen o (some (s, os)) = some (s, o ∷ os)

  -- A run: one event after another, with what each of them shows.
  unfoldable pub history : List Happening → System → Option (System × List Outcome)
  unfolding happen
  history [] s = some (s, [])
  history (h ∷ rest) s = happen h s >>= λ (s', o). then_happen o (history rest s')
