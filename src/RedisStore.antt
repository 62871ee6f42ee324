-- ===== src/RedisStore.antt =====
-- internal/redisstore/redisstore.go. What the Redis client answers is an argument; the arguments of
-- the calls to it are what these functions are called with.
use xyllo.Base.{ℤ, Bytes, codes, ◌==◌, ◌++◌, Option, none, some, List, [], ◌∷◌, if◌then◌else◌}
use xyllo.Config.{RedisConfig}
use xyllo.Xlerr.{Error, wrapped, quote, error_text}

-- A value of a message's field: a string, a byte slice, or something else.
pub data FieldValue : Type 0 where
  text : Bytes → FieldValue
  slice : Bytes → FieldValue
  other : FieldValue

pub record Message : Type 0 where
  pub id : Bytes
  pub values : List (Bytes × FieldValue)

abbrev pub busy_group_err : Bytes
busy_group_err = codes "BUSYGROUP Consumer Group name already exists"

-- After XGROUP CREATE MKSTREAM, which answers with an error or with none.
unfoldable pub create_consumer_group : Bytes → Bytes → Option Error → Option Error
create_consumer_group stream group none = none
create_consumer_group stream group (some err) =
    if error_text err == busy_group_err
    then none
    else some (
        wrapped
          (codes "redisstore: create group "
            ++ quote group
            ++ codes " on "
            ++ quote stream
            ++ codes ": ")
          err)

-- The answer to XREADGROUP: redis.Nil, another error, or the streams with their messages.
pub data Reply : Type 0 where
  nothing : Reply
  refused : Error → Reply
  streams : List (Bytes × List Message) → Reply

pub data Read : Type 0 where
  messages : List Message → Read
  read_error : Error → Read

unfoldable pub x_read_group : Bytes → Reply → Read
x_read_group stream nothing = messages []
x_read_group stream (refused err) =
    read_error (wrapped (codes "redisstore: XREADGROUP on " ++ quote stream ++ codes ": ") err)
x_read_group stream (streams []) = messages []
x_read_group stream (streams ((name, msgs) ∷ rest)) = messages msgs

-- The options that the go-redis client is made with.
pub record Client : Type 0 where
  pub addr : Bytes
  pub password : Bytes
  pub db : ℤ

pub data Dialled : Type 0 where
  connected : Client → Dialled
  ping_failed : Error → Dialled

-- The error of the PING, if there is one, is the first argument. Then the client is closed and lost.
unfoldable pub new_client : Option Error → RedisConfig → Dialled
new_client none cfg = connected (record { addr = cfg.addr; password = cfg.password; db = cfg.db })
new_client (some err) cfg =
    ping_failed (wrapped (codes "redisstore: ping " ++ quote cfg.addr ++ codes ": ") err)

-- The values of the message that XAdd appends.
abbrev pub x_add_values : Bytes → List (Bytes × FieldValue)
x_add_values content = (codes "data", slice content) ∷ []
