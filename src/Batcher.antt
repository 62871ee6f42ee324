-- ===== src/Batcher.antt =====
-- internal/batcher/batcher.go.
-- `exported` records, oldest first, each batch that `Flush` takes out of the buffer: the source
-- holds it in the local variable `batch`, where the upstream call is still a placeholder.
pub mod Laws
mod Tests
use xyllo.Base.{
  Bytes, Bool, true, false, not, Option, none, some, List, [], ◌∷◌, ◌++◌, length, ℤ, pos, ltb_ℤ,
  if◌then◌else◌,
}
use xyllo.Config.{BatcherConfig}

abbrev pub Batch : Type 0
Batch = List Bytes

pub record Batcher : Type 0 where
  pub cfg : BatcherConfig
  pub buf : Batch
  pub exported : List Batch
  pub ticking : Bool

-- `time.NewTicker` panics unless the interval is positive: `none`.
unfoldable pub new : BatcherConfig → Option Batcher
new cfg =
    if ltb_ℤ (pos 0) cfg.flush_interval
    then some (record { cfg = cfg; buf = []; exported = []; ticking = true })
    else none

-- The part of `Add` under the lock: the new state, and the test that a flush follows.
unfoldable pub append_locked : Bytes → Batcher → Batcher × Bool
append_locked entry b =
    let buf' = b.buf ++ entry ∷ [] in
    (record b { buf = buf' }, not (ltb_ℤ (pos (length buf')) b.cfg.max_size))

flush_buf : Batch → Batcher → Batcher
flush_buf [] b = b
flush_buf (x ∷ xs) b = record b { buf = []; exported = b.exported ++ (x ∷ xs) ∷ [] }

unfoldable pub flush : Batcher → Batcher
unfolding flush_buf
flush b = flush_buf b.buf b

-- `Add`, when no other goroutine comes between its lock and its flush.
unfoldable pub add : Bytes → Batcher → Batcher
unfolding append_locked flush
add entry b = let (b', full) = append_locked entry b in if full then flush b' else b'

unfoldable pub stop : Batcher → Batcher
stop b = record b { ticking = false }

-- Everything that the batcher was given and still answers for, oldest first.
unfoldable pub add_all : List Bytes → Batcher → Batcher
add_all [] b = b
add_all (x ∷ xs) b = add_all xs (add x b)
