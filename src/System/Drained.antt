-- ===== src/System/Drained.antt =====
-- The end of a history: Shutdown has returned.
use xyllo.Batcher.{Batcher}
use xyllo.Dlq.{Dlq}
use xyllo.System.{System}
