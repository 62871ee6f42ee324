-- ===== src/Batcher/Tests.antt =====
-- Runs of the batcher with the limit 2.
use xyllo.Base.{Bytes, codes, true, pos, List, [], ◌∷◌, ◌++◌, flatten, ◌≡◌, refl, arith}
use xyllo.Config.{BatcherConfig}
use xyllo.Batcher.{Batcher, new, add, add_all}
use xyllo.Batcher.Laws.{IsFilled, add_all-batches}

abbrev pairs : BatcherConfig
pairs = record { max_size = pos 2; flush_interval = pos 2000000000 }

abbrev fresh : Batcher
fresh = record { cfg = pairs; buf = []; exported = []; ticking = true }

abbrev three : List Bytes
three = codes "a" ∷ codes "b" ∷ codes "c" ∷ []

three_added :
    add_all three fresh
    ≡ record fresh { buf = codes "c" ∷ []; exported = (codes "a" ∷ codes "b" ∷ []) ∷ [] }
unfolding add_all add
three_added = refl

add_all-batches_example :
    IsFilled 2 (add_all three fresh)
    × (flatten (add_all three fresh).exported ++ (add_all three fresh).buf ≡ three)
unfolding new
add_all-batches_example = add_all-batches pairs 2 fresh three refl (omega arith) refl
