-- ===== src/Pool.antt =====
-- internal/pool/pool.go. The pool is the payloads that were put back; which of them `Get` gives out,
-- or whether it makes a new one, sync.Pool leaves open, so that it is an argument.
use xyllo.Base.{Bytes, ℕ, zero, suc, Option, none, some, List, [], ◌∷◌, get_elem?}

pub record Pooled : Type 0 where
  pub source : Bytes
  pub content : Bytes

-- The function `New` of the pool.
unfoldable pub new_pooled : Pooled
new_pooled = record { source = []; content = [] }

abbrev pub remove : ℕ → List Pooled → List Pooled
remove i [] = []
remove zero (p ∷ ps) = ps
remove (suc i) (p ∷ ps) = p ∷ remove i ps

abbrev pub or_new : Option Pooled → Pooled
or_new none = new_pooled
or_new (some p) = p

unfoldable pub get : ℕ → List Pooled → Pooled × List Pooled
get choice pool = (or_new (get_elem? pool choice), remove choice pool)

unfoldable pub put : Pooled → List Pooled → List Pooled
put p pool = record { source = []; content = [] } ∷ pool
