-- ===== src/Batcher/Laws.antt =====
-- What the batcher keeps: the order and number of its payloads, and the size of its batches.
use mathlib.Core.List.{append-nil, append_assoc}
use xyllo.Base.{
  Bytes, true, false, ◌≡◌, refl, ap, ◌∙◌, sym, some, List, [], ◌∷◌, ◌++◌, flatten, length, All,
  length-append, flatten-concat, All-concat, ℕ, pos, ◌≤◌, ◌<◌, ◌+◌, arith, Bool-cases, inl, inr,
  ◌↔◌, ◌≡⟨◌⟩◌, ◌∎,
}
use xyllo.Config.{BatcherConfig}
use xyllo.Batcher.{Batch, Batcher, new, append_locked, flush_buf, flush, add, add_all}

-- Everything that the batcher has been given: the batches taken out, then what waits.
abbrev pub contents : Batcher → List Bytes
contents b = flatten b.exported ++ b.buf

flush_buf-contents :
    (xs : Batch) (b : Batcher) → b.buf ≡ xs → contents (flush_buf xs b) ≡ contents b
unfolding flush_buf
flush_buf-contents [] b e = refl
flush_buf-contents (x ∷ xs) b e = rw (e, flatten-concat, append-nil)

pub flush-contents : (b : Batcher) → contents (flush b) ≡ contents b
unfolding flush
flush-contents b = flush_buf-contents b.buf b refl

pub append_locked-contents :
    (entry : Bytes) (b : Batcher) → contents (append_locked entry b).0 ≡ contents b ++ entry ∷ []
unfolding append_locked
append_locked-contents entry b = sym (append_assoc (flatten b.exported) b.buf (entry ∷ []))

-- `Add` loses nothing, and keeps the order.
pub add-contents : (entry : Bytes) (b : Batcher) → contents (add entry b) ≡ contents b ++ entry ∷ []
unfolding add
add-contents entry b = elim (Bool-cases (append_locked entry b).1) [
  | inl full ↦ rw full (flush-contents (append_locked entry b).0 ∙ append_locked-contents entry b)
  | inr room ↦ rw room (append_locked-contents entry b)
]

-- The invariant of a batcher with the limit `m`: the buffer has room, and every batch is full.
pub record IsFilled (m : ℕ) (b : Batcher) : Type 0 where
  pub limit : b.cfg.max_size ≡ pos m
  pub room : length b.buf < m
  pub full : All (λ batch. length batch ≡ m) b.exported

flush_buf-IsFilled :
    (m : ℕ) (b : Batcher) (xs : Batch)
    → b.cfg.max_size ≡ pos m
    → 0 < m
    → length xs ≡ m
    → All (λ batch. length batch ≡ m) b.exported
    → IsFilled m (flush_buf xs b)
unfolding flush_buf
flush_buf-IsFilled m b [] l p e f = absurd (omega arith)
flush_buf-IsFilled m b (x ∷ xs) l p e f = record {
  limit = l;
  room = p;
  full = All-concat _ b.exported (x ∷ xs) f e;
}

module _ (m : ℕ) (entry : Bytes) (b : Batcher) (limit : b.cfg.max_size ≡ pos m) where
  -- The test of `Add` is true exactly when the buffer has reached the limit.
  pub append_locked-full_iff :
      ((append_locked entry b).1 ≡ true) ↔ (m ≤ length (append_locked entry b).0.buf)
  unfolding append_locked
  append_locked-full_iff = ground arith

  pub append_locked-room :
      (append_locked entry b).1 ≡ false → length (append_locked entry b).0.buf < m
  unfolding append_locked
  append_locked-room h = ground arith

  pub length-append_locked : length (append_locked entry b).0.buf ≡ length b.buf + 1
  unfolding append_locked
  length-append_locked = omega (arith, length-append b.buf (entry ∷ []))

flush_buf-empty : (xs : Batch) (b : Batcher) → b.buf ≡ xs → (flush_buf xs b).buf ≡ []
unfolding flush_buf
flush_buf-empty [] b e = e
flush_buf-empty (x ∷ xs) b e = refl

pub flush-empty : (b : Batcher) → (flush b).buf ≡ []
unfolding flush
flush-empty b = flush_buf-empty b.buf b refl

flush_buf-cfg : (xs : Batch) (b : Batcher) → (flush_buf xs b).cfg ≡ b.cfg
unfolding flush_buf
flush_buf-cfg [] b = refl
flush_buf-cfg (x ∷ xs) b = refl

pub flush-cfg : (b : Batcher) → (flush b).cfg ≡ b.cfg
unfolding flush
flush-cfg b = flush_buf-cfg b.buf b

-- A call of `Add` keeps the buffer below the limit, and takes out full batches only.
pub add-IsFilled : (m : ℕ) (entry : Bytes) (b : Batcher) → IsFilled m b → IsFilled m (add entry b)
unfolding add flush
add-IsFilled m entry b v = elim (Bool-cases (append_locked entry b).1) [
  | inl full ↦
      let reached = (append_locked-full_iff m entry b v.limit).0 full in
      let longer = length-append_locked m entry b v.limit in
      let fits = v.room in
      rw full (
        flush_buf-IsFilled m (append_locked entry b).0 (append_locked entry b).0.buf v.limit
          (omega arith) (omega arith) v.full)
  | inr room ↦
      rw room (record {
        limit = v.limit;
        room = append_locked-room m entry b v.limit room;
        full = v.full;
      })
]

new-IsFilled :
    (cfg : BatcherConfig) (m : ℕ) {b : Batcher}
    → cfg.max_size ≡ pos m
    → 0 < m
    → new cfg ≡ some b
    → IsFilled m b
unfolding new
new-IsFilled cfg m {b} l p e = ground arith

add_all-IsFilled :
    (m : ℕ) (xs : List Bytes) (b : Batcher) → IsFilled m b → IsFilled m (add_all xs b)
unfolding add_all
add_all-IsFilled m [] b v = v
add_all-IsFilled m (x ∷ xs) b v = add_all-IsFilled m xs (add x b) (add-IsFilled m x b v)

add_all-contents : (xs : List Bytes) (b : Batcher) → contents (add_all xs b) ≡ contents b ++ xs
unfolding add_all
add_all-contents [] b = sym (append-nil (contents b))
add_all-contents (x ∷ xs) b =
    contents (add_all xs (add x b))
    ≡⟨ add_all-contents xs (add x b) ⟩ contents (add x b) ++ xs
    ≡⟨ ap (λ c. c ++ xs) (add-contents x b) ⟩ (contents b ++ x ∷ []) ++ xs
    ≡⟨ append_assoc (contents b) (x ∷ []) xs ⟩ contents b ++ x ∷ xs ∎

new-contents : (cfg : BatcherConfig) {b : Batcher} → new cfg ≡ some b → contents b ≡ []
unfolding new flatten
new-contents cfg {b} e = ground arith

-- From a fresh batcher whose limit m is at least 1, any sequence of calls of `Add` leaves fewer than
-- m payloads in the buffer, every batch that it took out holds exactly m payloads, and the batches
-- followed by the buffer are the payloads that were added, in the order in which they were added.
pub add_all-batches :
    (cfg : BatcherConfig) (m : ℕ) (b : Batcher) (xs : List Bytes)
    → cfg.max_size ≡ pos m
    → 0 < m
    → new cfg ≡ some b
    → IsFilled m (add_all xs b) × (flatten (add_all xs b).exported ++ (add_all xs b).buf ≡ xs)
add_all-batches cfg m b xs l p e = (
  add_all-IsFilled m xs b (new-IsFilled cfg m l p e),
  add_all-contents xs b ∙ ap (λ c. c ++ xs) (new-contents cfg e),
)
