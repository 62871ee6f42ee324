-- ===== src/Ingestor/Arrays/Ownership.antt =====
-- No call reads another one's bytes.
use xyllo.Base.{
  Bytes, Bool, true, false, ◌==◌, ==_iff, ℕ, zero, suc, eqb, ◌+◌, ◌≤◌, Option, none, some, List, [],
  ◌∷◌, get_elem?, set, sum_by, sum_by-set, All, if◌then◌else◌, ◌≡◌, ◌≢◌, refl, sym, ap, ◌∙◌, subst,
  arith, Bool-cases, Option-cases, inl, inr,
}
use xyllo.Translator.{Translated, translated, malformed, Registry, translate, marshal}
use xyllo.Ingestor.{with_id, event_json}
use xyllo.Ingestor.Arrays.{
  Task, Place, filled, holding, serialised, released, Heap, write, remove_at, fill_with,
  translate_at, go_on, no_calls, CallStep, begins, goes, call_step, call_steps,
}

-- The serialised event of a call that runs alone.
abbrev pub json_of : Registry → Task → Option Bytes
json_of reg t = event_json t.uuid (translate reg t.now t.later t.source t.body)

abbrev one : ℕ → ℕ → ℕ
one a b = if eqb a b then 1 else 0

-- How often the array `a` is with a call, and how often with the pool.
abbrev owns : ℕ → Place → ℕ
owns a (filled b t) = one a b
owns a (holding b t e v) = one a b
owns a (serialised b t json) = one a b
owns a (released t json) = 0

abbrev owners : ℕ → Heap → ℕ
owners a h = sum_by (owns a) h.places + sum_by (one a) h.free

-- A call has its own bytes in its array, and has serialised or will serialise the event made of them.
abbrev pub Honest : Registry → (ℕ → Bytes) → Place → Type 0
Honest reg memory (filled a t) = memory a ≡ t.body
Honest reg memory (holding a t e v) =
    (memory a ≡ t.body)
    × (translate reg t.now t.later t.source t.body ≡ translated e)
    × (v t.body ≡ e.body)
Honest reg memory (serialised a t json) = json ≡ json_of reg t
Honest reg memory (released t json) = json ≡ json_of reg t

pub record Owned (reg : Registry) (h : Heap) : Type 0 where
  pub honest : All (Honest reg h.memory) h.places
  pub once : (a : ℕ) → owners a h ≤ 1
  pub known : (a : ℕ) → h.fresh ≤ a → owners a h ≡ 0

All-get {ℓ κ} :
    {A : Type ℓ} (P : A → Type κ) (xs : List A) (i : ℕ) (x : A)
    → All P xs
    → get_elem? xs i ≡ some x
    → P x
All-get P [] i x h e = absurd cc
All-get P (y ∷ ys) zero x h e = let same : y ≡ x = cc in subst P same h.0
All-get P (y ∷ ys) (suc i) x h e = All-get P ys i x h.1 e

All-set {ℓ κ} :
    {A : Type ℓ} (P : A → Type κ) (xs : List A) (i : ℕ) (x : A)
    → All P xs
    → P x
    → All P (set xs i x)
All-set P [] i x h p = tt
All-set P (y ∷ ys) zero x h p = (p, h.1)
All-set P (y ∷ ys) (suc i) x h p = (h.0, All-set P ys i x h.1 p)

one_self : (a : ℕ) → one a a ≡ 1
one_self a = ground arith

write_other :
    (a b : ℕ) (content : Bytes) (memory : ℕ → Bytes)
    → one a b ≡ 0
    → write a content memory b ≡ memory b
write_other a b content memory n = ground arith

write_self : (a : ℕ) (content : Bytes) (memory : ℕ → Bytes) → write a content memory a ≡ content
write_self a content memory = ground arith

-- A write to an array that no call owns changes no call's bytes.
Honest-write :
    (reg : Registry) (a : ℕ) (content : Bytes) (memory : ℕ → Bytes) (ps : List Place)
    → All (Honest reg memory) ps
    → sum_by (owns a) ps ≡ 0
    → All (Honest reg (write a content memory)) ps
Honest-write reg a content memory [] h n = tt
Honest-write reg a content memory (filled b t ∷ ps) h n = (
  write_other a b content memory (omega arith) ∙ h.0,
  Honest-write reg a content memory ps h.1 (omega arith),
)
Honest-write reg a content memory (holding b t e v ∷ ps) h n = (
  (write_other a b content memory (omega arith) ∙ h.0.0, h.0.1, h.0.2),
  Honest-write reg a content memory ps h.1 (omega arith),
)
Honest-write reg a content memory (serialised b t json ∷ ps) h n =
    (h.0, Honest-write reg a content memory ps h.1 (omega arith))
Honest-write reg a content memory (released t json ∷ ps) h n =
    (h.0, Honest-write reg a content memory ps h.1 (omega arith))

sum_by-remove_at :
    (f : ℕ → ℕ) (xs : List ℕ) (i a : ℕ)
    → get_elem? xs i ≡ some a
    → sum_by f (remove_at i xs) + f a ≡ sum_by f xs
unfolding remove_at
sum_by-remove_at f [] i a e = absurd cc
sum_by-remove_at f (x ∷ xs) zero a e = let same : x ≡ a = cc in rw same (omega arith)
sum_by-remove_at f (x ∷ xs) (suc i) a e = omega (arith, sum_by-remove_at f xs i a e)

fresh_other : (b n : ℕ) → suc n ≤ b → one b n ≡ 0
fresh_other b n le = ground arith

fresh_once : (b n m : ℕ) → (n ≤ b → m ≡ 0) → m ≤ 1 → one b n + m ≤ 1
fresh_once b n m known once = elim (Bool-cases (eqb b n)) [
  | inl same ↦ let none_yet = known (ground arith) in rw same (omega arith)
  | inr other ↦ rw other (omega arith)
]

some_inj : {x y : Heap} → some x ≡ some y → x ≡ y
some_inj e = cc

if_then : (x y : Option Heap) (b : Bool) → b ≡ true → x ≡ (if b then x else y)
if_then x y b e = rw e refl

if_none : (x : Option Heap) (b : Bool) (h : Heap) → b ≡ false → (if b then x else none) ≢ some h
if_none x b h n = rw n (λ e. cc)

module _ (reg : Registry) where
  fill_with-Owned :
      (t : Task) (h : Heap) (choice : ℕ) (o : Option ℕ)
      → get_elem? h.free choice ≡ o
      → Owned reg h
      → Owned reg (fill_with t h choice o)
  unfolding fill_with
  fill_with-Owned t h choice (some a) e v =
      let taken = λ (b : ℕ). sum_by-remove_at (one b) h.free choice a e in
      let mine = v.once a in
      record {
        honest = (
          write_self a t.body h.memory,
          Honest-write reg a t.body h.memory h.places v.honest (omega (arith, taken a, one_self a)),
        );
        once = λ b. omega (arith, v.once b, taken b);
        known = λ b le. omega (arith, v.known b le, taken b);
      }
  fill_with-Owned t h choice none e v =
      let unused = v.known h.fresh (omega arith) in
      record {
        honest = (
          write_self h.fresh t.body h.memory,
          Honest-write reg h.fresh t.body h.memory h.places v.honest (omega arith),
        );
        once = λ b. omega (arith, fresh_once b h.fresh (owners b h) (v.known b) (v.once b));
        known = λ b le. omega (arith, v.known b (omega arith), fresh_other b h.fresh le);
      }

  -- A call that keeps its array goes on.
  placed :
      (h : Heap) (i : ℕ) (p q : Place)
      → get_elem? h.places i ≡ some p
      → ((a : ℕ) → owns a p ≡ owns a q)
      → Honest reg h.memory q
      → Owned reg h
      → Owned reg (record h { places = set h.places i q })
  placed h i p q at same fine v = record {
    honest = All-set (Honest reg h.memory) h.places i q v.honest fine;
    once = λ a. omega (arith, v.once a, sum_by-set (owns a) h.places i q at, same a);
    known = λ a le. omega (arith, v.known a le, sum_by-set (owns a) h.places i q at, same a);
  }

  translate_at-Owned :
      (i a : ℕ) (t : Task) (view : Bytes → Bytes) (h h' : Heap) (found : Translated)
      → get_elem? h.places i ≡ some (filled a t)
      → translate reg t.now t.later t.source (h.memory a) ≡ found
      → translate_at i a t view h found ≡ some h'
      → Owned reg h
      → Owned reg h'
  unfolding translate_at
  translate_at-Owned i a t view h h' (malformed err) at made e v =
      let own = All-get (Honest reg h.memory) h.places i (filled a t) v.honest at in
      let refused = ap (λ b. translate reg t.now t.later t.source b) (sym own) ∙ made in
      subst (Owned reg) (some_inj e)
        (placed h i (filled a t) (serialised a t none) at (λ b. refl) (rw refused refl) v)
  translate_at-Owned i a t view h h' (translated ev) at made e v =
      let own = All-get (Honest reg h.memory) h.places i (filled a t) v.honest at in
      elim (Bool-cases (view (h.memory a) == ev.body)) [
        | inl seen ↦
            let same = (==_iff (view (h.memory a)) ev.body).0 seen in
            subst (Owned reg) (some_inj (if_then _ none (view (h.memory a) == ev.body) seen ∙ e)) (
              placed h i (filled a t) (holding a t ev view) at (λ b. refl)
                (
                  own,
                  ap (λ b. translate reg t.now t.later t.source b) (sym own) ∙ made,
                  ap view (sym own) ∙ same,
                )
                v)
        | inr other ↦ absurd (if_none _ (view (h.memory a) == ev.body) h' other e)
      ]

  go_on-Owned :
      (i : ℕ) (view : Bytes → Bytes) (h h' : Heap) (o : Option Place)
      → get_elem? h.places i ≡ o
      → go_on reg i view h o ≡ some h'
      → Owned reg h
      → Owned reg h'
  unfolding go_on
  go_on-Owned i view h h' none at e v = absurd cc
  go_on-Owned i view h h' (some (filled a t)) at e v =
      translate_at-Owned i a t view h h' (translate reg t.now t.later t.source (h.memory a)) at refl
        e v
  go_on-Owned i view h h' (some (holding a t ev w)) at e v =
      let (own, made, seen) =
        All-get (Honest reg h.memory) h.places i (holding a t ev w) v.honest at in
      subst (Owned reg) (some_inj e) (
        placed h i (holding a t ev w)
          (serialised a t (marshal (with_id t.uuid (record ev { body = w (h.memory a) })))) at
          (λ b. refl) (rw (own, made, seen) refl) v)
  go_on-Owned i view h h' (some (serialised a t json)) at e v =
      let own = All-get (Honest reg h.memory) h.places i (serialised a t json) v.honest at in
      subst (Owned reg) (some_inj e) (record {
        honest = All-set (Honest reg h.memory) h.places i (released t json) v.honest own;
        once = λ b. omega (arith, v.once b, sum_by-set (owns b) h.places i (released t json) at);
        known = λ b le.
            omega (arith, v.known b le, sum_by-set (owns b) h.places i (released t json) at);
      })
  go_on-Owned i view h h' (some (released t json)) at e v = absurd cc

  call_step-Owned :
      (a : CallStep) (h h' : Heap) → call_step reg a h ≡ some h' → Owned reg h → Owned reg h'
  unfolding call_step
  call_step-Owned (begins t choice) h h' e v =
      subst (Owned reg) (some_inj e) (fill_with-Owned t h choice (get_elem? h.free choice) refl v)
  call_step-Owned (goes i view) h h' e v = go_on-Owned i view h h' (get_elem? h.places i) refl e v

  keeps-Owned :
      (ts : List CallStep) (h h' : Heap)
      → Owned reg h
      → call_steps reg ts h ≡ some h'
      → Owned reg h'
  unfolding call_steps
  keeps-Owned [] h h' v e = subst (Owned reg) (some_inj e) v
  keeps-Owned (a ∷ rest) h h' v e = elim (Option-cases (call_step reg a h)) [
    | inl stuck ↦ absurd (ground arith)
    | inr (u, made) ↦ keeps-Owned rest u h' (call_step-Owned a h u made v) (ground arith)
  ]

  -- Start with an empty pool and no calls, and let calls begin and go on in any order, with any
  -- payloads out of the pool, and with events whose bodies are any parts of their arrays. Then no
  -- array is ever with two calls, or with a call and the pool; a call that has not yet serialised its
  -- event has its own body in its array; and each call that has, its payload back in the pool or not,
  -- has the JSON form of the event that is made of its own body, or none if there is no such event.
  pub call_steps-Owned :
      (memory : ℕ → Bytes) (ts : List CallStep) (h : Heap)
      → call_steps reg ts (no_calls memory) ≡ some h
      → Owned reg h
  call_steps-Owned memory ts h went =
      keeps-Owned ts (no_calls memory) h
        (record { honest = tt; once = λ a. omega arith; known = λ a le. refl }) went
