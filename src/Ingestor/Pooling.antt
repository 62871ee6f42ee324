-- ===== src/Ingestor/Pooling.antt =====
-- The pool behind the ingest handler.
use xyllo.Base.{
  Bytes, Bool, true, false, ◌==◌, ◌++◌, Option, none, some, [], get_elem?, ◌≡◌, refl, subst,
  Bool-cases, inl, inr, if◌then◌else◌, ◌∙◌, sym,
}
use xyllo.Dispatcher.{Dispatcher}
use xyllo.Translator.{Registry, Event, Translated, translated, malformed, marshal}
use xyllo.Pool.{Pooled, or_new, get, put}
use xyllo.Ingestor.{
  Server, Request, Response, Chance, source_of, with_id, answer, submit_event, ingest_translated,
  handle_ingest,
}
use xyllo.Ingestor.Answers.{IsClean, remove-IsClean, if-false}

-- The pool is clean, and the translators are those of `reg`.
abbrev pub IsKept : Registry → Server → Type 0
IsKept reg s = IsClean s.pool × (s.reg ≡ reg)

abbrev Cleans : Registry → Server × Response → Type 0
Cleans reg w = IsKept reg w.0

returned :
    {reg : Registry} (given wanted : Server × Response)
    → some given ≡ some wanted
    → Cleans reg given
    → Cleans reg wanted
returned {reg} given wanted p h = let same : given ≡ wanted = cc in subst (Cleans reg) same h

answer-Cleans :
    {reg : Registry} (source : Bytes) (e : Event) (s : Server) (o : Option (Dispatcher × Bool))
    (w : Server × Response)
    → IsKept reg s
    → answer source e s o ≡ some w
    → Cleans reg w
unfolding answer
answer-Cleans source e s none w h p = absurd cc
answer-Cleans source e s (some (d, true)) w h p = returned _ w p h
answer-Cleans source e s (some (d, false)) w h p = returned _ w p h

submit_event-Cleans :
    {reg : Registry} (source : Bytes) (e : Event) (s : Server) (o : Option Bytes)
    (w : Server × Response)
    → IsKept reg s
    → submit_event source e s o ≡ some w
    → Cleans reg w
unfolding submit_event
submit_event-Cleans source e s none w h p = returned _ w p h
submit_event-Cleans source e s (some json) w h p = answer-Cleans source e s _ w h p

ingest_translated-Cleans :
    {reg : Registry} (source uuid : Bytes) (q : Pooled) (s : Server) (t : Translated)
    (w : Server × Response)
    → IsKept reg s
    → ingest_translated source uuid q s t ≡ some w
    → Cleans reg w
unfolding ingest_translated put
ingest_translated-Cleans source uuid q s (malformed err) w h p = returned _ w p ((refl, h.0), h.1)
ingest_translated-Cleans source uuid q s (translated e) w h p =
    submit_event-Cleans source (with_id uuid e) _ (marshal (with_id uuid e)) w ((refl, h.0), h.1) p

if-true : (x y : Option (Server × Response)) (b : Bool) → b ≡ true → (if b then x else y) ≡ x
if-true x y b e = rw e refl

-- Whatever a request brings and however it is answered, the payloads in the pool are empty
-- afterwards if they were before, and the translators stay.
pub handle_ingest-IsKept :
    {reg : Registry} (chance : Chance) (request : Request) (s s' : Server) (a : Response)
    → IsKept reg s
    → handle_ingest chance request s ≡ some (s', a)
    → IsKept reg s'
unfolding handle_ingest get
handle_ingest-IsKept chance request s s' a h p = elim (Bool-cases (request.body == [])) [
  | inl empty ↦ returned _ (s', a) (sym (if-true _ _ (request.body == []) empty) ∙ p) h
  | inr full ↦
      let given = or_new (get_elem? s.pool chance.choice) in
      ingest_translated-Cleans (source_of request.header) chance.uuid
        (record given { content = given.content ++ request.body }) _ _ (s', a)
        (remove-IsClean chance.choice s.pool h.0, h.1)
        (sym (if-false _ _ (request.body == []) full) ∙ p)
]
