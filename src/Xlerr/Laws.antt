-- ===== src/Xlerr/Laws.antt =====
-- The texts of errors: a source name cannot break a log line or a dead letter's reason.
use mathlib.Core.List.{map, flatten}
use xyllo.Base.{
  Bytes, codes, ◌==◌, ℕ, ◌≤◌, [], ◌∷◌, ◌++◌, All, All-append, ◌≢◌, ◌↔◌, arith, inl, inr, Bool-cases,
}
use xyllo.Xlerr.{
  Stage, ingest, validation, dispatch, dead_letter, stage_text, Code, validation_error,
  translation_error, buffer_full, panic, dlq_write_error, serialization_error, code_text, Error,
  new, escape_control, quote_byte, quote, error_text, pipeline_text,
}

-- No control character: neither below the space nor the delete character.
abbrev pub IsPrintable : ℕ → Type 0
IsPrintable c = (32 ≤ c) × (c ≢ 127)

escape_control-IsPrintable : (c : ℕ) → c ≤ 127 → All IsPrintable (escape_control c)
unfolding escape_control
escape_control-IsPrintable c h = ground arith

quote_byte-IsPrintable : (c : ℕ) → All IsPrintable (quote_byte c)
unfolding quote_byte
quote_byte-IsPrintable c = ground (arith, escape_control-IsPrintable c)

quoted-IsPrintable : (s : Bytes) → All IsPrintable (flatten (map quote_byte s))
unfolding flatten
quoted-IsPrintable [] = tt
quoted-IsPrintable (c ∷ s) =
    All-append IsPrintable (quote_byte c) _ (quote_byte-IsPrintable c) (quoted-IsPrintable s)

pub quote-IsPrintable : (s : Bytes) → All IsPrintable (quote s)
unfolding quote
quote-IsPrintable s =
    (omega arith, All-append IsPrintable _ (b'"' ∷ []) (quoted-IsPrintable s) (omega arith))

stage_text-IsPrintable : (s : Stage) → All IsPrintable (stage_text s)
stage_text-IsPrintable ingest = omega arith
stage_text-IsPrintable validation = omega arith
stage_text-IsPrintable dispatch = omega arith
stage_text-IsPrintable dead_letter = omega arith

code_text-IsPrintable : (c : Code) → All IsPrintable (code_text c)
code_text-IsPrintable validation_error = omega arith
code_text-IsPrintable translation_error = omega arith
code_text-IsPrintable buffer_full = omega arith
code_text-IsPrintable panic = omega arith
code_text-IsPrintable dlq_write_error = omega arith
code_text-IsPrintable serialization_error = omega arith

join : (xs ys : Bytes) → All IsPrintable xs → All IsPrintable ys → All IsPrintable (xs ++ ys)
join = All-append IsPrintable

tag-IsPrintable :
    (stage : Stage) (code : Code)
    → All IsPrintable (stage_text stage ++ codes "/" ++ code_text code)
tag-IsPrintable stage code =
    join _ (code_text code)
      (join (stage_text stage) (codes "/") (stage_text-IsPrintable stage) (omega arith))
      (code_text-IsPrintable code)

split : (xs ys : Bytes) → All IsPrintable (xs ++ ys) → All IsPrintable ys
split [] ys h = h
split (c ∷ xs) ys h = split xs ys h.1

-- The text of a PipelineError, which becomes the reason of a dead letter, holds no control character
-- exactly if the text of its cause holds none: stage, code and source add none, whatever bytes a
-- client has sent as its source, a line break or another control character among them.
pub pipeline_text-IsPrintable :
    (stage : Stage) (code : Code) (source : Bytes) (err : Error)
    → All IsPrintable (pipeline_text (new stage code source err)) ↔ All IsPrintable (error_text err)
unfolding pipeline_text new
pipeline_text-IsPrintable stage code source err = elim (Bool-cases (source == [])) [
  | inl unnamed ↦ rw unnamed (
    λ p. split _ (error_text err) p.1,
    λ h. (
      omega arith,
      join _ (error_text err) (join _ (codes "]: ") (tag-IsPrintable stage code) (omega arith)) h,
    ),
  )
  | inr named ↦
      let tagged = join _ (codes "] source=") (tag-IsPrintable stage code) (omega arith) in
      let quoted = join _ (quote source) tagged (quote-IsPrintable source) in
      rw named (
        λ p. split _ (error_text err) p.1,
        λ h. (omega arith, join _ (error_text err) (join _ (codes ": ") quoted (omega arith)) h),
      )
]
