-- ===== src/Xlerr.antt =====
-- internal/xlerr/xlerr.go: the pipeline's errors, and Go's error values with their texts.
pub mod Laws
mod Tests
use xyllo.Base.{
  Bytes, codes, ◌==◌, Bool, true, false, ◌||◌, ℕ, suc, zero, ◌+◌, ◌-◌, ◌/◌, ◌%◌, List, [], ◌∷◌,
  ◌++◌, Option, none, some, if◌then◌else◌, eqb, ltb, leb, map, flatten,
}

pub data Stage : Type 0 where
  ingest validation dispatch dead_letter : Stage

abbrev pub stage_text : Stage → Bytes
stage_text ingest = codes "ingest"
stage_text validation = codes "validation"
stage_text dispatch = codes "dispatch"
stage_text dead_letter = codes "dlq"

pub data Code : Type 0 where
  validation_error translation_error buffer_full panic dlq_write_error serialization_error : Code

abbrev pub code_text : Code → Bytes
code_text validation_error = codes "validation_error"
code_text translation_error = codes "translation_error"
code_text buffer_full = codes "buffer_full"
code_text panic = codes "panic"
code_text dlq_write_error = codes "dlq_write_error"
code_text serialization_error = codes "serialization_error"

mutual
  -- An error value: `errors.New` or `fmt.Errorf` without %w, `fmt.Errorf` with %w (the text in
  -- front of the wrapped error), or a PipelineError.
  pub data Error : Type 0 where
    plain : Bytes → Error
    wrapped : Bytes → Error → Error
    pipeline : PipelineError → Error

  pub data PipelineError : Type 0 where
    pipeline_error : Stage → Code → Bytes → Error → PipelineError

-- `new` and the four fields.
unfoldable pub new : Stage → Code → Bytes → Error → PipelineError
new = pipeline_error

unfoldable pub wrap : Option Error → Stage → Code → Bytes → Option Error
unfolding new
wrap none stage code source = none
wrap (some err) stage code source = some (pipeline (new stage code source err))

unfoldable pub unwrap : PipelineError → Error
unwrap (pipeline_error _ _ _ err) = err

hex : ℕ → ℕ
hex d = if ltb d 10 then d + b'0' else d - 10 + b'a'

escape_control : ℕ → Bytes
unfolding hex
escape_control c =
    if eqb c 7
    then codes "\\a"
    else if eqb c 8
    then codes "\\b"
    else if eqb c 9
    then codes "\\t"
    else if eqb c 10
    then codes "\\n"
    else if eqb c 11
    then codes "\\v"
    else if eqb c 12
    then codes "\\f"
    else if eqb c 13
    then codes "\\r"
    else codes "\\x" ++ hex (c / 16) ∷ hex (c % 16) ∷ []

-- One byte under %q, that is strconv.Quote. Bytes from 128 on are kept: in printable UTF-8 they are.
quote_byte : ℕ → Bytes
unfolding escape_control
quote_byte c =
    if eqb c b'"' || eqb c b'\\'
    then b'\\' ∷ c ∷ []
    else if ltb c 32 || eqb c 127
    then escape_control c
    else c ∷ []

unfoldable pub quote : Bytes → Bytes
unfolding quote_byte
quote s = b'"' ∷ flatten (map quote_byte s) ++ b'"' ∷ []

unfoldable mutual
  unfolding quote

  pub error_text : Error → Bytes
  error_text (plain text) = text
  error_text (wrapped text err) = text ++ error_text err
  error_text (pipeline pe) = pipeline_text pe

  -- The method `Error` of PipelineError.
  pub pipeline_text : PipelineError → Bytes
  pipeline_text (pipeline_error stage code source err) =
      if source == []
      then codes "["
        ++ stage_text stage
        ++ codes "/"
        ++ code_text code
        ++ codes "]: "
        ++ error_text err
      else codes "["
        ++ stage_text stage
        ++ codes "/"
        ++ code_text code
        ++ codes "] source="
        ++ quote source
        ++ codes ": "
        ++ error_text err
