-- ===== src/Xlerr/Tests.antt =====
-- The texts of some errors.
use xyllo.Base.{◌↔◌, Bytes, codes, ◌==◌, ◌∷◌, ◌++◌, All, flatten, ◌≡◌, refl}
use xyllo.Xlerr.{validation, validation_error, plain, new, error_text, pipeline_text}
use xyllo.Xlerr.Laws.{IsPrintable, pipeline_text-IsPrintable}

-- A source with a line feed in it.
abbrev two_lines : Bytes
two_lines = codes "a" ++ 10 ∷ codes "b"

two_lines_text :
    pipeline_text (new validation validation_error two_lines (plain (codes "bad")))
    ≡ codes "[validation/validation_error] source=\"a\\nb\": bad"
unfolding new pipeline_text error_text ◌==◌ flatten
two_lines_text = refl

pipeline_text-IsPrintable_example :
    All IsPrintable
      (pipeline_text (new validation validation_error two_lines (plain (codes "bad"))))
    ↔ All IsPrintable (error_text (plain (codes "bad")))
pipeline_text-IsPrintable_example =
    pipeline_text-IsPrintable validation validation_error two_lines (plain (codes "bad"))
