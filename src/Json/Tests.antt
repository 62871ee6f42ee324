-- ===== src/Json/Tests.antt =====
-- Documents.
use xyllo.Base.{◌≡◌, refl, negsuc, ◌++◌, codes, true, false, pos, none, some, [], ◌∷◌}
use xyllo.Json.{null, num, str, arr, obj, nil, cons, end, field}
use xyllo.Json.Parse.{parse}
use xyllo.Json.Encode.{encode_time, encode_raw, encode_integer, encode_text}

literal_lem :
    parse (codes " {\"a\" : [1, -2.5e+1], \"b\": null } ")
    ≡ some (
        obj (
          field
            (codes "a")
            (arr (
              cons (num (record { negative = false; digits = 1; exponent = pos 0; whole = true })) (
                cons
                  (num (record { negative = true; digits = 25; exponent = pos 0; whole = false }))
                  nil)))
            (codes "[1, -2.5e+1]")
            (field (codes "b") null (codes "null") end)))
unfolding parse
literal_lem = refl

escapes_lem :
    parse (codes "\"\\u00e9\\ud83d\\ude00\\n\"")
    ≡ some (str (195 ∷ 169 ∷ 240 ∷ 159 ∷ 152 ∷ 128 ∷ 10 ∷ []))
unfolding parse
escapes_lem = refl

trailing_comma_lem : parse (codes "[1,]") ≡ none
unfolding parse
trailing_comma_lem = refl

leading_zero_lem : parse (codes "01") ≡ none
unfolding parse
leading_zero_lem = refl

time_lem : encode_time 1709210096120000000 ≡ some (codes "\"2024-02-29T12:34:56.12Z\"")
unfolding encode_time
time_lem = refl

raw_lem :
    encode_raw (codes "{ \"a<\" : [ 1 , \"b c\\\" d\" ] }")
    ≡ some (codes "{\"a\\u003c\":[1,\"b c\\\" d\"]}")
unfolding encode_raw
raw_lem = refl

integer_lem :
    encode_integer (negsuc 41) ++ encode_integer (pos 0) ++ encode_text (codes "a\"&")
    ≡ codes "-420\"a\\\"\\u0026\""
unfolding encode_integer encode_text
integer_lem = refl
