-- ===== src/Translator/Tests.antt =====
-- Payloads at Passthrough and at a registry.
use xyllo.Base.{
  Bytes, codes, ◌==◌, pos, negsuc, ◌-ℤ◌, some, [], ◌≡◌, refl, arith, bytes_eq, if◌then◌else◌,
}
use xyllo.Xlerr.{plain}
use xyllo.Json.{Value, obj, Fields}
use xyllo.Json.Parse.{parse}
use xyllo.Json.Rewriting.{member_contents}
use xyllo.Translator.{
  Event, translated, malformed, Inbound, passthrough, register, translate, new_registry, marshal,
}
use xyllo.Translator.Values.{described, raw_value}
use xyllo.Translator.Decoded.{marshal-decoded}
use xyllo.Translator.Events.{IsStamped, passthrough-IsStamped, register-translate}

abbrev unknown_error : Bytes → Bytes
unknown_error raw = codes "unexpected end of JSON input"

abbrev click : Bytes
click = codes "{\"Event_Type\":\"click\",\"body\": null}"

abbrev clicked : Event
clicked = record {
  id = [];
  source = codes "web";
  event_type = codes "click";
  timestamp_ms = pos 1700000000000;
  received_at = 1700000000000000002;
  body = codes "null";
}

click_lem :
    passthrough unknown_error 1700000000000000001 1700000000000000002 (codes "web") click
    ≡ translated clicked
unfolding passthrough ◌==◌
click_lem = refl

passthrough-IsStamped_example : IsStamped (codes "web") 1700000000000000002 clicked
passthrough-IsStamped_example =
    passthrough-IsStamped unknown_error 1700000000000000001 1700000000000000002 (codes "web") click
      clicked (omega arith) (omega arith) click_lem

abbrev refusing : Inbound
refusing now later source raw = malformed (plain (codes "refused"))

register-translate_example :
    translate
      (register (codes "web") refusing (new_registry unknown_error))
      1000000
      1000001
      (codes "web")
      click
    ≡ (if codes "web" == codes "web"
        then refusing 1000000 1000001 (codes "web") click
        else translate (new_registry unknown_error) 1000000 1000001 (codes "web") click)
register-translate_example =
    register-translate (codes "web") (codes "web") refusing (new_registry unknown_error) 1000000
      1000001 click

-- Spaces, a member of its own and characters that are escaped.
abbrev shown : Event
shown = record {
  id = codes "u-1";
  source = codes "a<b\"";
  event_type = codes "click";
  timestamp_ms = negsuc 4;
  received_at = 1700000000500000000;
  body = codes "{ \"n\" : [1e2 , -3] }";
}

abbrev shown_text : Bytes
shown_text =
    codes
      "{\"id\":\"u-1\",\"source\":\"a\\u003cb\\\"\",\"event_type\":\"click\",\"timestamp_ms\":-5,\"received_at\":\"2023-11-14T22:13:20.5Z\",\"body\":{\"n\":[1e2,-3]}}"

shown_lem : marshal shown ≡ some shown_text
unfolding marshal ◌-ℤ◌
shown_lem = refl

marshal-decoded_example :
    (fs : Fields) × (text : Bytes) × (v : Value) × (parse shown_text ≡ some (obj fs))
    × (raw_value shown.body ≡ some v)
    × (member_contents fs ≡ described shown text v)
marshal-decoded_example = marshal-decoded shown shown_text (omega arith, omega arith) shown_lem
