-- ===== src/Notepad/Tests.antt =====
-- Runs of code/backend/notepad.py, and the theorems applied there.
use grindstone.Prelude.{
  ◌≡◌, refl, true, false, none, some, List, [], ◌∷◌, ◌++◌, Text, codes, text_eq, nat_eq, ok,
  refused, ◌>>=◌, check, require, text_beq, arith,
}
use grindstone.Json.{Json, null, integer, text, object, object_of, one_of, text_within}
use grindstone.Unicode.{Unicode}
use grindstone.Notepad.Secret.{is_secret}
use grindstone.Notepad.Payload.{
  clean_options, clean_provenance, clean_note, clean_kind, clean_data, check_blob, credential,
  validate_payload,
}
use grindstone.Notepad.Store.{PadJson, raised}
use grindstone.Notepad.Label.{Formats, destination, summarise}
use grindstone.Notepad.Pad.{PadCall, adding, editing, removing, Allowed, pad_of}
use grindstone.Notepad.Granted.{succeeds, may_succeed}
use grindstone.Notepad.Refines.{call, call_all, call_refines}
use grindstone.Notepad.Sealed.{IsPad, calls-IsPad}
use grindstone.Notepad.Found.{no_key_enters}
use grindstone.Notepad.Codec.{coded, decoded, decoded-coded}

abbrev library : PadJson
library = record { dumps = coded; loads = decoded }

abbrev grabbed : Text → List (Text × Json) → Json
grabbed kind d = object (
    object_of (
      (codes "v", integer false 1)
      ∷ (codes "kind", text kind)
      ∷ (codes "data", object (object_of d))
      ∷ (
        codes "provenance",
        object (
            object_of (
              (codes "workspace", text (codes "agent"))
              ∷ (codes "capturedAt", text (codes "2026-01-05"))
              ∷ [])),
      )
      ∷ []))

abbrev jotted : Text → Json
jotted t = grabbed (codes "note") ((codes "text", text t) ∷ [])

abbrev plain : Json → Text
plain j = codes "{}"

note_is_valid : validate_payload plain (jotted (codes "buy low")) ≡ ok (jotted (codes "buy low"))
unfolding validate_payload clean_data clean_kind clean_note clean_provenance clean_options
    check_blob is_secret one_of text_within text_beq check require ◌>>=◌
note_is_valid = refl

abbrev sixteen : Text
sixteen = codes "ABCDEFGH01234567"

key_is_refused :
    validate_payload (λ j. codes "{\"text\": \"PKABCDEFGH01234567\"}") (jotted [])
    ≡ refused credential
unfolding validate_payload clean_data clean_kind clean_note clean_provenance clean_options
    check_blob is_secret one_of text_within text_beq check require ◌>>=◌
key_is_refused = refl

no_key_enters_example : ¬ (plain (jotted (codes "buy low")) ≡ [] ++ (b'P' ∷ b'K' ∷ (sixteen ++ [])))
no_key_enters_example =
    no_key_enters plain (jotted (codes "buy low")) (jotted (codes "buy low")) [] sixteen [] b'P'
      note_is_valid refl refl refl (omega arith) refl

abbrev session : List PadCall
session =
    adding 1 (codes "aa") (codes "t1") (jotted (codes "buy low")) (codes "idea")
    ∷ editing 1 (codes "aa") null (some (codes "plan"))
    ∷ adding 1 (codes "bb") (codes "t2") (jotted (codes "sell high")) []
    ∷ removing 1 (codes "aa")
    ∷ []

abbrev rewriting : PadCall
rewriting = editing 1 (codes "bb") (jotted (codes "hold")) none

call_refines_example :
    (succeeds library rewriting (call_all library session [])
      ≡ may_succeed library rewriting (call_all library session []))
    × Allowed library rewriting
        (succeeds library rewriting (call_all library session []))
        (pad_of library (call_all library session []))
        (pad_of library (call library rewriting (call_all library session [])))
call_refines_example = call_refines library decoded-coded rewriting (call_all library session [])

calls-IsPad_example : IsPad library decoded-coded (call_all library session [])
calls-IsPad_example = calls-IsPad library decoded-coded session

abbrev tables : Unicode
tables = record {
  is_identifier = λ t. true;
  is_alnum = λ c. true;
  uppercase = λ t. t;
  lowercase = λ t. t;
}

abbrev formats : Formats
formats = record { shown = λ j. codes "5"; general = λ j. none; is_digit = λ c. true }

-- A drawing whose data has a number under "underlying" is accepted, and then cannot be summarised.
abbrev drawn : Json
drawn = grabbed (codes "drawing") ((codes "underlying", integer false 5) ∷ [])

drawing_is_valid : validate_payload plain drawn ≡ ok drawn
unfolding validate_payload clean_data clean_kind clean_provenance clean_options check_blob is_secret
    one_of text_within text_beq check require ◌>>=◌
drawing_is_valid = refl

drawing_breaks_summary :
    summarise tables formats
      (record { id = codes "aa"; payload = drawn; label = codes "x"; added_at = [] })
    ≡ refused raised
unfolding summarise destination text_beq check require ◌>>=◌
drawing_breaks_summary = refl
