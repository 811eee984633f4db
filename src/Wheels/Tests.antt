-- ===== src/Wheels/Tests.antt =====
-- Runs of code/backend/wheels.py, and the theorems applied there.
use grindstone.Prelude.{
  ℕ, ◌≡◌, refl, Bool, true, false, ◌&&◌, ◌||◌, not, some, List, [], ◌∷◌, Text, codes, text_eq,
  nat_eq, ◌==◌, leb, every, upper, ok, if◌then◌else◌, ◌++◌, every-contains, refused, ◌>>=◌, check,
  require, text_beq,
}
use grindstone.Unicode.{Unicode}
use grindstone.Json.{null, Json, array, nil, one_of, text_within}
use grindstone.UserSettings.{Row, upsert_value}
use grindstone.Wheels.Vocabulary.{doc_key, builtin_ids, is_builtin, is_dynamic_kind, kind_of}
use grindstone.Wheels.Document.{default_doc, doc_json, symbol_of, segment_json, blank}
use grindstone.Wheels.Segments.{
  bad_ticker, must_be_an_object, is_wheel_id, read_segment, clean_segment,
}
use grindstone.Wheels.Validate.{validate}
use grindstone.Wheels.Whole.{is_whole}
use grindstone.Wheels.Sound.{validate-is_whole}
use grindstone.Wheels.RoundTrip.{are_settled, validate-doc_json}
use grindstone.Wheels.Stored.{attribute_error, Codec, get_doc, put_doc}
use grindstone.Wheels.Named.{succeeds}
use grindstone.Wheels.Kept.{KnowsBuiltins, get_doc-put_doc}

abbrev is_letter : ℕ → Bool
is_letter c = (leb b'a' c && leb c b'z') || (leb b'A' c && leb c b'Z')

abbrev is_word : ℕ → Bool
is_word c = is_letter c || ((leb b'0' c && leb c b'9') || c == b'_')

abbrev starts_word : Text → Bool
starts_word [] = false
starts_word (c ∷ t) = (is_letter c || c == b'_') && every is_word t

-- The tables, on ASCII.
abbrev ascii : Unicode
ascii = record {
  is_identifier = starts_word;
  is_alnum = λ c. is_word c && not (c == b'_');
  uppercase = upper;
  lowercase = λ t. t;
}

abbrev plain : Codec Json
plain = record { dumps = λ j. j; loads = λ j. some j }

default_settled : are_settled ascii default_doc ≡ true
default_settled = refl

default_whole : is_whole ascii default_doc ≡ true
unfolding text_beq is_builtin is_dynamic_kind
default_whole = refl

default_stays : validate ascii (doc_json default_doc) ≡ ok default_doc
default_stays = validate-doc_json ascii default_doc default_whole default_settled

validate-is_whole_example : is_whole ascii default_doc ≡ true
validate-is_whole_example = validate-is_whole ascii (doc_json default_doc) default_doc default_stays

validate-doc_json_example : validate ascii (doc_json default_doc) ≡ ok default_doc
validate-doc_json_example = validate-doc_json ascii default_doc default_whole default_settled

abbrev table : List (Row Json)
table = upsert_value 7 doc_key (doc_json default_doc) []

default_put : put_doc ascii plain [] 7 (doc_json default_doc) ≡ ok (table, default_doc)
unfolding put_doc ◌>>=◌
default_put = rw default_stays refl

default_got : get_doc ascii plain table 7 ≡ ok default_doc
default_got =
    get_doc-put_doc ascii plain [] table 7 (doc_json default_doc) default_doc (λ j. refl)
      default_put default_settled

get_doc-put_doc_example : get_doc ascii plain table 7 ≡ ok default_doc
get_doc-put_doc_example =
    get_doc-put_doc ascii plain [] table 7 (doc_json default_doc) default_doc (λ j. refl)
      default_put default_settled

builtins_identify : every (is_wheel_id ascii) builtin_ids ≡ true
builtins_identify = refl

ascii-KnowsBuiltins : KnowsBuiltins ascii
ascii-KnowsBuiltins t h = every-contains (is_wheel_id ascii) builtin_ids t builtins_identify h

-- A row that is valid JSON and no object is not read as a corrupt one.
not_an_object_crashes :
    get_doc ascii plain (upsert_value 7 doc_key (array nil) []) 7 ≡ refused attribute_error
unfolding get_doc text_beq
not_an_object_crashes = refl

-- A letter whose capital is two letters.
abbrev sharp : ℕ → Text
sharp c = if c == 0xdf then codes "SS" else c ∷ []

abbrev german : Text → Text
german [] = []
german (c ∷ t) = sharp c ++ german t

abbrev tables : Unicode
tables = record {
  is_identifier = starts_word;
  is_alnum = λ c. (is_word c && not (c == b'_')) || c == 0xdf;
  uppercase = german;
  lowercase = λ t. t;
}

abbrev long_ticker : Text
long_ticker = codes "SSSSSSSSSS"

-- A ticker that `validate` accepts, and does not accept again as it was stored.
grows :
    read_segment tables [] (segment_json (symbol_of [] (0xdf ∷ 0xdf ∷ 0xdf ∷ 0xdf ∷ 0xdf ∷ [])))
    ≡ ok (symbol_of [] long_ticker)
unfolding read_segment clean_segment text_beq kind_of ◌>>=◌ require check one_of text_within
grows = refl

refuses_grown :
    read_segment tables [] (segment_json (symbol_of [] long_ticker)) ≡ refused bad_ticker
unfolding read_segment clean_segment text_beq kind_of ◌>>=◌ require check one_of text_within
refuses_grown = refl

blank_reads : every (λ b. succeeds (read_segment ascii [] b)) (segment_json (blank []) ∷ []) ≡ true
unfolding read_segment clean_segment text_beq kind_of ◌>>=◌ require check one_of text_within
blank_reads = refl

null_refused : read_segment ascii [] null ≡ refused must_be_an_object
unfolding read_segment
null_refused = refl
