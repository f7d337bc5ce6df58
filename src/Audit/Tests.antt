-- ===== src/Audit/Tests.antt =====
-- Tests of the hash chain on small files, with a toy parser and digest.
use Prim.Native.String.{◌∷◌ as char_cons}
use ownpg.Base.{String, ◌≡◌, refl, ◌≢◌, ◌⊎◌, List, [], ◌∷◌, ◌++◌, ◌==◌, if◌then◌else◌}
use ownpg.Json.{get, get_field, as_str, as_bool, Value, int, pos, text, obj, end, field}
use ownpg.Classify.Statement.{Reply, given, failed}
use ownpg.Audit.Chain.{
  broken, sound, verify_chain, verify_from, check_value, check_link, check_version, starts_file,
  marker_of, entry_unlinked, marker_unlinked, cut_off,
}
use ownpg.Audit.Chain.Evident.{Collision, verify_chain-evident}
use ownpg.Audit.Chain.Extends.{Continues, digest_after, verify_chain-append}

abbrev digest : String → String
digest s = char_cons "#" s

abbrev head_line : Value
head_line =
    obj (field "v" (int (pos 1)) (field "marker" (text "chain-start") (field "prev" (text "") end)))

abbrev entry_after : String → Value
entry_after prev = obj (field "v" (int (pos 1)) (field "prev" (text prev) end))

abbrev toy_parse : String → Reply Value
toy_parse s =
    if s == "a"
    then given head_line
    else if s == "b"
    then given (entry_after "#a")
    else if s == "c"
    then given (entry_after "#b")
    else failed "no JSON"

verify_two : verify_chain toy_parse digest ("a" ∷ "b" ∷ []) "" ≡ sound 1
unfolding verify_chain verify_from check_value check_link check_version starts_file marker_of get
    get_field as_str as_bool
verify_two = refl

verify_spliced : verify_chain toy_parse digest ("a" ∷ "b" ∷ "a" ∷ []) "" ≡ broken 3 marker_unlinked
unfolding verify_chain verify_from check_value check_link check_version starts_file marker_of get
    get_field as_str as_bool
verify_spliced = refl

verify_dropped : verify_chain toy_parse digest ("a" ∷ "c" ∷ []) "" ≡ broken 2 entry_unlinked
unfolding verify_chain verify_from check_value check_link check_version starts_file marker_of get
    get_field as_str as_bool
verify_dropped = refl

verify_torn : verify_chain toy_parse digest ("a" ∷ []) "b" ≡ broken 2 cut_off
unfolding verify_chain verify_from check_value check_link check_version starts_file marker_of get
    get_field as_str as_bool
verify_torn = refl

added-Continues : Continues (digest_after digest "" ("a" ∷ "b" ∷ [])) (entry_after "#b")
unfolding starts_file marker_of check_version get get_field as_str as_bool
added-Continues = record {
  version = 1;
  has_version = refl;
  known = refl;
  has_prev = refl;
  stays = refl;
}

verify_chain-append_example :
    verify_chain toy_parse digest (("a" ∷ "b" ∷ []) ++ "c" ∷ []) "" ≡ sound 2
unfolding marker_of get
verify_chain-append_example =
    verify_chain-append toy_parse digest "a" ("b" ∷ []) "" "c" 1 (entry_after "#b") verify_two refl
      added-Continues

digest_is_some : (z : String) → digest z ≢ ""
digest_is_some z = λ h. cc

abbrev two : List String
two = "a" ∷ "b" ∷ []

verify_chain-evident_example : (two ≡ two) ⊎ Collision digest
verify_chain-evident_example =
    verify_chain-evident toy_parse digest two two "" "" 1 1 "b" digest_is_some verify_two verify_two
      refl refl
