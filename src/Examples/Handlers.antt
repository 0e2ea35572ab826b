-- ===== src/Examples/Handlers.antt =====
-- The validation of requests at concrete inputs (backend/handlers/validation.go).
use lok_lingo.Prelude.{◌≡◌, refl, true, [], ◌⊎◌, ◌↔◌, false}
use lok_lingo.Go.Text.{
  Text, codes, trim_space, trim_left, trim_right, is_space, to_lower, lower_char,
}
use lok_lingo.Go.Failure.{ok}
use lok_lingo.Handlers.Validation.{
  language_code_pattern, matches_region, matches_third, all_alphanumeric, normalize_lang_code,
  is_valid_source_language, is_valid_target_language, normalize_and_validate_source_target,
  normalize_and_validate_file_mode,
}
use lok_lingo.Handlers.Validation.Pattern.{IsLanguageCode, language_code_pattern_iff}
use lok_lingo.Handlers.Validation.Languages.{normalize_and_validate_source_target-normal}

abbrev brazilian : Text
brazilian = codes "pt-br"

brazilian_accepted :
    normalize_and_validate_source_target [] (codes " PT-Br ") ≡ ok (codes "auto", brazilian)
unfolding normalize_and_validate_source_target is_valid_source_language is_valid_target_language
    normalize_lang_code trim_space trim_left trim_right is_space to_lower lower_char
    language_code_pattern matches_third matches_region all_alphanumeric
brazilian_accepted = refl

normalize_and_validate_source_target-normal_example :
    ((codes "auto" ≡ codes "auto") ⊎ IsLanguageCode (codes "auto"))
    × IsLanguageCode brazilian
    × (normalize_and_validate_source_target (codes "auto") brazilian ≡ ok (codes "auto", brazilian))
normalize_and_validate_source_target-normal_example =
    normalize_and_validate_source_target-normal [] (codes " PT-Br ") (codes "auto") brazilian
      brazilian_accepted

language_code_pattern_iff_example :
    (language_code_pattern brazilian ≡ true) ↔ IsLanguageCode brazilian
language_code_pattern_iff_example = language_code_pattern_iff brazilian

auto_refused : language_code_pattern (codes "auto") ≡ false
unfolding language_code_pattern matches_third matches_region
auto_refused = refl

default_mode : normalize_and_validate_file_mode (codes " ") ≡ ok (codes "overlay")
unfolding normalize_and_validate_file_mode trim_space trim_left trim_right is_space
default_mode = refl
