-- ===== src/Handlers/Validation.antt =====
-- The texts, language codes and modes of a request (backend/handlers/validation.go).
pub mod Pattern
pub mod Languages
use lok_lingo.Prelude.{
  ℕ, ◌+◌, Bool, true, false, ◌&&◌, ◌||◌, List, [], ◌∷◌, none, leb, ltb, ◌==◌, if◌then◌else◌, length,
}
use lok_lingo.Go.Text.{Text, codes, text_eq, is_empty, trim_space, to_lower}
use lok_lingo.Go.Failure.{plain_error, GoError, Result, ok, err}

-- fmt.Errorf without a wrapped error
abbrev pub errorf : Text → GoError
errorf message = plain_error message

unfoldable pub normalize_lang_code : Text → Text
normalize_lang_code v = to_lower (trim_space v)

abbrev pub is_letter : ℕ → Bool
is_letter c = leb b'a' c && leb c b'z'

abbrev pub is_alphanumeric : ℕ → Bool
is_alphanumeric c = is_letter c || (leb b'0' c && leb c b'9')

unfoldable pub all_alphanumeric : Text → Bool
all_alphanumeric [] = true
all_alphanumeric (c ∷ s) = is_alphanumeric c && all_alphanumeric s

-- (?:-[a-z0-9]{2,8})?$
unfoldable pub matches_region : Text → Bool
matches_region [] = true
matches_region (c ∷ s) = (c == b'-') && leb 2 (length s) && leb (length s) 8 && all_alphanumeric s

-- [a-z]?(?:-[a-z0-9]{2,8})?$
unfoldable pub matches_third : Text → Bool
matches_third [] = true
matches_third (c ∷ s) = matches_region (c ∷ s) || (is_letter c && matches_region s)

-- languageCodePattern.MatchString, for ^[a-z]{2,3}(?:-[a-z0-9]{2,8})?$
unfoldable pub language_code_pattern : Text → Bool
language_code_pattern [] = false
language_code_pattern (a ∷ []) = false
language_code_pattern (a ∷ b ∷ s) = is_letter a && is_letter b && matches_third s

unfoldable pub is_valid_source_language : Text → Bool
is_valid_source_language v = if text_eq v (codes "auto") then true else language_code_pattern v

unfoldable pub is_valid_target_language : Text → Bool
is_valid_target_language v = if text_eq v (codes "auto") then false else language_code_pattern v

abbrev pub or_auto : Text → Text
or_auto source = if is_empty source then codes "auto" else source

-- With the codes normalised.
abbrev pub check_source_target : Text → Text → Result (Text × Text)
check_source_target source target =
    if is_empty target
    then err (errorf (codes "target is required"))
    else if is_valid_source_language (or_auto source)
    then (if is_valid_target_language target
        then ok (or_auto source, target)
        else err (errorf (codes "target must be a valid language code")))
    else err (errorf (codes "source must be auto or a valid language code"))

unfoldable pub normalize_and_validate_source_target : Text → Text → Result (Text × Text)
normalize_and_validate_source_target source_raw target_raw =
    check_source_target (normalize_lang_code source_raw) (normalize_lang_code target_raw)

abbrev pub max_translate_text_chars : ℕ
max_translate_text_chars = 10000

-- The bytes of a code point in UTF-8.
abbrev pub utf8_size : ℕ → ℕ
utf8_size c = if ltb c 0x80 then 1 else if ltb c 0x800 then 2 else if ltb c 0x10000 then 3 else 4

-- len(text), in bytes
unfoldable pub utf8_length : Text → ℕ
utf8_length [] = 0
utf8_length (c ∷ s) = utf8_size c + utf8_length s

unfoldable pub normalize_and_validate_text : Text → Result Text
normalize_and_validate_text raw =
    let text = trim_space raw in
    if is_empty text
    then err (errorf (codes "text is required"))
    else if ltb max_translate_text_chars (utf8_length text)
    then err (errorf (codes "text exceeds max length (10000 characters)"))
    else ok text

-- jobs.DefaultMode
abbrev pub or_default : Text → Text
or_default mode = if is_empty mode then codes "overlay" else mode

abbrev pub is_render_mode : Text → Bool
is_render_mode mode = text_eq mode (codes "overlay") || text_eq mode (codes "layout")

unfoldable pub normalize_and_validate_mode : Text → Result Text
normalize_and_validate_mode raw =
    let mode = or_default (trim_space raw) in
    if is_render_mode mode
    then ok mode
    else err (errorf (codes "mode must be \"overlay\" or \"layout\""))

-- normalizeAndValidateImageMode and normalizeAndValidatePDFMode, which are the same
unfoldable pub normalize_and_validate_file_mode : Text → Result Text
normalize_and_validate_file_mode raw =
    let mode = or_default (trim_space raw) in
    if is_render_mode mode || text_eq mode (codes "ocr_only")
    then ok mode
    else err (errorf (codes "mode must be \"overlay\", \"layout\", or \"ocr_only\""))
