-- ===== src/Overlay/Wrap.antt =====
-- The lines of a translated text (backend/internal/services/overlay/draw.go, util.go): words are put on lines of a
-- width, and a word that is too wide is cut. The width of a text in a font is an argument, in pixels;
-- a width of 0 stands for one that is not positive.
pub mod Spaces
pub mod Fit
pub mod Rebalance
pub mod Content
pub mod Widths
pub mod Lines
use lok_lingo.Prelude.{
  ℕ, zero, suc, ◌+◌, ◌-◌, ◌*◌, ◌/◌, Bool, true, false, ◌&&◌, ◌||◌, not, List, [], ◌∷◌, ◌++◌, Option,
  none, some, ltb, leb, ◌==◌, if◌then◌else◌, length, take, drop,
}
use lok_lingo.Go.Text.{Text, text_eq, is_empty, join, flush}
use lok_lingo.Overlay.Script.{is_all_cjk, is_cjk_last_rune, expand_cjk_tokens}

-- " \t\n\r"
unfoldable pub is_blank : ℕ → Bool
is_blank c = (c == 32) || (c == 9) || (c == 10) || (c == 13)

unfoldable pub strings_trim_left : Text → Text
strings_trim_left [] = []
strings_trim_left (c ∷ s) = elim (is_blank c) [ true ↦ strings_trim_left s | false ↦ c ∷ s ]

-- for a set of runes
unfoldable pub strings_trim_right : (ℕ → Bool) → Text → Text
strings_trim_right cut [] = []
strings_trim_right cut (c ∷ s) =
    let rest = strings_trim_right cut s in if cut c && is_empty rest then [] else c ∷ rest

abbrev pub strings_trim_space : Text → Text
strings_trim_space s = strings_trim_right is_blank (strings_trim_left s)

-- with the word read so far
unfoldable pub strings_fields_from : Text → Text → List Text
strings_fields_from current [] = flush current
strings_fields_from current (c ∷ s) = elim (is_blank c) [
  | true ↦ flush current ++ strings_fields_from [] s
  | false ↦ strings_fields_from (current ++ c ∷ []) s
]

abbrev pub strings_fields : Text → List Text
strings_fields s = strings_fields_from [] s

abbrev pub one_space : Text
one_space = 32 ∷ []

abbrev pub no_lines : List Text → Bool
no_lines [] = true
no_lines (l ∷ ls) = false

-- The lines so far, and the line that is being filled.
pub record Wrapped : Type 0 where
  pub lines : List Text
  pub current : Text

-- The last two lines, and those before them.
abbrev pub cons_line : Text → Option (List Text × Text × Text) → Option (List Text × Text × Text)
cons_line l none = none
cons_line l (some (ls, p, q)) = some (l ∷ ls, p, q)

unfoldable pub last_two : List Text → Option (List Text × Text × Text)
last_two [] = none
last_two (l ∷ []) = none
last_two (l ∷ m ∷ []) = some ([], l, m)
last_two (l ∷ m ∷ n ∷ ls) = cons_line l (last_two (m ∷ n ∷ ls))

-- The last two lines as they are to be, and how far their widths are apart.
pub record Balance : Type 0 where
  pub best_prev : Text
  pub best_last : Text
  pub best_delta : ℕ

module _ (measure : Text → ℕ) where
  -- The bounds of the binary search of fitWordToWidth close on the number of runes; without fuel it stops.
  unfoldable pub search : ℕ → ℕ → ℕ → ℕ → Text → ℕ
  search max_width zero lo hi runes = lo
  search max_width (suc fuel) lo hi runes =
      let mid = (lo + hi + 1) / 2 in
      elim (ltb lo hi) [
        | false ↦ lo
        | true ↦ elim (leb (measure (take mid runes)) max_width) [
          | true ↦ search max_width fuel mid hi runes
          | false ↦ search max_width fuel lo (mid - 1) runes
        ]
      ]

  -- A word that is empty fits.
  unfoldable pub fit_word_to_width : Text → ℕ → Text × Text
  fit_word_to_width word max_width =
      let n = search max_width (length word) 1 (length word) word in
      if leb (measure word) max_width then (word, []) else (take n word, drop n word)

  abbrev pub distance : Text → Text → ℕ
  distance a b = (measure a - measure b) + (measure b - measure a)

  -- The balance when so many words go from the one line to the other.
  abbrev pub moved : ℕ → List Text → Text → Balance
  moved n prev_words last =
      let keep = length prev_words - n in
      let new_prev = join (take keep prev_words) one_space in
      let new_last =
        strings_trim_space (join (drop keep prev_words) one_space ++ (one_space ++ last)) in
      record { best_prev = new_prev; best_last = new_last; best_delta = distance new_prev new_last }

  unfoldable pub try_moved : ℕ → ℕ → List Text → Text → Balance → Balance
  try_moved max_width n prev_words last best =
      let b = moved n prev_words last in
      if ltb n (length prev_words)
        && not (ltb max_width (measure b.best_prev) || ltb max_width (measure b.best_last))
        && ltb b.best_delta best.best_delta
      then b
      else best

  -- The last line is short when it takes less than 0.45 of the width.
  abbrev pub is_short : ℕ → Text → Bool
  is_short max_width last = ltb (measure last * 100) (max_width * 45)

  abbrev pub balanced : ℕ → Text → Text → Balance
  balanced max_width prev last =
      let words = strings_fields prev in
      try_moved max_width 2 words last (
        try_moved max_width 1 words last
          (record { best_prev = prev; best_last = last; best_delta = distance prev last }))

  unfoldable pub rebalance_last : ℕ → List Text → List Text × Text × Text → List Text
  rebalance_last max_width lines (before, l, m) =
      let prev = strings_trim_space l in
      let last = strings_trim_space m in
      let b = balanced max_width prev last in
      if is_empty prev
        || is_empty last
        || not (is_short max_width last)
        || ltb (length (strings_fields prev)) 2
        || (text_eq b.best_prev prev && text_eq b.best_last last)
      then lines
      else before ++ b.best_prev ∷ b.best_last ∷ []

  unfoldable pub rebalance_wrapped_lines : ℕ → List Text → List Text
  rebalance_wrapped_lines zero lines = lines
  rebalance_wrapped_lines (suc w) lines = elim (last_two lines) [
    | none ↦ lines
    | some t ↦ rebalance_last (suc w) lines t
  ]

  module _ (split : Text → ℕ → Text × Text) where
    abbrev pub with_piece : Text → Option (List Text × Text) → Option (List Text × Text)
    with_piece h none = none
    with_piece h (some (hs, rest)) = some (h ∷ hs, rest)

    -- The pieces that are cut off a word, and what is left of it. The fuel is the number of its runes.
    unfoldable pub cut_word : ℕ → ℕ → Text → Option (List Text × Text)
    cut_word max_width zero word = if ltb max_width (measure word) then none else some ([], word)
    cut_word max_width (suc fuel) word = elim (ltb max_width (measure word)) [
      | false ↦ some ([], word)
      | true ↦
          let (head, tail) = split word max_width in with_piece head (cut_word max_width fuel tail)
    ]

    abbrev pub flushed : Wrapped → Wrapped
    flushed s = record { lines = s.lines ++ flush s.current; current = [] }

    abbrev pub separator : Text → Text → Text
    separator current word = if is_all_cjk word || is_cjk_last_rune current then [] else one_space

    unfoldable pub add_word : ℕ → Text → Wrapped → Wrapped
    add_word max_width word s =
        let candidate = s.current ++ (separator s.current word ++ word) in
        if is_empty word
        then s
        else if is_empty s.current
        then record s { current = word }
        else if leb (measure candidate) max_width
        then record s { current = candidate }
        else record { lines = (flushed s).lines; current = word }

    abbrev pub add_pieces : List Text → Wrapped → Wrapped
    add_pieces [] s = s
    add_pieces (h ∷ hs) s = record { lines = (flushed s).lines ++ h ∷ hs; current = [] }

    unfoldable pub wrap_words : ℕ → List Text → Wrapped → Option Wrapped
    wrap_words max_width [] s = some s
    wrap_words max_width (word ∷ words) s = elim (cut_word max_width (length word) word) [
      | none ↦ none
      | some (pieces, rest) ↦
          wrap_words max_width words (add_word max_width rest (add_pieces pieces s))
    ]

    abbrev pub no_words_yet : Wrapped
    no_words_yet = record { lines = []; current = [] }

    -- `none` is a word that is cut for ever.
    unfoldable pub wrap_tokens : ℕ → List Text → Option (List Text)
    wrap_tokens zero tokens = some (join tokens one_space ∷ [])
    wrap_tokens (suc w) tokens = elim (wrap_words (suc w) tokens no_words_yet) [
      | none ↦ none
      | some s ↦ some (rebalance_wrapped_lines (suc w) (flushed s).lines)
    ]

    unfoldable pub wrap_lines : Text → ℕ → Option (List Text)
    wrap_lines text max_width =
        let words = strings_fields text in
        if no_lines words then some [] else wrap_tokens max_width (expand_cjk_tokens words)

  -- wrapTextToWidth
  abbrev pub wrap_text_to_width : Text → ℕ → Option (List Text)
  wrap_text_to_width = wrap_lines fit_word_to_width

  abbrev pub ellipsis : Text
  ellipsis = 0x2026 ∷ []

  -- The longest prefix of so many runes or fewer that fits when the blanks at its end are cut.
  unfoldable pub fitting_prefix : ℕ → ℕ → Text → Text
  fitting_prefix body_width zero runes = []
  fitting_prefix body_width (suc i) runes =
      let prefix = strings_trim_right (λ c. c == 32) (take (suc i) runes) in
      elim (leb (measure prefix) body_width) [
        | true ↦ prefix
        | false ↦ fitting_prefix body_width i runes
      ]

  abbrev pub shortened : ℕ → Text → Text
  shortened body_width last =
      if ltb body_width (measure last) then fitting_prefix body_width (length last) last else last

  -- The lines, of which there are more than `max_lines`, cut to so many.
  unfoldable pub truncate_with_ellipsis : List Text → ℕ → ℕ → List Text
  truncate_with_ellipsis [] max_lines max_width = []
  truncate_with_ellipsis (l ∷ ls) zero max_width = []
  truncate_with_ellipsis (l ∷ ls) (suc zero) max_width =
      (shortened (max_width - measure ellipsis) l ++ ellipsis) ∷ []
  truncate_with_ellipsis (l ∷ ls) (suc (suc n)) max_width =
      l ∷ truncate_with_ellipsis ls (suc n) max_width
