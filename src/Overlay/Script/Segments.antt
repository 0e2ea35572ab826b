-- ===== src/Overlay/Script/Segments.antt =====
-- The segments of a line (splitIntoScriptSegments in backend/internal/services/overlay/font.go).
use mathlib.Core.Path.{subst}
use mathlib.Core.List.{append_assoc}
use lok_lingo.Prelude.{
  ◌≡◌, refl, ap, ◌∙◌, inl, inr, Bool, true, false, not, List, [], ◌∷◌, ◌++◌, All, All-append,
  Bool-cases, concat, map,
}
use lok_lingo.Go.Text.{Text}
use lok_lingo.Overlay.Script.{
  ScriptSegment, is_fallback_rune, same_bool, segments_from, split_into_script_segments,
}

-- The segments are of the one kind and of the other in turn, the first of this kind, and each has only
-- runes of its kind.
abbrev pub Alternates : Bool → List ScriptSegment → Type 0
Alternates cur [] = Unit
Alternates cur (g ∷ gs) =
    (g.use_system ≡ cur) × All (λ r. is_fallback_rune r ≡ cur) g.text × Alternates (not cur) gs

abbrev pub texts : List ScriptSegment → Text
texts gs = concat (map (λ (g : ScriptSegment). g.text) gs)

same : (a b : Bool) → same_bool a b ≡ true → a ≡ b
same true true e = refl
same false false e = refl
same true false e = absurd (cc)
same false true e = absurd (cc)

other : (a b : Bool) → same_bool a b ≡ false → a ≡ not b
other true false e = refl
other false true e = refl
other true true e = absurd (cc)
other false false e = absurd (cc)

segments_from-texts :
    (run : Text) (cur : Bool) (rs : Text) → texts (segments_from run cur rs) ≡ run ++ rs
unfolding segments_from
segments_from-texts run cur [] = refl
segments_from-texts run cur (r ∷ rs) = elim (Bool-cases (same_bool (is_fallback_rune r) cur)) [
  | inl e ↦
      rw (e, segments_from)
        (segments_from-texts (run ++ r ∷ []) cur rs ∙ append_assoc run (r ∷ []) rs)
  | inr e ↦
      rw (e, segments_from)
        (ap (λ t. run ++ t) (segments_from-texts (r ∷ []) (is_fallback_rune r) rs))
]

segments_from-Alternates :
    (run : Text) (cur : Bool) (rs : Text)
    → All (λ r. is_fallback_rune r ≡ cur) run
    → Alternates cur (segments_from run cur rs)
unfolding segments_from
segments_from-Alternates run cur [] h = (refl, h, tt)
segments_from-Alternates run cur (r ∷ rs) h =
    elim (Bool-cases (same_bool (is_fallback_rune r) cur)) [
      | inl e ↦
          rw (e, segments_from)
            (segments_from-Alternates (run ++ r ∷ []) cur rs
              (All-append _ run (r ∷ []) h (same _ _ e, tt)))
      | inr e ↦
          let k = other (is_fallback_rune r) cur e in
          rw (e, segments_from)
            (
              refl,
              h,
              subst (λ c. Alternates c (segments_from (r ∷ []) (is_fallback_rune r) rs)) k
                  (segments_from-Alternates (r ∷ []) (is_fallback_rune r) rs (refl, tt)),
            )
    ]

-- The segments of a line are the line, cut up: joined they are the line, a segment has only runes that the
-- fallback fonts cover or only others, and two that follow each other differ in this.
pub split_into_script_segments-Alternates :
    (s : Text)
    → (texts (split_into_script_segments s) ≡ s)
      × ((cur : Bool) × Alternates cur (split_into_script_segments s))
unfolding split_into_script_segments
split_into_script_segments-Alternates [] = (refl, (true, tt))
split_into_script_segments-Alternates (r ∷ rs) = (
  segments_from-texts (r ∷ []) (is_fallback_rune r) rs,
  (is_fallback_rune r, segments_from-Alternates (r ∷ []) (is_fallback_rune r) rs (refl, tt)),
)
