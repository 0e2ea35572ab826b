-- ===== src/Jobs/Translate/Alignment.antt =====
-- A translated chunk has a unit for each unit of the chunk, on the same page and in the same order.
use mathlib.Core.List.{map-append}
use mathlib.Core.Path.{subst}
use lok_lingo.Prelude.{
  ℕ, zero, suc, ◌≤◌, ◌<◌, ◌≡◌, refl, sym, ap, ◌∙◌, inl, inr, List, [], ◌∷◌, ◌++◌, map, arith,
  Bool-cases, Option-cases, length, length-take, length-drop, take, drop, take-append-drop, ◌==◌,
  ==_iff,
}
use lok_lingo.Go.Text.{Text, split}
use lok_lingo.Go.Failure.{Result, ok, err, Result-cases}
use lok_lingo.Jobs.Chunks.{ChunkUnit}
use lok_lingo.Jobs.Translate.Retry.{Runtime, State, translate_with_retry}
use lok_lingo.Jobs.Translate.{
  Outcome, returns, panics, runs_out, assign, both, middle, pdf_chunk_sep, translate_each,
  translate_single, translate_joined, use_answer, count_split, translate_chunk,
}

abbrev pub pages_of : List ChunkUnit → List ℕ
pages_of = map (λ u. u.page_index)

-- A success is aligned with the units that were given.
abbrev pub IsAligned : List ChunkUnit → Result (List ChunkUnit) → Type 0
IsAligned us (ok out) = pages_of out ≡ pages_of us
IsAligned us (err e) = Unit

-- The call returns, and a success is aligned.
abbrev pub ReturnsAligned : List ChunkUnit → Outcome (Result (List ChunkUnit)) → Type 0
ReturnsAligned us (returns r) = IsAligned us r
ReturnsAligned us panics = ⊥
ReturnsAligned us runs_out = ⊥

assign-pages :
    (us : List ChunkUnit) (parts : List Text)
    → length parts ≡ length us
    → pages_of (assign us parts) ≡ pages_of us
assign-pages [] parts h = refl
assign-pages (u ∷ us) [] h = absurd (omega arith)
assign-pages (u ∷ us) (p ∷ parts) h =
    ap (λ x. u.page_index ∷ x) (assign-pages us parts (omega arith))

both-ReturnsAligned :
    {S : Type 0} (us vs : List ChunkUnit) (a : Outcome (Result (List ChunkUnit)) × S)
    (next : S → Outcome (Result (List ChunkUnit)) × S)
    → ReturnsAligned us a.0
    → ((s : S) → ReturnsAligned vs (next s).0)
    → ReturnsAligned (us ++ vs) (both a next).0
both-ReturnsAligned us vs (returns (err e), s) next h k = tt
both-ReturnsAligned us vs (panics, s) next h k = h
both-ReturnsAligned us vs (runs_out, s) next h k = h
both-ReturnsAligned {S} us vs (returns (ok left), s) next h k = join_answers (next s) (k s)
  where
    join_answers :
        (q : Outcome (Result (List ChunkUnit)) × S)
        → ReturnsAligned vs q.0
        → ReturnsAligned (us ++ vs) (both (returns (ok left), s) (λ _. q)).0
    join_answers (returns (ok right), s') j =
        map-append (λ (u : ChunkUnit). u.page_index) left right
        ∙ ap (λ x. x ++ pages_of right) h
        ∙ ap (λ x. pages_of us ++ x) j
        ∙ sym (map-append (λ (u : ChunkUnit). u.page_index) us vs)
    join_answers (returns (err e), s') j = tt
    join_answers (panics, s') j = j
    join_answers (runs_out, s') j = j

module _ (rt : Runtime) where
  translate_each-IsAligned :
      (us : List ChunkUnit) (ctx : rt.Ctx) (source target : Text) (s : State rt)
      → IsAligned us (translate_each rt us ctx source target s).0
  unfolding translate_each
  translate_each-IsAligned [] ctx source target s = refl
  translate_each-IsAligned (u ∷ us) ctx source target s =
      let (r, s1) = translate_with_retry rt ctx u.text source target s in
      ground (arith, translate_each-IsAligned us ctx source target s1)

  translate_single-IsAligned :
      (u : ChunkUnit) (ctx : rt.Ctx) (source target : Text) (s : State rt)
      → IsAligned (u ∷ []) (translate_single rt u ctx source target s).0
  unfolding translate_single
  translate_single-IsAligned u ctx source target s = ground arith

  use_answer-IsAligned :
      (us : List ChunkUnit) (t : Text) (ctx : rt.Ctx) (source target : Text) (s : State rt)
      → IsAligned us (use_answer rt us t ctx source target s).0
  unfolding use_answer
  use_answer-IsAligned us t ctx source target s =
      elim (Bool-cases (length (split t pdf_chunk_sep) == length us)) [
        | inl e ↦ rw e (assign-pages us (split t pdf_chunk_sep) ((==_iff _ _).0 e))
        | inr e ↦ rw e (translate_each-IsAligned us ctx source target s)
      ]

  -- The two halves of a chunk of at least two units, each with its own answer.
  halves_aligned :
      (fuel : ℕ) (us : List ChunkUnit) (ctx : rt.Ctx) (source target : Text)
      → length us ≤ suc fuel
      → 1 < length us
      → ((vs : List ChunkUnit) (s : State rt)
          → length vs ≤ fuel
          → 0 < length vs
          → ReturnsAligned vs (translate_chunk rt fuel vs ctx source target s).0)
      → (s : State rt)
      → ReturnsAligned us
          (both
            (translate_chunk rt fuel (take (middle us) us) ctx source target s)
            (translate_chunk rt fuel (drop (middle us) us) ctx source target)).0
  halves_aligned fuel us ctx source target h p ih s =
      subst
        (λ l.
          ReturnsAligned l
            (both (translate_chunk rt fuel (take (middle us) us) ctx source target s)
              (translate_chunk rt fuel (drop (middle us) us) ctx source target)).0)
        (take-append-drop (middle us) us)
        (both-ReturnsAligned (take (middle us) us) (drop (middle us) us) _ _
          (ih (take (middle us) us) s (ground (arith, length-take (middle us) us))
            (ground (arith, length-take (middle us) us)))
          (λ t.
            ih (drop (middle us) us) t (ground (arith, length-drop (middle us) us))
              (ground (arith, length-drop (middle us) us))))

  -- With fuel for its units a chunk that has a unit returns, and never runs into the panic of the empty
  -- chunk: the answer is an error, or it has a unit for each unit of the chunk, on the same page and in
  -- the same order.
  pub translate_chunk-ReturnsAligned :
      (fuel : ℕ) (us : List ChunkUnit) (ctx : rt.Ctx) (source target : Text) (s : State rt)
      → length us ≤ fuel
      → 0 < length us
      → ReturnsAligned us (translate_chunk rt fuel us ctx source target s).0
  unfolding translate_chunk
  translate_chunk-ReturnsAligned zero us ctx source target s h p = absurd (omega arith)
  translate_chunk-ReturnsAligned (suc fuel) [] ctx source target s h p = elim p [ ]
  translate_chunk-ReturnsAligned (suc fuel) (u ∷ []) ctx source target s h p =
      translate_single-IsAligned u ctx source target s
  translate_chunk-ReturnsAligned (suc fuel) (u ∷ v ∷ us) ctx source target s h p =
      let (r, s1) = translate_joined rt (u ∷ v ∷ us) ctx source target s in
      elim (Result-cases r) [
        | inl (t, e) ↦
            rw (e, translate_chunk) (use_answer-IsAligned (u ∷ v ∷ us) t ctx source target s1)
        | inr (x, e) ↦ elim (Option-cases (rt.ctx_err ctx s1.world)) [
          | inr (d, f) ↦ rw (e, translate_chunk) (rw f tt)
          | inl f ↦
              rw (e, translate_chunk)
                (rw f (
                  halves_aligned fuel (u ∷ v ∷ us) ctx source target h (omega arith)
                    (λ vs t k q. translate_chunk-ReturnsAligned fuel vs ctx source target t k q)
                    (count_split rt x s1)))
        ]
      ]
