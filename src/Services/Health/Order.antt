-- ===== src/Services/Health/Order.antt =====
-- The order in which the providers are tried, and the range of their scores.
use mathlib.Core.List.{Perm}
use mathlib.Core.List.Perm
use lok_lingo.Prelude.{
  ℕ, suc, ◌+◌, ◌≤◌, ◌≡◌, refl, sym, ap, ◌∙◌, inl, inr, true, false, List, [], ◌∷◌, map, All, none,
  some, leb, length, get_elem?, arith, Bool-cases,
}
use lok_lingo.Services.Health.{
  Float64, Name, Candidate, Scores, is_before, insert, sort_stable, candidates, ranking,
  ordered_providers_by_health, clamp_provider_health, blend_provider_health,
  current_provider_health, provider_health_min_score, provider_health_max_score,
}

module _ (fl : Float64) where
  -- A score is neither below the minimum nor above the maximum.
  abbrev pub IsInRange : fl.Number → Type 0
  IsInRange v =
      (fl.lt v (provider_health_min_score fl) ≡ false)
      × (fl.lt (provider_health_max_score fl) v ≡ false)

  clamp_provider_health-IsInRange : (v : fl.Number) → IsInRange (clamp_provider_health fl v)
  unfolding clamp_provider_health
  clamp_provider_health-IsInRange v =
      ground (arith, fl.lt-literal 5 5, fl.lt-literal 150 5, fl.lt-literal 150 150)

  pub blend_provider_health-IsInRange :
      (current target : fl.Number) → IsInRange (blend_provider_health fl current target)
  unfolding blend_provider_health
  blend_provider_health-IsInRange current target = clamp_provider_health-IsInRange _

module _ (fl : Float64) {Provider : Type 0} (name : Provider → Name) where
  abbrev C : Type 0
  C = Candidate fl name

  -- `a` may stand before `b`: its score is not lower, and at equal scores it was not registered later.
  pub record IsRanked (a b : C) : Type 0 where
    pub healthier : fl.lt a.health_score b.health_score ≡ false
    pub earlier : fl.lt b.health_score a.health_score ≡ false → a.base_index ≤ b.base_index

  -- Each candidate may stand before the next.
  abbrev pub AllRanked : List C → Type 0
  AllRanked [] = Unit
  AllRanked (a ∷ []) = Unit
  AllRanked (a ∷ b ∷ l) = IsRanked a b × AllRanked (b ∷ l)

  before-IsRanked : (a b : C) → is_before fl name a b ≡ true → IsRanked a b
  before-IsRanked a b h = record {
    healthier = ground (arith, h, fl.lt_asymm b.health_score a.health_score);
    earlier = λ e. ground (arith, h, e);
  }

  not_before-IsRanked : (a b : C) → is_before fl name b a ≡ false → IsRanked a b
  not_before-IsRanked a b h = record {
    healthier = ground (arith, h, fl.lt_asymm b.health_score a.health_score);
    earlier = λ e. ground (arith, h, e);
  }

  IsRanked-cons : (a b : C) (l : List C) → IsRanked a b → AllRanked (b ∷ l) → AllRanked (a ∷ b ∷ l)
  IsRanked-cons a b l h r = (h, r)

  -- An insertion after a candidate that may stand before the new one.
  insert-AllRanked :
      (a x : C) (l : List C) → IsRanked a x → AllRanked (a ∷ l) → AllRanked (a ∷ insert fl name x l)
  unfolding insert
  insert-AllRanked a x [] h r = (h, tt)
  insert-AllRanked a x (y ∷ ys) h r = elim (Bool-cases (is_before fl name y x)) [
    | inl e ↦ rw (e, insert) (r.0, insert-AllRanked y x ys (before-IsRanked y x e) r.1)
    | inr e ↦ rw (e, insert) (h, (not_before-IsRanked x y e, r.1))
  ]

  insert-first : (x : C) (l : List C) → AllRanked l → AllRanked (insert fl name x l)
  unfolding insert
  insert-first x [] r = tt
  insert-first x (y ∷ ys) r = elim (Bool-cases (is_before fl name y x)) [
    | inl e ↦ rw (e, insert) (insert-AllRanked y x ys (before-IsRanked y x e) r)
    | inr e ↦ rw (e, insert) (not_before-IsRanked x y e, r)
  ]

  sort_stable-AllRanked : (l : List C) → AllRanked (sort_stable fl name l)
  unfolding sort_stable
  sort_stable-AllRanked [] = tt
  sort_stable-AllRanked (x ∷ xs) =
      insert-first x (sort_stable fl name xs) (sort_stable-AllRanked xs)

  insert-Perm : (x : C) (l : List C) → Perm (insert fl name x l) (x ∷ l)
  unfolding insert
  insert-Perm x [] = Perm.rfl
  insert-Perm x (y ∷ ys) = elim (Bool-cases (is_before fl name y x)) [
    | inl e ↦ rw (e, insert) (Perm.trans (Perm.cons y (insert-Perm x ys)) (Perm.swap x y ys))
    | inr e ↦ rw (e, insert) Perm.rfl
  ]

  sort_stable-Perm : (l : List C) → Perm (sort_stable fl name l) l
  unfolding sort_stable
  sort_stable-Perm [] = Perm.rfl
  sort_stable-Perm (x ∷ xs) =
      Perm.trans (insert-Perm x (sort_stable fl name xs)) (Perm.cons x (sort_stable-Perm xs))

  map-candidates :
      (scores : Scores fl) (i : ℕ) (ps : List Provider)
      → map (λ c. c.provider) (candidates fl name scores i ps) ≡ ps
  unfolding candidates
  map-candidates scores i [] = refl
  map-candidates scores i (p ∷ ps) = ap (λ l. p ∷ l) (map-candidates scores (i + 1) ps)

  ranked-map :
      (scores : Scores fl) (ps : List Provider)
      → Perm (map (λ c. c.provider) (ranking fl name scores ps)) ps
  ranked-map scores ps =
      Perm.trans (Perm.map (λ c. c.provider) (sort_stable-Perm (candidates fl name scores 0 ps)))
        (rw (map-candidates scores 0 ps) Perm.rfl)

  ranked_short :
      (scores : Scores fl) (ps : List Provider)
      → leb (length ps) 1 ≡ true
      → map (λ c. c.provider) (ranking fl name scores ps) ≡ ps
  unfolding candidates sort_stable insert
  ranked_short scores [] h = refl
  ranked_short scores (p ∷ []) h = refl
  ranked_short scores (p ∷ q ∷ ps) h = absurd (ground (arith, h))

  -- The score that is recorded for a provider; a score of 1.00 if there is none, or one that is not positive.
  pub record IsScore (scores : Scores fl) (p : Provider) (v : fl.Number) : Type 0 where
    pub unknown : scores (name p) ≡ none → v ≡ fl.literal 100
    pub recorded :
        (u : fl.Number) → scores (name p) ≡ some u → fl.lt (fl.literal 0) u ≡ true → v ≡ u
    pub not_positive :
        (u : fl.Number)
        → scores (name p) ≡ some u
        → fl.lt (fl.literal 0) u ≡ false
        → v ≡ fl.literal 100

  -- A candidate is a registered provider with its place in the registry and its score.
  pub record IsRegistered (scores : Scores fl) (ps : List Provider) (c : C) : Type 0 where
    pub place : get_elem? ps c.base_index ≡ some c.provider
    pub score : IsScore scores c.provider c.health_score

  current_provider_health-IsScore :
      (scores : Scores fl) (p : Provider)
      → IsScore scores p (current_provider_health fl scores (name p))
  unfolding current_provider_health
  current_provider_health-IsScore scores p = record {
    unknown = λ e. rw (e, current_provider_health) refl;
    recorded = λ u e h. rw (e, current_provider_health) (rw h refl);
    not_positive = λ u e h. rw (e, current_provider_health) (rw h refl);
  }

  candidates-AreRegistered :
      (scores : Scores fl) (all ps : List Provider) (i : ℕ)
      → ((j : ℕ) → get_elem? all (i + j) ≡ get_elem? ps j)
      → All (IsRegistered scores all) (candidates fl name scores i ps)
  unfolding candidates
  candidates-AreRegistered scores all [] i h = tt
  candidates-AreRegistered scores all (p ∷ ps) i h = (
    record {
      place = ap (get_elem? all) (plus_zero i) ∙ h 0;
      score = current_provider_health-IsScore scores p;
    },
    candidates-AreRegistered scores all ps (i + 1)
        (λ j. ap (get_elem? all) (plus_suc i j) ∙ h (suc j)),
  )
    where
      plus_zero : (i : ℕ) → i ≡ i + 0
      plus_zero i = omega arith

      plus_suc : (i j : ℕ) → i + 1 + j ≡ i + suc j
      plus_suc i j = omega arith

  insert-All : (P : C → Type 0) (x : C) (l : List C) → P x → All P l → All P (insert fl name x l)
  unfolding insert
  insert-All P x [] h k = (h, tt)
  insert-All P x (y ∷ ys) h k = elim (Bool-cases (is_before fl name y x)) [
    | inl e ↦ rw (e, insert) (k.0, insert-All P x ys h k.1)
    | inr e ↦ rw (e, insert) (h, k)
  ]

  sort_stable-All : (P : C → Type 0) (l : List C) → All P l → All P (sort_stable fl name l)
  unfolding sort_stable
  sort_stable-All P [] h = tt
  sort_stable-All P (x ∷ xs) h =
      insert-All P x (sort_stable fl name xs) h.0 (sort_stable-All P xs h.1)

  -- Each registered provider is tried once, in the order of a ranking whose entries carry the provider's place in
  -- the registry and its score: the recorded one, or 1.00 if there is none, or it is not positive. A healthier
  -- provider stands first, and of two next to each other that are equally healthy the one that was registered first.
  pub ordered_providers_by_health-AllRanked :
      (scores : Scores fl) (ps : List Provider)
      → Perm (ordered_providers_by_health fl name scores ps) ps
        × (ordered_providers_by_health fl name scores ps
            ≡ map (λ c. c.provider) (ranking fl name scores ps))
        × AllRanked (ranking fl name scores ps)
        × All (IsRegistered scores ps) (ranking fl name scores ps)
  unfolding ordered_providers_by_health
  ordered_providers_by_health-AllRanked scores ps =
      let registered =
        sort_stable-All (IsRegistered scores ps) (candidates fl name scores 0 ps)
          (candidates-AreRegistered scores ps ps 0 (λ j. ap (get_elem? ps) (zero_plus j))) in
      elim (Bool-cases (leb (length ps) 1)) [
        | inl e ↦
            rw (e, ordered_providers_by_health)
              (Perm.rfl, sym (ranked_short scores ps e), sort_stable-AllRanked _, registered)
        | inr e ↦
            rw (e, ordered_providers_by_health)
              (ranked-map scores ps, refl, sort_stable-AllRanked _, registered)
      ]
    where
      zero_plus : (j : ℕ) → 0 + j ≡ j
      zero_plus j = omega arith
