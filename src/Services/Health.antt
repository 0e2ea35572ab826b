-- ===== src/Services/Health.antt =====
-- The health scores of the providers, and the order in which they are tried (backend/services/orchestrator.go).
pub mod Order
use Prim.Native.String.{String}
use text.Mathlib.Text.{◌==◌ as str_eq}
use lok_lingo.Prelude.{
  ℕ, zero, suc, ◌+◌, ◌≡◌, Bool, true, false, not, ◌&&◌, List, [], ◌∷◌, map, Option, none, some, ltb,
  leb, if◌then◌else◌, length,
}

-- TranslationProvider.Name()
abbrev pub Name : Type 0
Name = String

-- The numbers of float64 that are not NaN, with the order that IEEE 754 gives them. The literal is in
-- hundredths.
pub record Float64 : Type 1 where
  pub Number : Type 0
  pub lt : Number → Number → Bool
  pub lt_asymm : (a b : Number) → lt a b ≡ true → lt b a ≡ false
  pub lt_weak : (a b c : Number) → lt a b ≡ false → lt b c ≡ false → lt a c ≡ false
  pub add : Number → Number → Number
  pub sub : Number → Number → Number
  pub mul : Number → Number → Number
  pub literal : ℕ → Number
  pub lt-literal : (m n : ℕ) → lt (literal m) (literal n) ≡ ltb m n

abbrev pub same_name : Name → Name → Bool
same_name a b = str_eq a b

module _ (fl : Float64) where
  open fl use {Number, lt, add, sub, mul, literal}

  abbrev pub provider_health_default_score : Number
  provider_health_default_score = literal 100

  abbrev pub provider_health_max_score : Number
  provider_health_max_score = literal 150

  abbrev pub provider_health_min_score : Number
  provider_health_min_score = literal 5

  abbrev pub provider_health_success_target : Number
  provider_health_success_target = literal 120

  abbrev pub provider_health_transient_target : Number
  provider_health_transient_target = literal 35

  abbrev pub provider_health_permanent_target : Number
  provider_health_permanent_target = literal 15

  abbrev pub provider_health_smoothing : Number
  provider_health_smoothing = literal 22

  -- The map providerHealth.
  abbrev pub Scores : Type 0
  Scores = Name → Option Number

  unfoldable pub clamp_provider_health : Number → Number
  clamp_provider_health v =
      if lt v provider_health_min_score
      then provider_health_min_score
      else if lt provider_health_max_score v
      then provider_health_max_score
      else v

  -- current <= 0
  abbrev pub or_default : Number → Number
  or_default current = if lt (literal 0) current then current else provider_health_default_score

  unfoldable pub blend_provider_health : Number → Number → Number
  blend_provider_health current target = clamp_provider_health (
      add (mul (sub (literal 100) provider_health_smoothing) (or_default current))
        (mul provider_health_smoothing target))

  unfoldable pub current_provider_health : Scores → Name → Number
  current_provider_health scores name = elim (scores name) [
    | none ↦ provider_health_default_score
    | some score ↦ or_default score
  ]

  -- A missing entry reads as 0.
  abbrev pub entry : Option Number → Number
  entry none = literal 0
  entry (some score) = score

  unfoldable pub update_provider_health : Name → Number → Scores → Scores
  update_provider_health name target scores other =
      if same_name name other
      then some (blend_provider_health (entry (scores name)) target)
      else scores other

  module _ {Provider : Type 0} (name : Provider → Name) where
    pub record Candidate : Type 0 where
      pub provider : Provider
      pub base_index : ℕ
      pub health_score : Number

    -- The comparison that is given to sort.SliceStable.
    abbrev pub is_before : Candidate → Candidate → Bool
    is_before a b =
        if not (lt a.health_score b.health_score) && not (lt b.health_score a.health_score)
        then ltb a.base_index b.base_index
        else lt b.health_score a.health_score

    -- A stable sort, by insertion.
    unfoldable pub insert : Candidate → List Candidate → List Candidate
    insert x [] = x ∷ []
    insert x (y ∷ ys) = let rest = insert x ys in if is_before y x then y ∷ rest else x ∷ y ∷ ys

    unfoldable pub sort_stable : List Candidate → List Candidate
    sort_stable [] = []
    sort_stable (x ∷ xs) = insert x (sort_stable xs)

    unfoldable pub candidates : Scores → ℕ → List Provider → List Candidate
    candidates scores i [] = []
    candidates scores i (p ∷ ps) =
        record {
          provider = p;
          base_index = i;
          health_score = current_provider_health scores (name p);
        }
        ∷ candidates scores (i + 1) ps

    abbrev pub ranking : Scores → List Provider → List Candidate
    ranking scores ps = sort_stable (candidates scores 0 ps)

    -- What it is given is registry.Ordered().
    unfoldable pub ordered_providers_by_health : Scores → List Provider → List Provider
    ordered_providers_by_health scores ps =
        if leb (length ps) 1 then ps else map (λ c. c.provider) (ranking scores ps)

    -- SnapshotProviderHealth
    unfoldable pub snapshot_provider_health : Scores → List Provider → List (Name × Number)
    snapshot_provider_health scores ps =
        map (λ p. (name p, current_provider_health scores (name p)))
          (ordered_providers_by_health scores ps)
