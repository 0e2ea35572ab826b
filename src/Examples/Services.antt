-- ===== src/Examples/Services.antt =====
-- The orchestrator over providers that always fail or always answer (backend/services).
use mathlib.Core.List.{mem-cons_self, mem-cons_of_mem, Perm}
use lok_lingo.Prelude.{
  ℕ, ◌+◌, ◌-◌, ◌*◌, ◌/◌, ◌≡◌, refl, true, false, List, [], ◌∷◌, none, some, arith, if◌then◌else◌,
  ltb, map, All,
}
use lok_lingo.Go.Text.{Text, codes}
use lok_lingo.Go.Failure.{Result, ok, err}
use lok_lingo.Services.Health.{Float64, Name, same_name}
use lok_lingo.Services.Registry.{Registry}
use lok_lingo.Services.Orchestrator.Retry.{
  Engine, State, TranslateRequest, default_orchestrator_config,
}
use lok_lingo.Services.Orchestrator.{orchestrate}
use lok_lingo.Services.Orchestrator.Answers.{
  is_ok, orchestrate-IsAnswered, IsAnswered, orchestrate-is_ok,
}
use lok_lingo.Services.Orchestrator.Counts.{IsCounted, orchestrate-IsCounted}
use lok_lingo.Services.Orchestrator.Range.{AllInRange, orchestrate-AllInRange}
use lok_lingo.Services.Health.Order.{AllRanked, IsRegistered, ordered_providers_by_health-AllRanked}
use lok_lingo.Services.Health.{ordered_providers_by_health, ranking}
use lok_lingo.Examples.Translate.{failing}

ltb_asymm : (a b : ℕ) → ltb a b ≡ true → ltb b a ≡ false
ltb_asymm a b h = ground (arith, h)

ltb_weak : (a b c : ℕ) → ltb a b ≡ false → ltb b c ≡ false → ltb a c ≡ false
ltb_weak a b c h k = ground (arith, h, k)

-- Numbers in hundredths.
abbrev hundredths : Float64
hundredths = record {
  Number = ℕ;
  lt = ltb;
  lt_asymm = ltb_asymm;
  lt_weak = ltb_weak;
  add = λ a b. a + b;
  sub = λ a b. a - b;
  mul = λ a b. a * b / 100;
  literal = λ n. n;
  lt-literal = λ m n. refl;
}

data Backend : Type 0 where
  broken working : Backend

abbrev backend_name : Backend → Name
backend_name broken = "litellm"
backend_name working = "ollama"

abbrev call_backend : Backend → TranslateRequest → Result Text
call_backend broken req = err (failing (codes "gateway timeout"))
call_backend working req = ok (codes "hallo")

-- Its world is the time.
abbrev backends : Engine
backends = record {
  World = ℕ;
  Ctx = ℕ;
  Provider = Backend;
  name = backend_name;
  ctx_err = λ ctx w. none;
  translate = λ p ctx req w. (call_backend p req, w + 5);
  now_ms = λ w. w;
  jitter = λ d w. (0, w);
  sleep = λ ctx d w. (none, w);
  notify = λ ctx n w. w;
  float = hundredths;
}

abbrev fresh : State backends
fresh = record { world = 0; scores = λ n. none; events = [] }

abbrev hello : TranslateRequest
hello = record { text = codes "hello"; source = codes "en"; target = codes "de" }

abbrev both_backends : List Backend
both_backends = broken ∷ working ∷ []

ordered_providers_by_health-AllRanked_example :
    Perm
      (ordered_providers_by_health hundredths backend_name fresh.scores both_backends)
      both_backends
    × (ordered_providers_by_health hundredths backend_name fresh.scores both_backends
        ≡ map (λ c. c.provider) (ranking hundredths backend_name fresh.scores both_backends))
    × AllRanked hundredths backend_name (ranking hundredths backend_name fresh.scores both_backends)
    × All
        (IsRegistered hundredths backend_name fresh.scores both_backends)
        (ranking hundredths backend_name fresh.scores both_backends)
ordered_providers_by_health-AllRanked_example =
    ordered_providers_by_health-AllRanked hundredths backend_name fresh.scores both_backends

orchestrate-IsAnswered_example :
    IsAnswered backends default_orchestrator_config 0 hello both_backends
      (orchestrate backends both_backends default_orchestrator_config 0 hello fresh).0
orchestrate-IsAnswered_example =
    orchestrate-IsAnswered backends default_orchestrator_config 0 hello both_backends fresh

orchestrate-is_ok_example :
    is_ok (orchestrate backends both_backends default_orchestrator_config 0 hello fresh).0 ≡ true
orchestrate-is_ok_example =
    orchestrate-is_ok backends default_orchestrator_config 0 hello 3 refl (λ w. refl) working
      (λ w. refl) both_backends fresh (mem-cons_of_mem broken mem-cons_self)

orchestrate-IsCounted_example :
    IsCounted backends 4 0 2 fresh
      (orchestrate backends both_backends default_orchestrator_config 0 hello fresh).0
      (orchestrate backends both_backends default_orchestrator_config 0 hello fresh).1
orchestrate-IsCounted_example =
    orchestrate-IsCounted backends default_orchestrator_config 0 hello both_backends fresh

orchestrate-AllInRange_example :
    AllInRange backends
      (orchestrate backends both_backends default_orchestrator_config 0 hello fresh).1.scores
orchestrate-AllInRange_example =
    orchestrate-AllInRange backends default_orchestrator_config 0 hello both_backends fresh
      (λ n. tt)

abbrev one_registered : Registry backend_name
one_registered = record {
  by_name = λ n. if same_name "litellm" n then some broken else none;
  ordered = broken ∷ [];
}
