-- ===== src/Examples/Texts.antt =====
-- The texts of the server in memory, and the cache and the checkpoints at concrete inputs.
use mathlib.Core.List.{append-nil}
use lok_lingo.Prelude.{
  ℕ, zero, suc, ◌≡◌, ◌≢◌, ◌≤◌, refl, ap, inl, inr, true, false, List, [], ◌∷◌, ◌++◌, map, Option,
  none, some, if◌then◌else◌, All, arith, length, take, drop, length-append, Bool-cases,
}
use lok_lingo.Go.Equal.{text_eq→eq}
use lok_lingo.Go.Text.{
  Text, codes, text_eq, has_prefix, is_empty, is_space, trim_left, trim_right, trim_space,
}
use lok_lingo.Go.Failure.{ok}
use lok_lingo.Jobs.Store.{World}
use lok_lingo.Jobs.Store.Texts.{
  TextKeys, CheckpointUnit, Iterates, returned, holds_text, cache_key, chunk_prefix,
  clear_chunk_checkpoints, get_chunk_checkpoint, get_cached, set_cached,
}
use lok_lingo.Jobs.Process.Batches.{drop-append_length}
use lok_lingo.Examples.Memory.{in_memory, Memory}
use lok_lingo.Examples.Redis.{one_queued}
use lok_lingo.Jobs.Store.Texts.Checkpoints.{clear_chunk_checkpoints-clears}
use lok_lingo.Jobs.Store.Texts.Cache.{get_cached-set_cached, same_request, HasNoNul}

abbrev pub look_up : List (Text × Option Text) → Text → Option Text
look_up [] q = none
look_up ((k, v) ∷ l) q = let rest = look_up l q in if text_eq k q then v else rest

abbrev pub removed : List Text → List (Text × Option Text)
removed = map (λ k. (k, none))

pub look_up-removed :
    (ks : List Text) (l : List (Text × Option Text)) (q : Text)
    → look_up (removed ks ++ l) q ≡ (if holds_text q ks then none else look_up l q)
look_up-removed [] l q = refl
look_up-removed (k ∷ ks) l q = ground (arith, look_up-removed ks l q)

-- The keys that were written, with the prefix.
abbrev pub keys_under : Text → List (Text × Option Text) → List Text
keys_under p [] = []
keys_under p ((k, v) ∷ l) = let rest = keys_under p l in if has_prefix k p then k ∷ rest else rest

pub keys_under-prefix :
    (p : Text) (l : List (Text × Option Text)) → All (λ k. has_prefix k p ≡ true) (keys_under p l)
keys_under-prefix p [] = tt
keys_under-prefix p ((k, v) ∷ l) = elim (Bool-cases (has_prefix k p)) [
  | inl e ↦ rw e (e, keys_under-prefix p l)
  | inr e ↦ rw e (keys_under-prefix p l)
]

holds_text-keys_under :
    (p k : Text) (l : List (Text × Option Text))
    → has_prefix k p ≡ true
    → look_up l k ≢ none
    → holds_text k (keys_under p l) ≡ true
holds_text-keys_under p k [] h n = absurd (n refl)
holds_text-keys_under p k ((q, v) ∷ l) h n = elim (Bool-cases (text_eq q k)) [
  | inl e ↦ let under : has_prefix q p ≡ true = rw (text_eq→eq q k e) h in rw (under, e) refl
  | inr e ↦
      let below = holds_text-keys_under p k l h (λ z. n (rw e z)) in
      elim (Bool-cases (has_prefix q p)) [ inl f ↦ rw (f, e) below | inr f ↦ rw f below ]
]

-- One scan is a whole iteration.
pub once_complete :
    (p k : Text) (ms : List Memory)
    → has_prefix k p ≡ true
    → Iterates (λ cursor m. (keys_under p m.text_log, 0)) 0 ms
    → All (λ m. look_up m.text_log k ≢ none) ms
    → holds_text k (returned (λ cursor m. (keys_under p m.text_log, 0)) 0 ms) ≡ true
once_complete p k [] h i there = absurd i
once_complete p k (m ∷ []) h i there =
    rw (append-nil (keys_under p m.text_log)) (holds_text-keys_under p k m.text_log h there.0)
once_complete p k (m ∷ m' ∷ ms) h i there = absurd (i.0 refl)

-- A checkpoint as a text: of each unit the numbers, the length of its text, and the text.
abbrev pub encoded : List CheckpointUnit → Text
encoded [] = []
encoded (u ∷ us) = u.page_index ∷ u.words ∷ length u.text ∷ (u.text ++ encoded us)

abbrev pub cons_unit : CheckpointUnit → Option (List CheckpointUnit) → Option (List CheckpointUnit)
cons_unit u none = none
cons_unit u (some us) = some (u ∷ us)

abbrev pub decoded : ℕ → Text → Option (List CheckpointUnit)
decoded fuel [] = some []
decoded (suc fuel) (p ∷ w ∷ n ∷ t) =
    cons_unit (record { page_index = p; text = take n t; words = w }) (decoded fuel (drop n t))
decoded _ _ = none

take-append_length : (s t : Text) → take (length s) (s ++ t) ≡ s
take-append_length [] t = refl
take-append_length (c ∷ s) t = ap (λ r. c ∷ r) (take-append_length s t)

pub decoded-encoded :
    (fuel : ℕ) (us : List CheckpointUnit) → length us ≤ fuel → decoded fuel (encoded us) ≡ some us
decoded-encoded fuel [] h = refl
decoded-encoded zero (u ∷ us) h = absurd (omega arith)
decoded-encoded (suc fuel) (u ∷ us) h =
    rw
      (
        take-append_length u.text (encoded us),
        drop-append_length u.text (encoded us),
        decoded-encoded fuel us (omega arith),
      )
      refl

pub length-encoded : (us : List CheckpointUnit) → length us ≤ length (encoded us)
length-encoded [] = omega arith
length-encoded (u ∷ us) = omega (arith, length-encoded us, length-append u.text (encoded us))

abbrev pub texts_in_memory : TextKeys in_memory
texts_in_memory = record {
  texts = λ m. look_up m.text_log;
  get = λ k m. look_up m.text_log k;
  get_lem = λ k m. refl;
  set = λ k v m. record m { text_log = (k, some v) ∷ m.text_log };
  texts-set = λ k v q m. refl;
  del = λ ks m. record m { text_log = removed ks ++ m.text_log };
  texts-del = λ ks q m. look_up-removed ks m.text_log q;
  scan = λ p cursor m. (keys_under p m.text_log, 0);
  scan-prefix = λ p cursor m. keys_under-prefix p m.text_log;
  scan_complete = once_complete;
  scans_left = λ p cursor m. 0;
  scan_ends = λ p cursor m m' h. inl refl;
  marshal = encoded;
  unmarshal = λ t. decoded (length t) t;
  unmarshal-marshal = λ us. decoded-encoded _ us (length-encoded us);
  sha256_hex = λ t. t;
}

-- The server holds a cached translation, and two checkpoints of the job "j1" and one of another.
abbrev stocked : Memory
stocked = record one_queued {
  text_log =
      (codes "loklingo:job:j1:chunk:a", some (codes "x"))
      ∷ (codes "loklingo:job:j2:chunk:a", some (codes "y"))
      ∷ (codes "loklingo:job:j1:chunk:b", some (codes "z"))
      ∷ (
        cache_key in_memory texts_in_memory (codes "one") (codes "en") (codes "es"),
        some (codes "uno"),
      )
      ∷ [];
}

named : is_empty (trim_space (codes "j1")) ≡ false
unfolding trim_space trim_left trim_right is_space
named = refl

abbrev calm_memory : Memory → World in_memory
calm_memory m = record { db = m; trips = []; clock = 9 }

plain_en : HasNoNul (codes "en")
plain_en = (λ e. absurd (omega (arith, e)), (λ e. absurd (omega (arith, e)), tt))

plain_fr : HasNoNul (codes "fr")
plain_fr = (λ e. absurd (omega (arith, e)), (λ e. absurd (omega (arith, e)), tt))

clear_chunk_checkpoints-clears_example :
    let q =
      clear_chunk_checkpoints in_memory texts_in_memory "j1"
        (record { db = stocked; trips = []; clock = 9 }) in
    (q.0 ≡ ok tt)
    × ((key : Text) → (get_chunk_checkpoint in_memory texts_in_memory "j1" key q.1).0 ≡ ok none)
    × ((x : Text)
        → has_prefix x (chunk_prefix in_memory texts_in_memory "j1") ≡ false
        → texts_in_memory.texts q.1.db x ≡ texts_in_memory.texts stocked x)
clear_chunk_checkpoints-clears_example =
    clear_chunk_checkpoints-clears in_memory texts_in_memory "j1" stocked 9 named

-- The same text is asked for in another language.
get_cached-set_cached_example :
    (get_cached in_memory texts_in_memory
      (codes "one")
      (codes "en")
      (codes "fr")
      (set_cached in_memory texts_in_memory
        (codes "one")
        (codes "en")
        (codes "fr")
        (codes "un")
        (calm_memory stocked)).1).0
    ≡ (if same_request (codes "one", codes "en", codes "fr") (codes "one", codes "en", codes "fr")
        then ok (codes "un")
        else (get_cached in_memory texts_in_memory
            (codes "one")
            (codes "en")
            (codes "fr")
            (calm_memory stocked)).0)
get_cached-set_cached_example =
    get_cached-set_cached in_memory texts_in_memory (codes "one") (codes "en") (codes "fr")
      (codes "un") (codes "one") (codes "en") (codes "fr") stocked 9 plain_en plain_en plain_fr
      plain_fr (λ e. e)
