-- ===== src/Jobs/Store/Texts/Cache.antt =====
-- The translation cache of the store (GetCached, SetCached and CacheKey in backend/jobs/store.go).
use mathlib.Core.List.{append_cancel_left}
use lok_lingo.Prelude.{
  ℕ, ◌≡◌, ◌≢◌, refl, ap, sym, ◌∙◌, inl, inr, Bool, true, ◌&&◌, [], ◌∷◌, ◌++◌, Option, none, some,
  if◌then◌else◌, All, Bool-cases,
}
use lok_lingo.Go.Equal.{and_parts, text_eq→eq, text_eq_refl}
use lok_lingo.Go.Text.{Text, text_eq, codes}
use lok_lingo.Go.Failure.{Result, ok, err}
use lok_lingo.Jobs.Redis.{Redis}
use lok_lingo.Jobs.Store.{World, single, wrapped, pure, fail, ◌>>=◌}
use lok_lingo.Jobs.Store.Texts.Scans.{calm}
use lok_lingo.Jobs.Store.Texts.{
  TextKeys, cache_key, hashed_text, get_cached, set_cached, or_not_found, not_found,
}

abbrev tail : Text → Text
tail [] = []
tail (c ∷ t) = t

abbrev head : Text → ℕ
head [] = 0
head (c ∷ t) = c

-- A text without NUL ends at the first one.
nul_cut :
    (s t a b : Text)
    → All (λ c. c ≢ 0) s
    → All (λ c. c ≢ 0) t
    → s ++ (0 ∷ a) ≡ t ++ (0 ∷ b)
    → (s ≡ t) × (a ≡ b)
nul_cut [] [] a b hs ht e = (refl, ap tail e)
nul_cut [] (d ∷ t) a b hs ht e = absurd (ht.0 (sym (ap head e)))
nul_cut (c ∷ s) [] a b hs ht e = absurd (hs.0 (ap head e))
nul_cut (c ∷ s) (d ∷ t) a b hs ht e =
    let (p, q) = nul_cut s t a b hs.1 ht.1 (ap tail e) in (rw (ap head e, p) refl, q)

-- The same translation is asked for.
abbrev pub same_request : Text × Text × Text → Text × Text × Text → Bool
same_request (text, source, target) (text', source', target') =
    text_eq text text' && (text_eq source source' && text_eq target target')

abbrev pub HasNoNul : Text → Type 0
HasNoNul = All (λ c. c ≢ 0)

abbrev answer_of : Option Text → Result Text
answer_of none = err not_found
answer_of (some t) = ok t

module _ (r : Redis) (k : TextKeys r) where
  get_cached-answer :
      (text source target : Text) (db : r.Db) (now : ℕ)
      → (get_cached r k text source target (calm r db now)).0
        ≡ answer_of (k.texts db (cache_key r k text source target))
  unfolding get_cached wrapped single pure fail ◌>>=◌
  get_cached-answer text source target db now =
      let key = cache_key r k text source target in rw (k.get_lem key db) (said (k.texts db key))
    where
      said : (found : Option Text) → (or_not_found r k found (calm r db now)).0 ≡ answer_of found
      said none = refl
      said (some t) = refl

  -- Two requests have the same key only if they are the same.
  cache_key_injective :
      (text source target text' source' target' : Text)
      → HasNoNul source
      → HasNoNul source'
      → HasNoNul target
      → HasNoNul target'
      → (k.sha256_hex (hashed_text text source target)
            ≡ k.sha256_hex (hashed_text text' source' target')
          → hashed_text text source target ≡ hashed_text text' source' target')
      → cache_key r k text source target ≡ cache_key r k text' source' target'
      → same_request (text, source, target) (text', source', target') ≡ true
  unfolding cache_key
  cache_key_injective text source target text' source' target' hs hs' ht ht' digest e =
      let joined = digest (append_cancel_left (codes "loklingo:cache:") _ _ e) in
      let (p, rest) = nul_cut source source' _ _ hs hs' joined in
      let (q, t) = nul_cut target target' _ _ ht ht' rest in
      rw (p, q, t, text_eq_refl text', text_eq_refl source', text_eq_refl target') refl

  parts_of_same :
      (text source target text' source' target' : Text)
      → same_request (text, source, target) (text', source', target') ≡ true
      → cache_key r k text source target ≡ cache_key r k text' source' target'
  parts_of_same text source target text' source' target' e =
      let (p, rest) = and_parts (text_eq text text') _ e in
      let (q, t) = and_parts (text_eq source source') _ rest in
      rw (text_eq→eq text text' p, text_eq→eq source source' q, text_eq→eq target target' t) refl

  -- When the round trips are answered, a translation that was put into the cache is found there by the same request,
  -- and every other request finds what it found before: for languages without NUL, if the SHA-256 tells what is hashed
  -- for the two requests apart.
  pub get_cached-set_cached :
      (text source target translated text' source' target' : Text) (db : r.Db) (now : ℕ)
      → HasNoNul source
      → HasNoNul source'
      → HasNoNul target
      → HasNoNul target'
      → (k.sha256_hex (hashed_text text source target)
            ≡ k.sha256_hex (hashed_text text' source' target')
          → hashed_text text source target ≡ hashed_text text' source' target')
      → let w : World r = record { db = db; trips = []; clock = now } in
        (get_cached r k text' source' target' (set_cached r k text source target translated w).1).0
        ≡ (if same_request (text, source, target) (text', source', target')
            then ok translated
            else (get_cached r k text' source' target' w).0)
  unfolding set_cached single
  get_cached-set_cached text source target translated text' source' target' db now hs hs' ht ht' d =
      let key = cache_key r k text source target in
      let key' = cache_key r k text' source' target' in
      let answer =
        get_cached-answer text' source' target' (k.set key translated db) now
        ∙ ap answer_of (k.texts-set key translated key' db) in
      elim (Bool-cases (same_request (text, source, target) (text', source', target'))) [
        | inl e ↦
            answer
            ∙ rw (parts_of_same text source target text' source' target' e, text_eq_refl key', e)
                refl
        | inr e ↦ answer ∙ elim (Bool-cases (text_eq key key')) [
          | inr f ↦ rw (f, e) (sym (get_cached-answer text' source' target' db now))
          | inl f ↦
              let same =
                cache_key_injective text source target text' source' target' hs hs' ht ht' d
                  (text_eq→eq key key' f) in
              absurd (cc)
        ]
      ]
