-- ===== src/Jobs/Store/Texts/Scans.antt =====
-- The loop of ClearChunkCheckpoints, when its round trips are answered (backend/jobs/store.go).
use mathlib.Core.Path.{subst}
use mathlib.Core.List.{append-nil}
use lok_lingo.Prelude.{
  ℕ, zero, suc, ◌≡◌, ◌≢◌, ◌<◌, ◌⊎◌, refl, ap, sym, ◌∙◌, inl, inr, Bool, true, false, ◌||◌, List, [],
  ◌∷◌, ◌++◌, Option, none, if◌then◌else◌, All, All-append, arith, Bool-cases, Option-cases,
}
use lok_lingo.Go.Equal.{text_eq→eq}
use lok_lingo.Go.Text.{text_eq, Text, has_prefix}
use lok_lingo.Go.Failure.{Result, ok}
use lok_lingo.Jobs.Redis.{Redis}
use lok_lingo.Jobs.Store.{Action, World, single, wrapped, pure, ◌>>=◌, ◌>>◌}
use lok_lingo.Jobs.Store.Texts.{TextKeys, Iterates, returned, holds_text, delete_found, clear_from}

abbrev pub calm : (r : Redis) → r.Db → ℕ → World r
calm r db now = record { db = db; trips = []; clock = now }

module _ (r : Redis) (k : TextKeys r) (p : Text) where
  abbrev wiped : List Text → r.Db → r.Db
  wiped [] db = db
  wiped (q ∷ qs) db = k.del (q ∷ qs) db

  texts-wiped :
      (qs : List Text) (x : Text) (db : r.Db)
      → k.texts (wiped qs db) x ≡ (if holds_text x qs then none else k.texts db x)
  texts-wiped [] x db = refl
  texts-wiped (q ∷ qs) x db = k.texts-del (q ∷ qs) x db

  delete_found-wiped :
      {A : Type 0} (qs : List Text) (m : Action r A) (db : r.Db) (now : ℕ)
      → ◌>>◌ (delete_found r k qs) m (calm r db now) ≡ m (calm r (wiped qs db) now)
  unfolding pure wrapped single ◌>>=◌
  delete_found-wiped [] m db now = refl
  delete_found-wiped (q ∷ qs) m db now = refl

  -- A page that is scanned is deleted; the last ends the loop.
  clear_from-step :
      (fuel cursor next : ℕ) (db : r.Db) (now : ℕ)
      → (k.scan p cursor db).1 ≡ next
      → clear_from r k (suc fuel) p cursor (calm r db now) ≡ elim next [
        | zero ↦ (ok tt, calm r (wiped (k.scan p cursor db).0 db) now)
        | suc n ↦ clear_from r k fuel p (suc n) (calm r (wiped (k.scan p cursor db).0 db) now)
      ]
  unfolding clear_from single wrapped pure ◌>>=◌
  clear_from-step fuel cursor zero db now e =
      delete_found-wiped (k.scan p cursor db).0 _ db now ∙ rw e refl
  clear_from-step fuel cursor (suc n) db now e =
      delete_found-wiped (k.scan p cursor db).0 _ db now ∙ rw e refl

  Iterates-cons :
      (cursor : ℕ) (db : r.Db) (dbs : List r.Db)
      → (k.scan p cursor db).1 ≢ 0
      → Iterates (k.scan p) (k.scan p cursor db).1 dbs
      → Iterates (k.scan p) cursor (db ∷ dbs)
  Iterates-cons cursor db [] n h = absurd h
  Iterates-cons cursor db (db' ∷ dbs) n h = (n, h)

  -- What the loop has done when it is through, from a cursor on.
  pub record Cleared (cursor : ℕ) (db : r.Db) (now : ℕ) (q : Result (Unit {0}) × World r)
      : Type 0 where
    pub answer : q.0 ≡ ok tt
    pub calmed : q.1 ≡ calm r q.1.db now
    pub dbs : List r.Db
    pub iterates : Iterates (k.scan p) cursor dbs
    pub texts :
        (x : Text)
        → k.texts q.1.db x
          ≡ (if holds_text x (returned (k.scan p) cursor dbs) then none else k.texts db x)
    pub present : (x : Text) → k.texts q.1.db x ≢ none → All (λ d. k.texts d x ≢ none) dbs

  holds_text-append :
      (x : Text) (qs ps : List Text)
      → holds_text x (qs ++ ps) ≡ (holds_text x qs || holds_text x ps)
  holds_text-append x [] ps = refl
  holds_text-append x (q ∷ qs) ps = ground (arith, holds_text-append x qs ps)

  wiped_cases :
      (qs : List Text) (db : r.Db) (x : Text)
      → (k.texts (wiped qs db) x ≡ k.texts db x) ⊎ (k.texts (wiped qs db) x ≡ none)
  wiped_cases qs db x = elim (Bool-cases (holds_text x qs)) [
    | inl e ↦ inr (rw (texts-wiped qs x db, e) refl)
    | inr e ↦ inl (rw (texts-wiped qs x db, e) refl)
  ]

  was_there :
      (qs : List Text) (db : r.Db) (x : Text) → k.texts (wiped qs db) x ≢ none → k.texts db x ≢ none
  was_there qs db x h e = elim (wiped_cases qs db x) [ inl same ↦ h (same ∙ e) | inr gone ↦ h gone ]

  fewer_left :
      (cursor n fuel : ℕ) (db : r.Db)
      → (k.scan p cursor db).1 ≡ suc n
      → k.scans_left p cursor db < suc fuel
      → k.scans_left p (suc n) (wiped (k.scan p cursor db).0 db) < fuel
  fewer_left cursor n fuel db e h =
      let db' = wiped (k.scan p cursor db).0 db in
      elim (k.scan_ends p cursor db db' (wiped_cases (k.scan p cursor db).0 db)) [
        | inl done ↦ absurd (omega (arith, e, done))
        | inr less ↦
            let less' : k.scans_left p (suc n) db' < k.scans_left p cursor db =
              subst (λ c. k.scans_left p c db' < k.scans_left p cursor db) e less in
            omega (arith, less', h)
      ]

  either_gone :
      (b c : Bool) (t : Option Text)
      → (if c then none else if b then none else t) ≡ (if b || c then none else t)
  either_gone true true t = refl
  either_gone true false t = refl
  either_gone false true t = refl
  either_gone false false t = refl

  gone_in_two :
      (qs : List Text) (db : r.Db) (x : Text) (ps : List Text)
      → (if holds_text x ps then none else k.texts (wiped qs db) x)
        ≡ (if holds_text x (qs ++ ps) then none else k.texts db x)
  gone_in_two qs db x ps =
      rw (texts-wiped qs x db, holds_text-append x qs ps)
        (either_gone (holds_text x qs) (holds_text x ps) (k.texts db x))

  still_none : (b : Bool) (t : Option Text) → t ≡ none → (if b then none else t) ≡ none
  still_none true t e = refl
  still_none false t e = e

  pub clear_from-Cleared :
      (fuel cursor : ℕ) (db : r.Db) (now : ℕ)
      → k.scans_left p cursor db < fuel
      → Cleared cursor db now (clear_from r k fuel p cursor (calm r db now))
  clear_from-Cleared zero cursor db now h = absurd (omega arith)
  clear_from-Cleared (suc fuel) cursor db now h =
      step (k.scan p cursor db).1 refl (λ n db' less. clear_from-Cleared fuel n db' now less)
    where
      found : List Text
      found = (k.scan p cursor db).0

      step :
          (next : ℕ)
          → (k.scan p cursor db).1 ≡ next
          → ((n : ℕ) (db' : r.Db)
              → k.scans_left p n db' < fuel
              → Cleared n db' now (clear_from r k fuel p n (calm r db' now)))
          → Cleared cursor db now (clear_from r k (suc fuel) p cursor (calm r db now))
      step zero e loop = rw (clear_from-step fuel cursor zero db now e) (record {
        answer = refl;
        calmed = refl;
        dbs = db ∷ [];
        iterates = e;
        texts = λ x.
            texts-wiped found x db
            ∙ ap (λ qs. if holds_text x qs then none else k.texts db x) (sym (append-nil found));
        present = λ x h. (was_there found db x h, tt);
      })
      step (suc n) e loop =
          let rest = loop (suc n) (wiped found db) (fewer_left cursor n fuel db e h) in
          rw (clear_from-step fuel cursor (suc n) db now e) (record {
            answer = rest.answer;
            calmed = rest.calmed;
            dbs = db ∷ rest.dbs;
            iterates =
                Iterates-cons cursor db rest.dbs (λ z. absurd (omega (arith, e, z)))
                  (subst (λ c. Iterates (k.scan p) c rest.dbs) (sym e) rest.iterates);
            texts = λ x.
                subst
                  (λ c.
                    k.texts (clear_from r k fuel p (suc n) (calm r (wiped found db) now)).1.db x ≡ (
                      if holds_text x (found ++ returned (k.scan p) c rest.dbs)
                      then none
                      else k.texts db x))
                  (sym e)
                  (rest.texts x ∙ gone_in_two found db x (returned (k.scan p) (suc n) rest.dbs));
            present = λ x h.
                (was_there found db x (λ z. h (rest.texts x ∙ still_none _ _ z)), rest.present x h);
          })

  -- What an iteration returns has the prefix.
  returned-prefix :
      (cursor : ℕ) (dbs : List r.Db)
      → All (λ q. has_prefix q p ≡ true) (returned (k.scan p) cursor dbs)
  returned-prefix cursor [] = tt
  returned-prefix cursor (db ∷ dbs) =
      All-append (λ q. has_prefix q p ≡ true) _ _ (k.scan-prefix p cursor db)
        (returned-prefix (k.scan p cursor db).1 dbs)

  holds_text-prefix :
      (x : Text) (qs : List Text)
      → All (λ q. has_prefix q p ≡ true) qs
      → has_prefix x p ≡ false
      → holds_text x qs ≡ false
  holds_text-prefix x [] h n = refl
  holds_text-prefix x (q ∷ qs) h n = elim (Bool-cases (text_eq q x)) [
    | inl e ↦ absurd (let same = ap (λ t. has_prefix t p) (text_eq→eq q x e) in cc)
    | inr e ↦ rw (e, holds_text-prefix x qs h.1 n) refl
  ]

  -- No text is left under the prefix, and any other is as it was.
  pub Cleared-texts :
      {db : r.Db} {now : ℕ} {q : Result (Unit {0}) × World r}
      → Cleared 0 db now q
      → (x : Text)
      → ((has_prefix x p ≡ true) → k.texts q.1.db x ≡ none)
        × ((has_prefix x p ≡ false) → k.texts q.1.db x ≡ k.texts db x)
  Cleared-texts {db} {now} {q} c x = (
    λ h. elim (Option-cases (k.texts q.1.db x)) [
      | inl e ↦ e
      | inr (t, e) ↦
          let there : k.texts q.1.db x ≢ none = λ z. absurd (cc) in
          c.texts x ∙ rw (k.scan_complete p x c.dbs h c.iterates (c.present x there)) refl
    ],
    λ h. c.texts x ∙ rw (holds_text-prefix x _ (returned-prefix 0 c.dbs) h) refl,
  )
