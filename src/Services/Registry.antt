-- ===== src/Services/Registry.antt =====
-- The registry of the translation providers (backend/services/providers/registry.go).
use lok_lingo.Prelude.{
  ℕ, ◌≡◌, refl, ap, ◌∙◌, sym, inl, inr, Bool, true, false, List, [], ◌∷◌, ◌++◌, map, Option, none,
  some, if◌then◌else◌, length, arith, Bool-cases,
}
use lok_lingo.Services.Health.{Name, same_name}
use text.Mathlib.TextEquality.{eq_iff}

module _ {Provider : Type 0} (name : Provider → Name) where
  pub record Registry : Type 0 where
    pub by_name : Name → Option Provider
    pub ordered : List Provider

  abbrev pub new_registry : Registry
  new_registry = record { by_name = λ n. none; ordered = [] }

  -- The loop of Register: the first provider of that name is replaced.
  unfoldable pub replace_first : Provider → List Provider → List Provider
  replace_first p [] = []
  replace_first p (q ∷ qs) =
      let rest = replace_first p qs in if same_name (name q) (name p) then p ∷ qs else q ∷ rest

  abbrev pub is_known : Option Provider → Bool
  is_known none = false
  is_known (some p) = true

  unfoldable pub register : Provider → Registry → Registry
  register p r = record {
    by_name = λ n. if same_name (name p) n then some p else r.by_name n;
    ordered =
        if is_known (r.by_name (name p)) then replace_first p r.ordered else r.ordered ++ p ∷ [];
  }

  unfoldable pub get : Name → Registry → Option Provider
  get n r = r.by_name n

  unfoldable pub len : Registry → ℕ
  len r = length r.ordered

  -- The first provider of the name in the list.
  abbrev pub find : Name → List Provider → Option Provider
  find n [] = none
  find n (p ∷ ps) = if same_name (name p) n then some p else find n ps

  -- The map and the list agree.
  abbrev pub IsConsistent : Registry → Type 0
  IsConsistent r = (n : Name) → r.by_name n ≡ find n r.ordered

  find-replace_first :
      (p : Provider) (n : Name) (l : List Provider)
      → is_known (find (name p) l) ≡ true
      → find n (replace_first p l) ≡ (if same_name (name p) n then some p else find n l)
  unfolding replace_first
  find-replace_first p n [] h = ground (arith, h)
  find-replace_first p n (q ∷ qs) h = ground (
    arith,
    h,
    find-replace_first p n qs,
    eq_iff (name q) (name p),
    eq_iff (name p) n,
    eq_iff (name q) n,
  )

  find-append :
      (p : Provider) (n : Name) (l : List Provider)
      → is_known (find (name p) l) ≡ false
      → find n (l ++ p ∷ []) ≡ (if same_name (name p) n then some p else find n l)
  find-append p n [] h = refl
  find-append p n (q ∷ qs) h =
      ground (
        arith,
        h,
        find-append p n qs,
        eq_iff (name q) (name p),
        eq_iff (name p) n,
        eq_iff (name q) n,
      )

  map-replace_first : (p : Provider) (l : List Provider) → map name (replace_first p l) ≡ map name l
  unfolding replace_first
  map-replace_first p [] = refl
  map-replace_first p (q ∷ qs) = ground (arith, map-replace_first p qs, eq_iff (name q) (name p))

  -- A registration keeps the map and the list in agreement.
  pub register-IsConsistent :
      (p : Provider) (r : Registry) → IsConsistent r → IsConsistent (register p r)
  unfolding register
  register-IsConsistent p r h n = elim (Bool-cases (is_known (r.by_name (name p)))) [
    | inl e ↦
        rw (e, register)
          (ground (
            arith,
            h n,
            sym (find-replace_first p n r.ordered (ap is_known (sym (h (name p))) ∙ e)),
          ))
    | inr e ↦
        rw (e, register)
          (ground
            (arith, h n, sym (find-append p n r.ordered (ap is_known (sym (h (name p))) ∙ e))))
  ]

  map-append : (xs ys : List Provider) → map name (xs ++ ys) ≡ map name xs ++ map name ys
  map-append [] ys = refl
  map-append (x ∷ xs) ys = ap (λ l. name x ∷ l) (map-append xs ys)

  -- After a registration into a registry whose map and list agree, they agree again; the name finds the new provider, and every other name what it found before;
  -- a known name keeps the order of the names, and a new one is put at its end.
  pub get-register :
      (p : Provider) (r : Registry)
      → IsConsistent r
      → IsConsistent (register p r)
        × ((n : Name) → get n (register p r) ≡ (if same_name (name p) n then some p else get n r))
        × (map name (register p r).ordered ≡ (
            if is_known (get (name p) r)
            then map name r.ordered
            else map name r.ordered ++ name p ∷ []))
  unfolding get register
  get-register p r h = (
    register-IsConsistent p r h,
    λ n. refl,
    elim (Bool-cases (is_known (r.by_name (name p)))) [
      | inl e ↦ rw (e, register) (map-replace_first p r.ordered)
      | inr e ↦ rw (e, register) (map-append r.ordered (p ∷ []))
    ],
  )
