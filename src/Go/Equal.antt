-- ===== src/Go/Equal.antt =====
-- The test of two texts decides their equality.
use lok_lingo.Prelude.{◌≡◌, refl, Bool, true, false, ◌++◌, ◌&&◌, [], ◌∷◌, arith, ◌==◌}
use lok_lingo.Go.Text.{Text, text_eq, has_prefix}

pub and_parts : (a b : Bool) → (a && b) ≡ true → (a ≡ true) × (b ≡ true)
and_parts true b h = (refl, h)
and_parts false b h = absurd cc

pub text_eq→eq : (s t : Text) → text_eq s t ≡ true → s ≡ t
text_eq→eq [] [] h = refl
text_eq→eq [] (d ∷ t) h = absurd cc
text_eq→eq (c ∷ s) [] h = absurd cc
text_eq→eq (c ∷ s) (d ∷ t) h =
    let (p, q) = and_parts (c == d) (text_eq s t) h in
    let e : c ≡ d = ground (arith, p) in rw (e, text_eq→eq s t q) refl

pub text_eq_refl : (t : Text) → text_eq t t ≡ true
text_eq_refl [] = refl
text_eq_refl (c ∷ t) = ground (arith, text_eq_refl t)

pub has_prefix-append : (p t : Text) → has_prefix (p ++ t) p ≡ true
unfolding has_prefix
has_prefix-append [] [] = refl
has_prefix-append [] (c ∷ t) = refl
has_prefix-append (c ∷ p) t = ground (arith, has_prefix-append p t)
