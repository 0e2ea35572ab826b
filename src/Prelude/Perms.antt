-- ===== src/Prelude/Perms.antt =====
-- A permutation has the length of the list.
use mathlib.Core.List.{List, Perm, Permᴰ}
use mathlib.Core.Logic.{∥∥₁_elim}
use mathlib.Core.Path.{◌≡◌, refl, ap, ◌∙◌}
use Prim.Native.Nat.{suc}
use lok_lingo.Prelude.Lists.{length}

module _ {A : Type 0} where
  length-permuted : {xs ys : List A} → Permᴰ xs ys → length xs ≡ length ys
  length-permuted Permᴰ.nil = refl
  length-permuted (Permᴰ.cons e p) = ap suc (length-permuted p)
  length-permuted (Permᴰ.swap e f) = refl
  length-permuted (Permᴰ.trans p q) = length-permuted p ∙ length-permuted q

  pub length-perm : {xs ys : List A} → Perm xs ys → length xs ≡ length ys
  length-perm {xs} {ys} h =
      let same : IsProp (length xs ≡ length ys) = hlevel in ∥∥₁_elim h same length-permuted
