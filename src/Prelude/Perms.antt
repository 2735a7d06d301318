-- ===== src/Prelude/Perms.antt =====
-- Permutations and the length of a list.
use native.Mathlib.Bridge.{from_ℕ}
use mathlib.Core.Path.{◌≡◌, refl, sym, ap, ◌∙◌}
use mathlib.Core.List.{List, [], ◌∷◌, Perm}
use mathlib.Core.List
use mathlib.Core.List.Perm
use trading_system.Prelude.Lists.{length}
use Prim.Native.Nat.{suc}

module _ {ℓ} {A : Type ℓ} where
  length-from_ℕ : (xs : List A) → length xs ≡ from_ℕ (List.length xs)
  length-from_ℕ [] = refl
  length-from_ℕ (x ∷ xs) = ap suc (length-from_ℕ xs)

  pub length-perm : {xs ys : List A} → Perm xs ys → length xs ≡ length ys
  length-perm {xs} {ys} p = length-from_ℕ xs ∙ ap from_ℕ (Perm.length-eq p) ∙ sym (length-from_ℕ ys)
