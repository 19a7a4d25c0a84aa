-- ===== src/Common/MapOrder.antt =====
-- The order and the number of a Map's entries.
use Prim.Native.Nat.{ℕ, zero, suc, ◌≤◌, ◌<◌, ◌-◌}
use Prim.Native.String.{String}
use mathlib.Core.Path.{◌≡◌, refl, sym, ap, ◌∙◌}
use mathlib.Core.Logic.{inl, inr}
use mathlib.Core.List.{List, [], ◌∷◌, ◌++◌}
use mathlib.Core.Option.{none, some}
use native.Mathlib.Omega.{arith}
use text.Mathlib.Text.{◌==◌}
use text.Mathlib.TextEquality.{eq_iff}
use astroid_api.Common.Tests.{Bool-cases, if_both}
use astroid_api.Common.Lists.{length, drop}
use astroid_api.Common.Maps.{lookup, remove, put, IsMap, eq_refl}

module _ {ℓ} {V : Type ℓ} where
  pub remove_absent : (m : List (String × V)) (k : String) → lookup m k ≡ none → remove m k ≡ m
  remove_absent [] k h = refl
  remove_absent ((a, v) ∷ m) k h = elim (Bool-cases (a == k)) [
    | inl e ↦ ground (arith, e, h)
    | inr e ↦ rw e (ap (λ m. (a, v) ∷ m) (remove_absent m k (sym (rw e refl) ∙ h)))
  ]

  pub put_absent :
      (m : List (String × V)) (k : String) (w : V)
      → lookup m k ≡ none
      → put m k w ≡ m ++ (k, w) ∷ []
  put_absent [] k w h = refl
  put_absent ((a, v) ∷ m) k w h = elim (Bool-cases (a == k)) [
    | inl e ↦ ground (arith, e, h)
    | inr e ↦ rw e (ap (λ m. (a, v) ∷ m) (put_absent m k w (sym (rw e refl) ∙ h)))
  ]

  pub length-remove : (m : List (String × V)) (k : String) → length (remove m k) ≤ length m
  length-remove [] k = omega arith
  length-remove ((a, v) ∷ m) k =
      let shorter = length-remove m k in
      if_both (λ r. length r ≤ suc (length m)) (a == k) _ _ (omega (arith, shorter))
        (omega (arith, shorter))

  drop-none :
      (n : ℕ) (m : List (String × V)) (k : String) → lookup m k ≡ none → lookup (drop n m) k ≡ none
  drop-none zero m k h = h
  drop-none (suc n) [] k h = refl
  drop-none (suc n) ((a, v) ∷ m) k h = elim (Bool-cases (a == k)) [
    | inl e ↦ ground (arith, e, h)
    | inr e ↦ drop-none n m k (sym (rw e refl) ∙ h)
  ]

  pub drop-IsMap : (n : ℕ) (m : List (String × V)) → IsMap m → IsMap (drop n m)
  drop-IsMap zero m h = h
  drop-IsMap (suc n) [] h = h
  drop-IsMap (suc n) ((a, v) ∷ m) (h, hs) = drop-IsMap n m hs

  pub lookup-drop :
      (n : ℕ) (m : List (String × V)) (k : String) (w : V)
      → IsMap m
      → lookup (drop n m) k ≡ some w
      → lookup m k ≡ some w
  lookup-drop zero m k w h e = e
  lookup-drop (suc n) [] k w h e = e
  lookup-drop (suc n) ((a, v) ∷ m) k w (h, hs) e = elim (Bool-cases (a == k)) [
    | inl q ↦
        let gone : lookup (drop n m) k ≡ none = drop-none n m k (rw (sym ((eq_iff a k).0 q)) h) in
        ground (arith, gone, e)
    | inr q ↦ rw q (lookup-drop n m k w hs e)
  ]

  pub length-drop : (n : ℕ) (m : List (String × V)) → length (drop n m) ≡ length m - n
  length-drop zero m = omega arith
  length-drop (suc n) [] = omega arith
  length-drop (suc n) ((a, v) ∷ m) = length-drop n m ∙ omega arith

  pub remove_present :
      (m : List (String × V)) (k : String) (w : V)
      → lookup m k ≡ some w
      → length (remove m k) < length m
  remove_present [] k w h = ground arith
  remove_present ((a, v) ∷ m) k w h = elim (Bool-cases (a == k)) [
    | inl e ↦ rw e (omega (arith, length-remove m k))
    | inr e ↦ rw e (omega (arith, remove_present m k w (sym (rw e refl) ∙ h)))
  ]

  -- The youngest entry is the last to be dropped.
  pub lookup-drop_youngest :
      (n : ℕ) (m : List (String × V)) (k : String) (w : V)
      → lookup m k ≡ none
      → n ≤ length m
      → lookup (drop n (m ++ (k, w) ∷ [])) k ≡ some w
  lookup-drop_youngest zero [] k w h le = rw (eq_refl k) refl
  lookup-drop_youngest (suc n) [] k w h le = absurd (omega (arith, le))
  lookup-drop_youngest zero ((a, v) ∷ m) k w h le = elim (Bool-cases (a == k)) [
    | inl e ↦ ground (arith, e, h)
    | inr e ↦ rw e (lookup-drop_youngest zero m k w (sym (rw e refl) ∙ h) (omega arith))
  ]
  lookup-drop_youngest (suc n) ((a, v) ∷ m) k w h le = elim (Bool-cases (a == k)) [
    | inl e ↦ ground (arith, e, h)
    | inr e ↦ lookup-drop_youngest n m k w (sym (rw e refl) ∙ h) (omega (arith, le))
  ]
