-- ===== src/Common/Maps.antt =====
-- A JavaScript Map with string keys: its entries in the order of insertion, each key once.
use Prim.Native.String.{String}
use mathlib.Core.Path.{◌≡◌, refl, sym, ap, ◌∙◌}
use mathlib.Core.Bool.{Bool, true, false, false≢true}
use mathlib.Core.Logic.{inl, inr}
use mathlib.Core.List.{List, [], ◌∷◌}
use mathlib.Core.Option.{Option, none, some}
use native.Mathlib.Omega.{arith}
use text.Mathlib.Text.{◌==◌}
use text.Mathlib.TextEquality.{eq_iff}
use astroid_api.Common.Tests.{Bool-cases, if◌then◌else◌}
use astroid_api.Common.Lists.{keep}

pub eq_refl : (s : String) → (s == s) ≡ true
eq_refl s = (eq_iff s s).1 refl

-- Two entries that have one key in common have the same key.
apart : (a b k : String) → (b == a) ≡ false → (a == k) ≡ true → (b == k) ≡ false
apart a b k e h = elim (Bool-cases (b == k)) [
  | inl q ↦ absurd (false≢true (sym e ∙ (eq_iff b a).1 ((eq_iff b k).0 q ∙ sym ((eq_iff a k).0 h))))
  | inr q ↦ q
]

other_way : (a b : String) → (b == a) ≡ false → (a == b) ≡ false
other_way a b e = elim (Bool-cases (a == b)) [
  | inl q ↦ absurd (false≢true (sym e ∙ (eq_iff b a).1 (sym ((eq_iff a b).0 q))))
  | inr q ↦ q
]

module _ {ℓ} {V : Type ℓ} where
  abbrev pub lookup : List (String × V) → String → Option V
  lookup [] k = none
  lookup ((a, v) ∷ m) k = let rest = lookup m k in if a == k then some v else rest

  abbrev pub remove : List (String × V) → String → List (String × V)
  remove [] k = []
  remove ((a, v) ∷ m) k = let rest = remove m k in if a == k then rest else (a, v) ∷ rest

  abbrev pub put : List (String × V) → String → V → List (String × V)
  put [] k w = (k, w) ∷ []
  put ((a, v) ∷ m) k w = let rest = put m k w in if a == k then (a, w) ∷ m else (a, v) ∷ rest

  -- Each key once.
  abbrev pub IsMap : List (String × V) → Type ℓ
  IsMap [] = Unit
  IsMap ((a, v) ∷ m) = (lookup m a ≡ none) × IsMap m

  pub lookup-remove :
      (m : List (String × V)) (a k : String)
      → lookup (remove m a) k ≡ (if a == k then none else lookup m k)
  lookup-remove [] a k = ground arith
  lookup-remove ((b, v) ∷ m) a k = elim (Bool-cases (b == a)) [
    | inl e ↦ elim (Bool-cases (a == k)) [
      | inl h ↦ rw (e, h) (lookup-remove m a k ∙ rw h refl)
      | inr h ↦ rw (e, h, (eq_iff b a).0 e, h) (lookup-remove m a k ∙ rw h refl)
    ]
    | inr e ↦ elim (Bool-cases (a == k)) [
      | inl h ↦ rw (e, h, apart a b k e h) (lookup-remove m a k ∙ rw h refl)
      | inr h ↦ rw (e, h) (ap (λ o. if b == k then some v else o) (lookup-remove m a k ∙ rw h refl))
    ]
  ]

  pub lookup-put :
      (m : List (String × V)) (a k : String) (w : V)
      → lookup (put m a w) k ≡ (if a == k then some w else lookup m k)
  lookup-put [] a k w = refl
  lookup-put ((b, v) ∷ m) a k w = elim (Bool-cases (b == a)) [
    | inl e ↦ elim (Bool-cases (a == k)) [
      | inl h ↦ rw (e, h, (eq_iff b a).0 e, h) refl
      | inr h ↦ rw (e, h, (eq_iff b a).0 e, h) refl
    ]
    | inr e ↦ elim (Bool-cases (a == k)) [
      | inl h ↦ rw (e, h, apart a b k e h) (lookup-put m a k w ∙ rw h refl)
      | inr h ↦ rw (e, h) (ap (λ o. if b == k then some v else o) (lookup-put m a k w ∙ rw h refl))
    ]
  ]

  pub remove-IsMap : (m : List (String × V)) (a : String) → IsMap m → IsMap (remove m a)
  remove-IsMap [] a h = tt
  remove-IsMap ((b, v) ∷ m) a (h, hs) = elim (Bool-cases (b == a)) [
    | inl e ↦ rw e (remove-IsMap m a hs)
    | inr e ↦ rw e (lookup-remove m a b ∙ rw (other_way a b e) h, remove-IsMap m a hs)
  ]

  pub put-IsMap : (m : List (String × V)) (a : String) (w : V) → IsMap m → IsMap (put m a w)
  put-IsMap [] a w h = (refl, tt)
  put-IsMap ((b, v) ∷ m) a w (h, hs) = elim (Bool-cases (b == a)) [
    | inl e ↦ rw e (h, hs)
    | inr e ↦ rw e (lookup-put m a b w ∙ rw (other_way a b e) h, put-IsMap m a w hs)
  ]

  keep-none :
      (p : String × V → Bool) (m : List (String × V)) (k : String)
      → lookup m k ≡ none
      → lookup (keep p m) k ≡ none
  keep-none p [] k h = refl
  keep-none p ((a, v) ∷ m) k h = elim (Bool-cases (a == k)) [
    | inl e ↦ ground (arith, e, h)
    | inr e ↦
        let rest = keep-none p m k (sym (rw e refl) ∙ h) in
        elim (Bool-cases (p (a, v))) [ inl q ↦ rw (q, e) rest | inr q ↦ rw q rest ]
  ]

  -- What a filter leaves of an entry.
  abbrev pub filtered : (V → Bool) → Option V → Option V
  filtered p none = none
  filtered p (some v) = if p v then some v else none

  pub lookup-keep :
      (p : V → Bool) (m : List (String × V)) (k : String)
      → IsMap m
      → lookup (keep (λ e. p e.1) m) k ≡ filtered p (lookup m k)
  lookup-keep p [] k h = refl
  lookup-keep p ((a, v) ∷ m) k (h, hs) = elim (Bool-cases (a == k)) [
    | inl e ↦ elim (Bool-cases (p v)) [
      | inl q ↦ rw (q, e, q) refl
      | inr q ↦ rw (q, e, q) (keep-none (λ e. p e.1) m k (rw (sym ((eq_iff a k).0 e)) h))
    ]
    | inr e ↦ elim (Bool-cases (p v)) [
      | inl q ↦ rw (q, e) (lookup-keep p m k hs)
      | inr q ↦ rw (q, e) (lookup-keep p m k hs)
    ]
  ]

  pub keep-IsMap : (p : String × V → Bool) (m : List (String × V)) → IsMap m → IsMap (keep p m)
  keep-IsMap p [] h = tt
  keep-IsMap p ((a, v) ∷ m) (h, hs) = elim (Bool-cases (p (a, v))) [
    | inl e ↦ rw e (keep-none p m a h, keep-IsMap p m hs)
    | inr e ↦ rw e (keep-IsMap p m hs)
  ]
