-- ===== src/Base/Rotate.antt =====
-- A list read in a circle from one of its places.
use Prim.Native.Nat.{ℕ, zero, suc, ◌+◌, ◌-◌, ◌%◌, ◌<◌}
use mathlib.Core.Path.{◌≡◌, refl, ap, sym, ◌∙◌}
use mathlib.Core.List.{List, [], ◌∷◌, ◌++◌}
use native.Mathlib.Omega.{arith}
use native.Mathlib.Decide.{dec_lt}
use native.Mathlib.Nat.{zero-add, suc-add, mod-eq_of_lt, mod-eq-sub-mod}
use weishu.Base.{length, get_elem?, take, drop, length-append, length-take, length-drop}

module _ {ℓ} {A : Type ℓ} where
  pub get_elem?-append_left :
      (xs ys : List A) (t : ℕ) → t < length xs → get_elem? (xs ++ ys) t ≡ get_elem? xs t
  get_elem?-append_left [] ys t h = absurd (omega arith)
  get_elem?-append_left (x ∷ xs) ys zero h = refl
  get_elem?-append_left (x ∷ xs) ys (suc t) h = get_elem?-append_left xs ys t (omega arith)

  pub get_elem?-append_right :
      (xs ys : List A) (t : ℕ) → get_elem? (xs ++ ys) (length xs + t) ≡ get_elem? ys t
  get_elem?-append_right [] ys t = rw zero-add
  get_elem?-append_right (x ∷ xs) ys t = rw suc-add (get_elem?-append_right xs ys t)

  pub get_elem?-drop :
      (k : ℕ) (xs : List A) (t : ℕ) → get_elem? (drop k xs) t ≡ get_elem? xs (k + t)
  get_elem?-drop zero xs t = rw zero-add
  get_elem?-drop (suc k) [] t = refl
  get_elem?-drop (suc k) (x ∷ xs) t = rw suc-add (get_elem?-drop k xs t)

  pub get_elem?-take :
      (k : ℕ) (xs : List A) (t : ℕ) → t < k → get_elem? (take k xs) t ≡ get_elem? xs t
  get_elem?-take zero xs t h = absurd (omega arith)
  get_elem?-take (suc k) [] t h = refl
  get_elem?-take (suc k) (x ∷ xs) zero h = refl
  get_elem?-take (suc k) (x ∷ xs) (suc t) h = get_elem?-take k xs t (omega arith)

  -- The list turned so that it begins at a place.
  abbrev pub rotate : ℕ → List A → List A
  rotate k xs = drop k xs ++ take k xs

  pub length-rotate : (k : ℕ) (xs : List A) → length (rotate k xs) ≡ length xs
  length-rotate k xs =
      omega (
        arith,
        length-append {ℓ} (drop k xs) (take k xs),
        length-take {ℓ} k xs,
        length-drop {ℓ} k xs,
      )

  pub get_elem?-rotate :
      (k : ℕ) (xs : List A) (t : ℕ)
      → k < length xs
      → t < length xs
      → get_elem? (rotate k xs) t ≡ get_elem? xs ((k + t) % length xs)
  get_elem?-rotate k xs t hk ht = elim (dec_lt (k + t) (length xs)) [
    | yes p ↦
        rw (get_elem?-append_left (drop k xs) (take k xs) t (omega (arith, length-drop {ℓ} k xs)))
          (get_elem?-drop k xs t ∙ ap (get_elem? xs) (sym (mod-eq_of_lt p)))
    | no p ↦
        let e : t ≡ length (drop k xs) + (k + t - length xs) =
          omega (arith, length-drop {ℓ} k xs) in
        ap (get_elem? (rotate k xs)) e
        ∙ get_elem?-append_right (drop k xs) (take k xs) (k + t - length xs)
        ∙ get_elem?-take k xs (k + t - length xs) (omega arith)
        ∙ ap (get_elem? xs) (sym (mod-eq-sub-mod (omega arith) ∙ mod-eq_of_lt (omega arith)))
  ]
