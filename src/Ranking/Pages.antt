-- ===== src/Ranking/Pages.antt =====
-- Pages of a list, as webook/internal/service/ranking_service.go reads them, and counts over them.
use weishu.Base.{
  ap, sym, ◌∙◌, ℕ, zero, suc, ◌+◌, ◌≤◌, ◌≡◌, refl, Bool, true, false, List, [], ◌∷◌, map, arith,
  ◌++◌, take, drop, length, is_empty,
}
use weishu.Ranking.Queue.{count, always}
use weishu.Ranking.Service.{last_is_before}

module _ {A : Type 0} where
  pub take-length-take : (b : ℕ) (xs : List A) → take (length (take b xs)) xs ≡ take b xs
  take-length-take zero xs = refl
  take-length-take (suc b) [] = refl
  take-length-take (suc b) (x ∷ xs) = ap (λ t. x ∷ t) (take-length-take b xs)

  pub take-nil : (n : ℕ) → take {A = A} n [] ≡ []
  take-nil zero = refl
  take-nil (suc n) = refl

  pub take-page :
      (o b : ℕ) (xs : List A)
      → take (o + length (take b (drop o xs))) xs ≡ take o xs ++ take b (drop o xs)
  take-page zero b xs =
      let e : 0 + length (take b xs) ≡ length (take b xs) = omega arith in
      ap (λ n. take n xs) e ∙ take-length-take b xs
  take-page (suc o) b [] = take-nil _ ∙ sym (take-nil b)
  take-page (suc o) b (x ∷ xs) =
      let e : suc o + length (take b (drop o xs)) ≡ suc (o + length (take b (drop o xs))) =
        omega arith in
      ap (λ n. take n (x ∷ xs)) e ∙ ap (λ t. x ∷ t) (take-page o b xs)

  pub last_is_before-append :
      (p : A → Bool) (xs ys : List A)
      → last_is_before p ys ≡ true
      → last_is_before p (xs ++ ys) ≡ true
  last_is_before-append p [] ys h = h
  last_is_before-append p (x ∷ []) [] h = ground arith
  last_is_before-append p (x ∷ []) (y ∷ ys) h = h
  last_is_before-append p (x ∷ z ∷ xs) ys h = last_is_before-append p (z ∷ xs) ys h

  pub count-append : (p : A → Bool) (xs ys : List A) → count p (xs ++ ys) ≡ count p xs + count p ys
  count-append p [] ys = omega arith
  count-append p (x ∷ xs) ys = ground (arith, count-append p xs ys)

  pub map-append :
      {B : Type 0} (f : A → B) (xs ys : List A) → map f (xs ++ ys) ≡ map f xs ++ map f ys
  map-append f [] ys = refl
  map-append f (x ∷ xs) ys = ap (λ t. f x ∷ t) (map-append f xs ys)

  pub count-always : (xs : List A) → count always xs ≡ length xs
  count-always [] = refl
  count-always (x ∷ xs) = ap suc (count-always xs)

  pub length-map : {B : Type 0} (f : A → B) (xs : List A) → length (map f xs) ≡ length xs
  length-map f [] = refl
  length-map f (x ∷ xs) = ap suc (length-map f xs)

  pub empty_length : (xs : List A) → is_empty xs ≡ true → length xs ≡ 0
  empty_length [] h = refl
  empty_length (x ∷ xs) h = ground arith

  pub filled_length : (xs : List A) → is_empty xs ≡ false → 1 ≤ length xs
  filled_length [] h = ground arith
  filled_length (x ∷ xs) h = omega arith

  pub last_of_nil : (p : A → Bool) (xs : List A) → last_is_before p xs ≡ true → 1 ≤ length xs
  last_of_nil p [] h = ground arith
  last_of_nil p (x ∷ xs) h = omega arith
