-- ===== src/Users/Rows.antt =====
-- Rows of the table of users that a test holds for: the scans of Users/Dao.antt.
use mathlib.Core.Path.{subst}
use mathlib.Core.Option.{some-injective}
use weishu.Base.{
  sym, ◌∙◌, inl, inr, Bool-cases, ◌≡◌, refl, Bool, true, false, ◌||◌, none, some, List, [], ◌∷◌,
  ◌++◌, arith,
}
use weishu.Users.Dao.{Texts, User, any, find_by}

module _ {Text : Type 0} (X : Texts Text) where
  pub find_by-append :
      (p : User Text → Bool) (rows : List (User Text)) (u : User Text)
      → any X p rows ≡ false
      → p u ≡ true
      → find_by X p (rows ++ (u ∷ [])) ≡ some u
  find_by-append p [] u h k = rw k refl
  find_by-append p (r ∷ rows) u h k = elim (Bool-cases (p r)) [
    | inl e ↦ let no : true ≡ false = rw e at h in ground arith
    | inr e ↦ let h' : any X p rows ≡ false = rw e at h in rw e (find_by-append p rows u h' k)
  ]

  pub any-append :
      (p : User Text → Bool) (rows : List (User Text)) (u : User Text)
      → p u ≡ true
      → any X p (rows ++ (u ∷ [])) ≡ true
  any-append p [] u k = rw k refl
  any-append p (r ∷ rows) u k = elim (Bool-cases (p r)) [
    | inl e ↦ rw e refl
    | inr e ↦ rw e (any-append p rows u k)
  ]

  -- A weaker test that no row passes is one that none passed before.
  pub any-weaken :
      (p q : User Text → Bool) (rows : List (User Text))
      → ((r : User Text) → p r ≡ true → q r ≡ true)
      → any X q rows ≡ false
      → any X p rows ≡ false
  any-weaken p q [] k h = refl
  any-weaken p q (r ∷ rows) k h = elim (Bool-cases (q r)) [
    | inl e ↦ let no : true ≡ false = rw e at h in ground arith
    | inr e ↦ elim (Bool-cases (p r)) [
      | inl g ↦ let no : true ≡ false = sym (k r g) ∙ e in ground arith
      | inr g ↦ let h' : any X q rows ≡ false = rw e at h in rw g (any-weaken p q rows k h')
    ]
  ]

  pub any-or :
      (p q : User Text → Bool) (rows : List (User Text))
      → any X p rows ≡ false
      → any X q rows ≡ false
      → any X (λ r. p r || q r) rows ≡ false
  any-or p q [] h k = refl
  any-or p q (r ∷ rows) h k = ground (arith, any-or p q rows)

  pub find_by-none :
      (p : User Text → Bool) (rows : List (User Text))
      → find_by X p rows ≡ none
      → any X p rows ≡ false
  find_by-none p [] h = refl
  find_by-none p (r ∷ rows) h = elim (Bool-cases (p r)) [
    | inl e ↦ let no : some r ≡ none = rw e at h in ground arith
    | inr e ↦ let h' : find_by X p rows ≡ none = rw e at h in rw e (find_by-none p rows h')
  ]

  pub any-none :
      (p : User Text → Bool) (rows : List (User Text))
      → any X p rows ≡ false
      → find_by X p rows ≡ none
  any-none p [] h = refl
  any-none p (r ∷ rows) h = elim (Bool-cases (p r)) [
    | inl e ↦ let no : true ≡ false = rw e at h in ground arith
    | inr e ↦ let h' : any X p rows ≡ false = rw e at h in rw e (any-none p rows h')
  ]

  pub find_by-true :
      (p : User Text → Bool) (rows : List (User Text)) (r : User Text)
      → find_by X p rows ≡ some r
      → p r ≡ true
  find_by-true p [] r h = ground arith
  find_by-true p (x ∷ rows) r h = elim (Bool-cases (p x)) [
    | inl e ↦ subst (λ y. p y ≡ true) (some-injective _ _ (rw e at h)) e
    | inr e ↦ find_by-true p rows r (rw e at h)
  ]

  pub any-strengthen :
      (p q : User Text → Bool) (rows : List (User Text))
      → ((r : User Text) → p r ≡ true → q r ≡ true)
      → any X p rows ≡ true
      → any X q rows ≡ true
  any-strengthen p q rows k h = elim (Bool-cases (any X q rows)) [
    | inl e ↦ e
    | inr e ↦ let bad : true ≡ false = sym h ∙ any-weaken p q rows k e in ground arith
  ]

  pub any-append_false :
      (p : User Text → Bool) (rows : List (User Text)) (u : User Text)
      → any X p rows ≡ false
      → p u ≡ false
      → any X p (rows ++ (u ∷ [])) ≡ false
  any-append_false p [] u h k = rw k refl
  any-append_false p (r ∷ rows) u h k = ground (arith, any-append_false p rows u)
