-- ===== src/Users/Accounts.antt =====
-- What an account is good for once it is made: webook/internal/service/user.go and below.
use weishu.Base.{
  sym, inl, inr, Bool-cases, ℕ, ◌≡◌, refl, Bool, true, false, none, some, List, [], ◌∷◌, ◌++◌,
  arith,
}
use weishu.Users.Dao.{Texts, User, duplicate_email, conflicts, any, new_row, insert}
use weishu.Users.Repository.{Account, string_of, null_string, entity_to_domain, domain_to_entity}

module _ {Text : Type 0} (X : Texts Text) where
  string_of-null_string :
      (t : Text) → (X.is_no_text t ≡ true → t ≡ X.no_text) → string_of X (null_string X t) ≡ t
  string_of-null_string t h = elim (Bool-cases (X.is_no_text t)) [
    | inl e ↦ rw e (sym (h e))
    | inr e ↦ rw e refl
  ]

  -- A user that is written and read back has its two WeChat ids exchanged, and its nickname lost. The
  -- condition is what the test for an empty text means.
  pub entity_to_domain-domain_to_entity :
      ((t : Text) → X.is_no_text t ≡ true → t ≡ X.no_text)
      → (u : Account Text)
      → entity_to_domain X (domain_to_entity X u)
        ≡ record u { union_id = u.open_id; open_id = u.union_id; nickname = X.no_text }
  unfolding entity_to_domain domain_to_entity
  entity_to_domain-domain_to_entity blank u =
      rw
        (
          string_of-null_string u.email (blank u.email),
          string_of-null_string u.phone (blank u.phone),
          string_of-null_string u.open_id (blank u.open_id),
          string_of-null_string u.union_id (blank u.union_id),
        )
        refl

  pub inserted :
      (fails : Bool) (now new_id : ℕ) (u : User Text) (rows : List (User Text))
      → (insert X fails now new_id u rows).0 ≡ none
      → (any X (conflicts X (new_row X now new_id u)) rows ≡ false)
        × (insert X fails now new_id u rows ≡ (none, rows ++ (new_row X now new_id u ∷ [])))
  unfolding insert
  inserted true now new_id u rows h = ground arith
  inserted false now new_id u rows h =
      elim (Bool-cases (any X (conflicts X (new_row X now new_id u)) rows)) [
        | inl e ↦ let no : some duplicate_email ≡ none = rw e at h in ground arith
        | inr e ↦ (e, rw e refl)
      ]

  pub insert-free :
      (now new_id : ℕ) (u : User Text) (rows : List (User Text))
      → any X (conflicts X (new_row X now new_id u)) rows ≡ false
      → insert X false now new_id u rows ≡ (none, rows ++ (new_row X now new_id u ∷ []))
  unfolding insert
  insert-free now new_id u rows h = rw h refl

  pub insert-taken :
      (now new_id : ℕ) (u : User Text) (rows : List (User Text))
      → any X (conflicts X (new_row X now new_id u)) rows ≡ true
      → insert X false now new_id u rows ≡ (some duplicate_email, rows)
  unfolding insert
  insert-taken now new_id u rows h = rw h refl
