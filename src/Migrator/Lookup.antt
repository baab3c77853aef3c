-- ===== src/Migrator/Lookup.antt =====
-- The rows of a table under the statements that change it.
use weishu.Base.{
  ℕ, suc, ◌≤◌, ◌<◌, ◌≡◌, refl, true, false, none, some, List, [], ◌∷◌, arith, ◌==◌, if◌then◌else◌,
}
use weishu.Migrator.Table.{Entity, find, has, delete, upsert, IsAscending}

module _ {T : Type 0} (E : Entity T) where
  pub find-upsert :
      (k : ℕ) (t : T) (xs : List T)
      → find E k (upsert E t xs) ≡ (if E.id t == k then some t else find E k xs)
  find-upsert k t [] = refl
  find-upsert k t (x ∷ xs) = ground (arith, find-upsert k t xs)

  pub find-delete :
      (k j : ℕ) (xs : List T) → find E k (delete E j xs) ≡ (if j == k then none else find E k xs)
  find-delete k j [] = ground arith
  find-delete k j (x ∷ xs) = ground (arith, find-delete k j xs)

  pub find_id : (k : ℕ) (xs : List T) (t : T) → find E k xs ≡ some t → E.id t ≡ k
  find_id k [] t h = cc
  find_id k (x ∷ xs) t h = ground (arith, find_id k xs t)

  pub has_of_find : (k : ℕ) (xs : List T) (t : T) → find E k xs ≡ some t → has E k xs ≡ true
  has_of_find k [] t h = cc
  has_of_find k (x ∷ xs) t h = ground (arith, has_of_find k xs t)

  pub has_of_missing : (k : ℕ) (xs : List T) → find E k xs ≡ none → has E k xs ≡ false
  has_of_missing k [] h = refl
  has_of_missing k (x ∷ xs) h = ground (arith, has_of_missing k xs)

  pub upsert-IsAscending :
      (low : ℕ) (t : T) (xs : List T)
      → low ≤ E.id t
      → IsAscending E low xs
      → IsAscending E low (upsert E t xs)
  upsert-IsAscending low t [] h a = (h, tt)
  upsert-IsAscending low t (x ∷ xs) h a = ground (arith, upsert-IsAscending (suc (E.id x)) t xs)

  IsAscending-mono :
      (low low' : ℕ) (xs : List T) → low' ≤ low → IsAscending E low xs → IsAscending E low' xs
  IsAscending-mono low low' [] h a = tt
  IsAscending-mono low low' (x ∷ xs) h a = (omega arith, a.1)

  pub delete-IsAscending :
      (low k : ℕ) (xs : List T) → IsAscending E low xs → IsAscending E low (delete E k xs)
  delete-IsAscending low k [] a = tt
  delete-IsAscending low k (x ∷ xs) a = ground (
    arith,
    delete-IsAscending (suc (E.id x)) k xs,
    IsAscending-mono (suc (E.id x)) low (delete E k xs),
  )

  find_below : (low k : ℕ) (xs : List T) → IsAscending E low xs → k < low → find E k xs ≡ none
  find_below low k [] a h = refl
  find_below low k (x ∷ xs) a h = ground (arith, find_below (suc (E.id x)) k xs)

  tail_lookup :
      (x y : T) (xs ys : List T) (k : ℕ)
      → x ≡ y
      → IsAscending E (suc (E.id x)) xs
      → IsAscending E (suc (E.id y)) ys
      → find E k (x ∷ xs) ≡ find E k (y ∷ ys)
      → find E k xs ≡ find E k ys
  tail_lookup x y xs ys k e a b h =
      ground (arith, find_below (suc (E.id x)) k xs, find_below (suc (E.id y)) k ys)

  -- Two tables in which every lookup gives the same are the same table.
  pub table_ext :
      (low : ℕ) (xs ys : List T)
      → IsAscending E low xs
      → IsAscending E low ys
      → ((k : ℕ) → find E k xs ≡ find E k ys)
      → xs ≡ ys
  table_ext low [] [] a b h = refl
  table_ext low [] (y ∷ ys) a b h = ground (arith, h (E.id y))
  table_ext low (x ∷ xs) [] a b h = ground (arith, h (E.id x))
  table_ext low (x ∷ xs) (y ∷ ys) a b h =
      let e : x ≡ y = ground (
        arith,
        h (E.id x),
        h (E.id y),
        find_below (suc (E.id y)) (E.id x) ys,
        find_below (suc (E.id x)) (E.id y) xs,
      ) in
      let b' : IsAscending E (suc (E.id x)) ys = rw e b.1 in
      let rest : xs ≡ ys =
        table_ext (suc (E.id x)) xs ys a.1 b' (λ k. tail_lookup x y xs ys k e a.1 b.1 (h k)) in
      cc
