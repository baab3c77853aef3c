-- ===== src/Migrator/Mentions.antt =====
-- The rows that a list of reports names, and the side it takes as the base.
use weishu.Base.{ℕ, ◌≡◌, refl, Bool, false, ◌||◌, List, [], ◌∷◌, ◌++◌, arith, ◌==◌}
use weishu.Migrator.Events.{Direction, InconsistentEvent}

abbrev pub mentions : ℕ → List InconsistentEvent → Bool
mentions k [] = false
mentions k (e ∷ es) = (e.id == k) || mentions k es

-- All reports take the same side as the base.
abbrev pub AllFrom : Direction → List InconsistentEvent → Type 0
AllFrom d [] = Unit
AllFrom d (e ∷ es) = (e.direction ≡ d) × AllFrom d es

pub mentions-append :
    (k : ℕ) (xs ys : List InconsistentEvent)
    → mentions k (xs ++ ys) ≡ mentions k xs || mentions k ys
mentions-append k [] ys = refl
mentions-append k (x ∷ xs) ys = ground (arith, mentions-append k xs ys)

pub AllFrom-append :
    (d : Direction) (xs ys : List InconsistentEvent)
    → AllFrom d xs
    → AllFrom d ys
    → AllFrom d (xs ++ ys)
AllFrom-append d [] ys a b = b
AllFrom-append d (x ∷ xs) ys a b = (a.0, AllFrom-append d xs ys a.1 b)
