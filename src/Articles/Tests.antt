-- ===== src/Articles/Tests.antt =====
-- Runs on two small tables of articles, and the theorems at concrete inputs.
use mathlib.Core.Option.{map}
use weishu.Base.{
  ℕ, ◌≡◌, ◌==◌, inl, refl, true, false, Bool, some, none, [], ◌∷◌, arith, if◌then◌else◌,
}
use weishu.Articles.Dao.{
  Article, Tables, database, find, found, list_pub, get_pub_by_id, update_by_id, sync,
}
use weishu.Articles.Publishing.{shown, sync_publishes}

abbrev article : ℕ → ℕ → ℕ → Article ℕ
article id title author_id = record {
  id = id;
  title = title;
  content = 70;
  author_id = author_id;
  status = 2;
  ctime = 1;
  utime = 1;
}

abbrev two : Tables ℕ
two = record { articles = article 3 30 8 ∷ article 5 50 9 ∷ []; published = article 3 29 8 ∷ [] }

abbrev same : ℕ → ℕ → Bool
same a b = a == b

saved_again : sync same false false 11 12 6 (article 3 31 8) two ≡ (
  (3, none),
  record {
    articles = record (article 3 31 8) { utime = 11 } ∷ article 5 50 9 ∷ [];
    published = record (article 3 31 8) { utime = 12 } ∷ [];
  },
)
unfolding sync update_by_id
saved_again = refl

listed : list_pub false 2 0 5 two ≡ found (article 3 29 8 ∷ [])
unfolding list_pub
listed = refl

read : get_pub_by_id false 3 two ≡ found (article 3 29 8)
unfolding get_pub_by_id
read = refl

sync_publishes_example :
    let ((id, e), d') = sync same false false 11 12 6 (article 3 31 8) two in
    (e ≡ none)
    × (id ≡ (if 3 == 0 then 6 else 3))
    × (map shown (find id d'.articles) ≡ some (31, 70, 2))
    × (map shown (find id d'.published) ≡ some (31, 70, 2))
sync_publishes_example =
    sync_publishes same 11 12 6 0 (article 3 31 8) two (omega arith, (omega arith, tt)) refl
      (inl refl)

undone : (sync same false true 11 12 6 (article 3 31 8) two).0.1 ≡ some database
unfolding sync update_by_id
undone = refl
