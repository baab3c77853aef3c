-- ===== src/Articles/ReadingTests.antt =====
-- Publications and what readers get, on small tables.
use weishu.Base.{ℕ, ◌≡◌, refl, true, false, none, some, [], ◌∷◌, ◌==◌, if◌then◌else◌, panics}
use weishu.Articles.Dao.{Article, get_by_author}
use weishu.Articles.Repository.{Shown, Store, World, replied, sync_status, page_of_author}
use weishu.Users.Dao.{User, find_by_id}
use weishu.Users.Repository.{with_id, get_cached, entity_to_domain}
use weishu.Articles.Authors.{People, Asking, author_name}
use weishu.Articles.Service.{published, publish, withdraw, read_pub}
use weishu.Articles.Reading.{read_pub-stale}

-- A text is a number; json reads back what it wrote.
abbrev world : World ℕ
world = record {
  same = λ a b. a == b;
  no_text = 0;
  abstract = λ t. t;
  is_small = λ t. true;
  reread = λ a. some a;
  reread_broken = λ a. a;
  dao_sync_status = λ uid id status d. (none, d);
}

abbrev row : Article ℕ
row = record { id = 3; title = 30; content = 31; author_id = 8; status = 1; ctime = 1; utime = 1 }

abbrev one : Store ℕ
one = record {
  db = record { articles = row ∷ []; published = [] };
  details = λ i. none;
  published = λ i. none;
  first_pages = λ u. none;
}

abbrev new_version : Shown ℕ
new_version = record {
  id = 3;
  title = 40;
  content = 41;
  author_id = 8;
  author_name = 0;
  status = 0;
  ctime = 0;
  utime = 0;
}

-- The author's row has the author's number for an email: this is what `FindById` asks for.
abbrev asking : Asking ℕ
asking = record {
  texts = record {
    same = λ a b. a == b;
    equals_number = λ a n. a == n;
    no_text = 0;
    is_no_text = λ a. a == 0;
  };
  json = λ u. some u;
  down = false;
  fails = false;
  set_down = false;
}

abbrev author : User ℕ
author = record {
  id = 2;
  email = some 8;
  password = 1;
  phone = none;
  ctime = 1;
  utime = 1;
  nickname = 77;
  wechat_union_id = none;
  wechat_open_id = none;
}

abbrev people : People ℕ
people = record { rows = author ∷ []; cached = λ u. none }

-- The author is found, and the nickname that the repository gives is empty.
name_is_empty : (author_name asking 8 people).0 ≡ some 0
unfolding author_name with_id get_cached find_by_id entity_to_domain
name_is_empty = refl

-- Another author, whose number is no one's email, is not found by the user's id.
not_found : (author_name asking 2 people).0 ≡ none
unfolding author_name with_id get_cached find_by_id
not_found = refl

-- Article 3 is cached as it was.
abbrev cached : Store ℕ
cached = record one { published = λ i. if i == 3 then some new_version else none }

read_pub-stale_example :
    let s' = (publish world false false 7 8 9 (record new_version { title = 50 }) cached).1 in
    let s'' = (withdraw world 8 3 s').1 in
    ((read_pub world asking false false false 3 2 s' people).0 ≡ (replied new_version, some (3, 2)))
    × ((read_pub world asking false false false 3 2 s'' people).0
        ≡ (replied new_version, some (3, 2)))
read_pub-stale_example =
    read_pub-stale world false false false false 7 8 9 3 8 2 (record new_version { title = 50 })
      new_version new_version cached asking people refl refl

-- A withdrawal that the database has done ends in a panic, and so does the list of an author's articles.
not_implemented :
    ((withdraw world 8 3 one).0 ≡ panics) × ((page_of_author world 8 0 10 false one).0 ≡ panics)
unfolding withdraw sync_status page_of_author get_by_author
not_implemented = (refl, refl)
