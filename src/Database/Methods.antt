-- ===== src/Database/Methods.antt =====
-- The client of one table: its methods, and the laws that the services rely on.
use wctm.Prelude.{ℕ, ◌≡◌, Bool, true, false, Option, none, some, List, ◌∷◌, Memᴰ}
use wctm.Database.Rows.{All, map_where, count_where, filter_where}

pub record Client (R : Type 0) : Type 0 where
  -- `findFirst` and `findUnique`: some row that the `where` selects, or `null`
  pub find_first : (R → Bool) → List R → Option R
  -- `updateMany`, and `update` by a key: the rows after it, and `count`
  pub update_many : (R → Bool) → (R → R) → List R → List R × ℕ
  pub count : (R → Bool) → List R → ℕ
  pub find_many : (R → Bool) → List R → List R
  -- `create`: `none` where a unique key of the schema is taken (`P2002`)
  pub create : R → List R → Option (List R)
  pub found :
      (p : R → Bool) (rs : List R) (r : R) → find_first p rs ≡ some r → Memᴰ r rs × (p r ≡ true)
  pub missing : (p : R → Bool) (rs : List R) → find_first p rs ≡ none → All (λ r. p r ≡ false) rs
  pub update_many_rows :
      (p : R → Bool) (f : R → R) (rs : List R) → (update_many p f rs).0 ≡ map_where p f rs
  pub update_many_count :
      (p : R → Bool) (f : R → R) (rs : List R) → (update_many p f rs).1 ≡ count_where p rs
  pub count_rows : (p : R → Bool) (rs : List R) → count p rs ≡ count_where p rs
  pub find_many_rows : (p : R → Bool) (rs : List R) → find_many p rs ≡ filter_where p rs
  pub created : (r : R) (rs ts : List R) → create r rs ≡ some ts → ts ≡ r ∷ rs
