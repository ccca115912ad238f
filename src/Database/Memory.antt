-- ===== src/Database/Memory.antt =====
-- A client over a table in memory: it shows that the laws can be met, and runs the tests. `clash`
-- says when two rows have a unique key in common.
use wctm.Prelude.{
  ◌≡◌, refl, ap, ◌∙◌, Bool, true, false, Option, none, some, List, [], ◌∷◌, Memᴰ, arith, Bool-cases,
  inl, inr, if◌then◌else◌, is_some,
}
use wctm.Database.Rows.{All, map_where, count_where, filter_where}
use wctm.Database.Methods.{Client}

module _ {R : Type 0} where
  unfoldable pub first : (R → Bool) → List R → Option R
  first p [] = none
  first p (r ∷ rs) = if p r then some r else first p rs

  pub first_found :
      (p : R → Bool) (rs : List R) (r : R) → first p rs ≡ some r → Memᴰ r rs × (p r ≡ true)
  unfolding first
  first_found p [] r h = cc
  first_found p (x ∷ rs) r h = elim (Bool-cases (p x)) [
    | inl e ↦ let s : r ≡ x = ground arith in (Memᴰ.head s, ap p s ∙ e)
    | inr e ↦ let (m, t) = first_found p rs r (rw e at h) in (Memᴰ.tail m, t)
  ]

  pub first_missing : (p : R → Bool) (rs : List R) → first p rs ≡ none → All (λ r. p r ≡ false) rs
  unfolding first
  first_missing p [] h = tt
  first_missing p (x ∷ rs) h = elim (Bool-cases (p x)) [
    | inl e ↦ cc (let u : some x ≡ none = rw e at h in u)
    | inr e ↦ (e, first_missing p rs (rw e at h))
  ]

  unfoldable pub insert_row : (R → R → Bool) → R → List R → Option (List R)
  insert_row clash r rs = if is_some (first (clash r) rs) then none else some (r ∷ rs)

  pub insert_row_lem :
      (clash : R → R → Bool) (r : R) (rs ts : List R)
      → insert_row clash r rs ≡ some ts
      → ts ≡ r ∷ rs
  unfolding insert_row
  insert_row_lem clash r rs ts h = ground arith

  unfoldable pub memory : (R → R → Bool) → Client R
  unfolding first insert_row map_where count_where filter_where
  memory clash = record {
    find_first = first;
    update_many = λ p f rs. (map_where p f rs, count_where p rs);
    count = count_where;
    find_many = filter_where;
    create = insert_row clash;
    found = first_found;
    missing = first_missing;
    update_many_rows = λ p f rs. refl;
    update_many_count = λ p f rs. refl;
    count_rows = λ p rs. refl;
    find_many_rows = λ p rs. refl;
    created = insert_row_lem clash;
  }
