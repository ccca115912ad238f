-- ===== src/Database/Rows.antt =====
-- The rows of a table, as a list: which of them a `where` selects, and how a write changes them.
use mathlib.Core.Path.{subst}
use wctm.Prelude.{
  ℕ, ◌+◌, ◌≤◌, ◌≡◌, refl, ap, sym, ◌∙◌, Bool, true, false, List, [], ◌∷◌, Memᴰ, arith, Bool-cases,
  inl, inr, if◌then◌else◌,
}

module _ {R : Type 0} where
  -- The rows after `updateMany({ where: p, data: f })`.
  unfoldable pub map_where : (R → Bool) → (R → R) → List R → List R
  map_where p f [] = []
  map_where p f (r ∷ rs) = (if p r then f r else r) ∷ map_where p f rs

  unfoldable pub count_where : (R → Bool) → List R → ℕ
  count_where p [] = 0
  count_where p (r ∷ rs) = (if p r then 1 else 0) + count_where p rs

  -- The rows that a `where` selects, in order.
  unfoldable pub filter_where : (R → Bool) → List R → List R
  filter_where p [] = []
  filter_where p (r ∷ rs) = let rest = filter_where p rs in if p r then r ∷ rest else rest

  -- Every row has the property.
  abbrev pub All : (R → Type 0) → List R → Type 0
  All P [] = Unit
  All P (r ∷ rs) = P r × All P rs

  pub All-mem : (P : R → Type 0) (r : R) (rs : List R) → All P rs → Memᴰ r rs → P r
  All-mem P r [] h m = elim m [ ]
  All-mem P r (x ∷ rs) h (Memᴰ.head e) = subst P (sym e) h.0
  All-mem P r (x ∷ rs) h (Memᴰ.tail m) = All-mem P r rs h.1 m

  pub mem-All : (P : R → Type 0) (rs : List R) → ((r : R) → Memᴰ r rs → P r) → All P rs
  mem-All P [] h = tt
  mem-All P (r ∷ rs) h = (h r (Memᴰ.head refl), mem-All P rs (λ x m. h x (Memᴰ.tail m)))

  pub All-map_where :
      (P : R → Type 0) (p : R → Bool) (f : R → R) (rs : List R)
      → ((r : R) → P r → p r ≡ true → P (f r))
      → All P rs
      → All P (map_where p f rs)
  unfolding map_where
  All-map_where P p f [] keep h = tt
  All-map_where P p f (r ∷ rs) keep h = (
    elim (Bool-cases (p r)) [ inl e ↦ rw e (keep r h.0 e) | inr e ↦ rw e (h.0) ],
    All-map_where P p f rs keep h.1,
  )

  -- What a `where` finds, it counts.
  pub count_where-pos :
      (p : R → Bool) (r : R) (rs : List R) → Memᴰ r rs → p r ≡ true → 1 ≤ count_where p rs
  unfolding count_where
  count_where-pos p r [] m e = elim m [ ]
  count_where-pos p r (x ∷ rs) (Memᴰ.head s) e = rw (ap p (sym s) ∙ e) (omega arith)
  count_where-pos p r (x ∷ rs) (Memᴰ.tail m) e = omega (arith, count_where-pos p r rs m e)

  -- A write that selects no row changes nothing.
  pub map_where_unchanged :
      (p : R → Bool) (f : R → R) (rs : List R) → count_where p rs ≡ 0 → map_where p f rs ≡ rs
  unfolding map_where count_where
  map_where_unchanged p f [] h = refl
  map_where_unchanged p f (r ∷ rs) h = ground (arith, map_where_unchanged p f rs)

  pub count_where_zero :
      (p : R → Bool) (rs : List R) → All (λ r. p r ≡ false) rs → count_where p rs ≡ 0
  unfolding count_where
  count_where_zero p [] h = refl
  count_where_zero p (r ∷ rs) h = ground (arith, count_where_zero p rs h.1)

  -- A write lowers the number of the rows with a property by at most the number that it selects.
  pub count_where-map_where :
      (q p : R → Bool) (f : R → R) (rs : List R)
      → count_where q rs ≤ count_where q (map_where p f rs) + count_where p rs
  unfolding map_where count_where
  count_where-map_where q p f [] = omega arith
  count_where-map_where q p f (r ∷ rs) = ground (arith, count_where-map_where q p f rs)

  -- A write that selects no row with a property takes the property from none.
  pub count_where-map_where_other :
      (q p : R → Bool) (f : R → R) (rs : List R)
      → ((r : R) → p r ≡ true → q r ≡ false)
      → count_where q rs ≤ count_where q (map_where p f rs)
  unfolding map_where count_where
  count_where-map_where_other q p f [] h = omega arith
  count_where-map_where_other q p f (r ∷ rs) h =
      ground (arith, count_where-map_where_other q p f rs h, h r)

  -- A write that neither selects nor makes a row with a property keeps those rows as they are.
  pub filter_where-map_where :
      (q p : R → Bool) (f : R → R) (rs : List R)
      → ((r : R) → p r ≡ true → q r ≡ false)
      → ((r : R) → p r ≡ true → q (f r) ≡ false)
      → filter_where q (map_where p f rs) ≡ filter_where q rs
  unfolding map_where filter_where
  filter_where-map_where q p f [] before after = refl
  filter_where-map_where q p f (r ∷ rs) before after =
      ground (arith, filter_where-map_where q p f rs before after, before r, after r)

  count_all : (q : R → Bool) (rs : List R) → count_where q (filter_where q rs) ≡ count_where q rs
  unfolding filter_where count_where
  count_all q [] = refl
  count_all q (r ∷ rs) = ground (arith, count_all q rs)

  pub count_where-filter_where :
      (q : R → Bool) (rs ts : List R)
      → filter_where q rs ≡ filter_where q ts
      → count_where q rs ≡ count_where q ts
  count_where-filter_where q rs ts e = sym (count_all q rs) ∙ ap (count_where q) e ∙ count_all q ts

  -- A row that is counted is there.
  pub count_where-found :
      (p : R → Bool) (rs : List R) → 1 ≤ count_where p rs → (r : R) × Memᴰ r rs × (p r ≡ true)
  unfolding count_where
  count_where-found p [] h = absurd (omega arith)
  count_where-found p (x ∷ rs) h = elim (Bool-cases (p x)) [
    | inl e ↦ (x, Memᴰ.head refl, e)
    | inr e ↦ let (r, m, t) = count_where-found p rs (ground arith) in (r, Memᴰ.tail m, t)
  ]

  pub count_where_none :
      (p : R → Bool) (rs : List R) → ((r : R) → Memᴰ r rs → p r ≡ false) → count_where p rs ≡ 0
  unfolding count_where
  count_where_none p [] h = refl
  count_where_none p (x ∷ rs) h =
      rw (h x (Memᴰ.head refl)) (omega (arith, count_where_none p rs (λ r m. h r (Memᴰ.tail m))))

  -- Two writes that do the same to the rows that they select.
  pub map_where_same :
      (p : R → Bool) (f g : R → R) (rs : List R)
      → ((r : R) → Memᴰ r rs → p r ≡ true → f r ≡ g r)
      → map_where p f rs ≡ map_where p g rs
  unfolding map_where
  map_where_same p f g [] h = refl
  map_where_same p f g (r ∷ rs) h =
      let rest = map_where_same p f g rs (λ x m. h x (Memᴰ.tail m)) in
      elim (Bool-cases (p r)) [
        | inl e ↦ rw (e, h r (Memᴰ.head refl) e, rest) refl
        | inr e ↦ rw (e, rest) refl
      ]

  -- A row that a write does not select stays.
  pub map_where_keeps :
      (p : R → Bool) (f : R → R) (r : R) (rs : List R)
      → Memᴰ r rs
      → p r ≡ false
      → Memᴰ r (map_where p f rs)
  unfolding map_where
  map_where_keeps p f r [] m e = elim m [ ]
  map_where_keeps p f r (x ∷ rs) (Memᴰ.head s) e =
      let t : p x ≡ false = ap p (sym s) ∙ e in rw t (Memᴰ.head s)
  map_where_keeps p f r (x ∷ rs) (Memᴰ.tail m) e = Memᴰ.tail (map_where_keeps p f r rs m e)
