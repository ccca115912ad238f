-- ===== src/Database/Keys.antt =====
-- A write to the one row that a `where` stands for, and what a later read of it finds.
use wctm.Prelude.{
  ℕ, ◌≤◌, ◌≡◌, ◌≢◌, refl, sym, ap, ◌∙◌, Bool, true, false, some, List, [], ◌∷◌, Memᴰ, Bool-cases,
  Option-cases, inl, inr, if◌then◌else◌,
}
use wctm.Database.Rows.{
  count_where, count_where-found, All-mem, map_where, filter_where, filter_where-map_where,
}
use wctm.Database.Methods.{Client}

module _ {R : Type 0} where
  -- A row after a write was a row before it.
  pub mem-map_where :
      (p : R → Bool) (f : R → R) (rs : List R) (r' : R)
      → Memᴰ r' (map_where p f rs)
      → (r : R) × Memᴰ r rs × (r' ≡ (if p r then f r else r))
  unfolding map_where
  mem-map_where p f [] r' m = elim m [ ]
  mem-map_where p f (x ∷ rs) r' (Memᴰ.head e) = (x, Memᴰ.head refl, e)
  mem-map_where p f (x ∷ rs) r' (Memᴰ.tail m) =
      let (r, n, e) = mem-map_where p f rs r' m in (r, Memᴰ.tail n, e)

  -- A row that the `where` selects is there after the write, as it was changed.
  pub map_where-mem :
      (p : R → Bool) (f : R → R) (r : R) (rs : List R)
      → Memᴰ r rs
      → p r ≡ true
      → Memᴰ (f r) (map_where p f rs)
  unfolding map_where
  map_where-mem p f r [] m e = elim m [ ]
  map_where-mem p f r (x ∷ rs) (Memᴰ.head s) e =
      let t : p x ≡ true = ap p (sym s) ∙ e in rw t (Memᴰ.head (ap f s))
  map_where-mem p f r (x ∷ rs) (Memᴰ.tail m) e = Memᴰ.tail (map_where-mem p f r rs m e)

  -- A read of the one row that a condition selects gives that row.
  pub find_first_unique :
      (db : Client R) (q : R → Bool) (rs : List R) (r : R)
      → Memᴰ r rs
      → q r ≡ true
      → ((x : R) → Memᴰ x rs → q x ≡ true → x ≡ r)
      → db.find_first q rs ≡ some r
  find_first_unique db q rs r m e unique = elim (Option-cases (db.find_first q rs)) [
    | inl h ↦ cc (e, All-mem (λ x. q x ≡ false) r rs (db.missing q rs h) m)
    | inr (x, h) ↦ let (n, t) = db.found q rs x h in rw h (ap some (unique x n t))
  ]

  -- Of the one row with a key, a read after a write to it sees what was written.
  pub find_first-update_many :
      (db : Client R) (q p : R → Bool) (f : R → R) (rs : List R) (r : R)
      → Memᴰ r rs
      → q (f r) ≡ true
      → p r ≡ true
      → ((x : R) → q (f x) ≡ true → q x ≡ true)
      → ((x : R) → Memᴰ x rs → q x ≡ true → x ≡ r)
      → db.find_first q (db.update_many p f rs).0 ≡ some (f r)
  find_first-update_many db q p f rs r m e s back unique =
      rw (db.update_many_rows p f rs)
        (find_first_unique db q (map_where p f rs) (f r) (map_where-mem p f r rs m s) e one)
    where
      one : (x' : R) → Memᴰ x' (map_where p f rs) → q x' ≡ true → x' ≡ f r
      one x' n t =
          let (x, o, u) = mem-map_where p f rs x' n in
          elim (Bool-cases (p x)) [
            | inl y ↦
                let v : x' ≡ f x = rw y at u in v ∙ ap f (unique x o (back x (ap q (sym v) ∙ t)))
            | inr y ↦
                let v : x' ≡ x = rw y at u in
                let w : x ≡ r = unique x o (ap q (sym v) ∙ t) in cc (y, s, ap p w)
          ]

  -- Rows that a write neither selects nor makes stay as they are.
  pub filter_where-update_many :
      (db : Client R) (q p : R → Bool) (f : R → R) (rs : List R)
      → ((r : R) → p r ≡ true → q r ≡ false)
      → ((r : R) → p r ≡ true → q (f r) ≡ false)
      → filter_where q (db.update_many p f rs).0 ≡ filter_where q rs
  filter_where-update_many db q p f rs before after =
      rw (db.update_many_rows p f rs) (filter_where-map_where q p f rs before after)

  -- No two rows have the same key.
  abbrev pub HasKeys : (R → ℕ) → List R → Type 0
  HasKeys key rs = (x y : R) → Memᴰ x rs → Memᴰ y rs → key x ≡ key y → x ≡ y

  pub HasKeys-pair : (key : R → ℕ) (a b : R) → key a ≢ key b → HasKeys key (a ∷ b ∷ [])
  HasKeys-pair key a b ne x y (Memᴰ.head e) (Memᴰ.head f) h = e ∙ sym f
  HasKeys-pair key a b ne x y (Memᴰ.head e) (Memᴰ.tail (Memᴰ.head f)) h =
      absurd (ne (ap key (sym e) ∙ h ∙ ap key f))
  HasKeys-pair key a b ne x y (Memᴰ.tail (Memᴰ.head e)) (Memᴰ.head f) h =
      absurd (ne (ap key (sym f) ∙ sym h ∙ ap key e))
  HasKeys-pair key a b ne x y (Memᴰ.tail (Memᴰ.head e)) (Memᴰ.tail (Memᴰ.head f)) h = e ∙ sym f
  HasKeys-pair key a b ne x y (Memᴰ.tail (Memᴰ.tail m)) n h = elim m [ ]
  HasKeys-pair key a b ne x y m (Memᴰ.tail (Memᴰ.tail n)) h = elim n [ ]

  -- Where a write selects a row with a key and none with another key, the row with that key is one
  -- that was written.
  pub written_row :
      (key : R → ℕ) (p : R → Bool) (f : R → R) (rs : List R) (k : ℕ) (r' : R)
      → HasKeys key rs
      → ((y : R) → p y ≡ true → key y ≡ k)
      → 1 ≤ count_where p rs
      → Memᴰ r' (map_where p f rs)
      → key r' ≡ k
      → (x : R) × Memᴰ x rs × (p x ≡ true) × (r' ≡ f x)
  written_row key p f rs k r' keys selects some_row m same =
      let (x, n, u) = mem-map_where p f rs r' m in
      let (y, o, v) = count_where-found p rs some_row in
      elim (Bool-cases (p x)) [
        | inl t ↦ (x, n, t, rw t at u)
        | inr g ↦
            let s : r' ≡ x = rw g at u in
            let xy : x ≡ y = keys x y n o (ap key (sym s) ∙ same ∙ sym (selects y v)) in
            absurd (cc (g, v, ap p xy))
      ]
