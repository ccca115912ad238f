-- ===== src/Bootstrap/Pages.antt =====
-- What a page that a job has scanned leaves in the rows of the Stores.
use wctm.Prelude.{
  ◌≡◌, refl, sym, ap, ◌∙◌, inl, inr, Key, Bool, Option, some, List, [], ◌∷◌, Bool-cases, arith, ltb,
  length, ◌==◌, Result, ok, err, Action, ⊤, bind_result, pure, ◌>>=◌, ◌>>◌,
}
use wctm.Database.Methods.{Client}
use wctm.Database.Rows.{count_where}
use wctm.Bootstrap.{
  Progress, Store, page_size, leased, advanced, Error, Services, World, Instants, job_of, ask,
  write_stores, require_page, project_all, advance,
}

module _ {E S A B : Type 0} where
  -- Where a sequence of two calls answers, so has the first.
  pub bind_ok :
      (r : Result E A × S) (f : A → Action E S B) (b : B)
      → (bind_result r f).0 ≡ ok b
      → (a : A) × (r.0 ≡ ok a) × (bind_result r f ≡ f a r.1)
  bind_ok (ok a, s) f b h = (a, refl, refl)
  bind_ok (err e, s) f b h = absurd (cc (h))

module _ {Outside : Type 0} (svc : Services Outside) (db : Client Store) where
  project_all-stores :
      (store : Store) (items : List Key) (w : World Outside)
      → (project_all svc db store items w).1.stores ≡ w.stores
  unfolding project_all ask
  project_all-stores store [] w = refl
  project_all-stores store (item ∷ items) w =
      rest (project_all-stores store items) (ask svc db (svc.project store item) w) refl
    where
      rest :
          ((v : World Outside) → (project_all svc db store items v).1.stores ≡ v.stores)
          → (r : Result Error ⊤ × World Outside) → r.1.stores ≡ w.stores
          → (bind_result r (λ _. project_all svc db store items)).1.stores ≡ w.stores
      rest ih (ok x, v) e = ih v ∙ e
      rest ih (err x, v) e = e

  -- What the write of a unit leaves where it answers.
  pub advance_ok :
      (store : Store) (times : Instants) (f : Progress → Progress) (done : Bool) (w : World Outside)
      → (advance svc db store times f done w).1.stores
        ≡ (db.update_many
            (leased (job_of store) times.claimed_at)
            (advanced f done times.advanced_at)
            w.stores).0
  unfolding advance write_stores
  advance_ok store times f done w =
      let n =
        (db.update_many (leased (job_of store) times.claimed_at) (advanced f done times.advanced_at)
          w.stores).1 in
      elim (Bool-cases (n == 1)) [ inl y ↦ rw (y, advance) refl | inr m ↦ rw (m, advance) refl ]

  -- Where the write answers, it has selected one row.
  pub advance_count :
      (store : Store) (times : Instants) (f : Progress → Progress) (done : Bool) (w : World Outside)
      (x : ⊤)
      → (advance svc db store times f done w).0 ≡ ok x
      → count_where (leased (job_of store) times.claimed_at) w.stores ≡ 1
  unfolding advance write_stores
  advance_count store times f done w x h =
      let n =
        (db.update_many (leased (job_of store) times.claimed_at) (advanced f done times.advanced_at)
          w.stores).1 in
      elim (Bool-cases (n == 1)) [
        | inl y ↦ ground (
          arith,
          db.update_many_count (leased (job_of store) times.claimed_at)
              (advanced f done times.advanced_at) w.stores,
        )
        | inr m ↦ absurd (cc (let g = rw (m, advance) at h in g))
      ]

  -- From a page on: it is projected, and the progress written.
  abbrev pub page_scanned :
      Store
      → Instants
      → (List Key → Progress → Progress)
      → (List Key → Bool)
      → Option (List Key)
      → Action Error (World Outside) Bool
  page_scanned store times f done payload = do
    page ← require_page svc db payload
    project_all svc db store page
    advance svc db store times (f page) (done page)
    pure (done page)

  pub page_scanned_ok :
      (store : Store) (times : Instants) (f : List Key → Progress → Progress)
      (done : List Key → Bool) (page : List Key) (b : Bool) (w : World Outside)
      → (page_scanned store times f done (some page) w).0 ≡ ok b
      → (b ≡ done page)
        × ((page_scanned store times f done (some page) w).1.stores
            ≡ (db.update_many
                (leased (job_of store) times.claimed_at)
                (advanced (f page) (done page) times.advanced_at)
                w.stores).0)
        × (count_where (leased (job_of store) times.claimed_at) w.stores ≡ 1)
  unfolding require_page
  page_scanned_ok store times f done page b w h = elim (Bool-cases (ltb page_size (length page))) [
    | inl y ↦ absurd (cc (let g = rw y at h in g))
    | inr n ↦
        rw n (
          projected (project_all svc db store page w) (project_all-stores store page w) (rw n at h))
  ]
    where
      written :
          (r : Result Error ⊤ × World Outside)
          → (bind_result r (λ _. pure (done page))).0 ≡ ok b
          → (b ≡ done page)
            × ((bind_result r (λ _. pure (done page))).1.stores ≡ r.1.stores)
            × ((x : ⊤) × (r.0 ≡ ok x))
      written (ok x, v) g = (cc (g), refl, (x, refl))
      written (err x, v) g = absurd (cc (g))

      projected :
          (r : Result Error ⊤ × World Outside)
          → r.1.stores ≡ w.stores
          → (bind_result r (λ _ v.
              bind_result
                (advance svc db store times (f page) (done page) v)
                (λ _. pure (done page)))).0
            ≡ ok b
          → (b ≡ done page)
            × ((bind_result r (λ _ v.
                  bind_result
                    (advance svc db store times (f page) (done page) v)
                    (λ _. pure (done page)))).1.stores
                ≡ (db.update_many
                    (leased (job_of store) times.claimed_at)
                    (advanced (f page) (done page) times.advanced_at)
                    w.stores).0)
            × (count_where (leased (job_of store) times.claimed_at) w.stores ≡ 1)
      projected (ok x, v) e g =
          let (q, s, (y, answer)) = written (advance svc db store times (f page) (done page) v) g in
          (
            q,
            s
                ∙ advance_ok store times (f page) (done page) v
                ∙ ap
                    (λ l.
                      (db.update_many (leased (job_of store) times.claimed_at)
                        (advanced (f page) (done page) times.advanced_at) l).0)
                    e,
            ap (count_where (leased (job_of store) times.claimed_at)) (sym e)
                ∙ advance_count store times (f page) (done page) v y answer,
          )
      projected (err x, v) e g = absurd (cc (g))
