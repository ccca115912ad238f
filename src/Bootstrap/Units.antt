-- ===== src/Bootstrap/Units.antt =====
-- That a job does one unit of the scan, on the row that it holds the lease of.
use mathlib.Core.Path.{subst}
use wctm.Prelude.{
  ℕ, ◌≡◌, refl, sym, ap, ◌∙◌, Key, Bool, true, false, Option, some, List, [], ◌∷◌, Memᴰ, arith,
  length, Result, ok, err, ⊤, bind_result, pure,
}
use wctm.Database.Methods.{Client}
use wctm.Database.Rows.{count_where, map_where, map_where_same}
use wctm.Database.Keys.{HasKeys}
use wctm.Bootstrap.{
  Progress, Store, after_variations, after_products, write_variations, is_ready, leased, advanced,
  Error, Services, World, Instants, job_of, ask, parents_of, or_gone, advance, scan_variations,
  scan_products, products_unit, one_unit, process_one_unit,
}
use wctm.Bootstrap.Scan.{Catalog, unit_progress}
use wctm.Bootstrap.Pages.{bind_ok, advance_ok, advance_count, page_scanned, page_scanned_ok}

-- The services answer with the pages of a catalog.
pub record Serves {Outside : Type 0} (svc : Services Outside) (db : Client Store) (c : Catalog)
    : Type 0 where
  pub products :
      (s : Store) (page : ℕ) (o : Outside)
      → (svc.fetch_products_page s page o).0 ≡ ok (some (c.products page))
  pub variations :
      (s : Store) (parent : Key) (page : ℕ) (o : Outside)
      → (svc.fetch_variations_page s parent page o).0 ≡ ok (some (c.variations parent page))
  pub parents : (page : List Key) → c.parents page ≡ parents_of svc db page

module _ {Outside : Type 0} (svc : Services Outside) (db : Client Store) where
  abbrev Answers : Result Error (Option (List Key)) → Option (List Key) → Type 0
  Answers r x = r ≡ ok x

  ok_injective : {x y : Option (List Key)} → Answers (ok x) y → x ≡ y
  ok_injective h = cc

  -- One row was under the lease, and a progress was written to it that is the specification's for the
  -- Store as it was loaded.
  abbrev Advanced : Catalog → Store → Instants → Bool → World Outside → World Outside → Type 0
  Advanced c store times b w u =
      (b ≡ is_ready (unit_progress c store.progress))
      × (count_where (leased (job_of store) times.claimed_at) w.stores ≡ 1)
      × ((f : Progress → Progress) × (f store.progress ≡ unit_progress c store.progress)
          × (u.stores
              ≡ (db.update_many (leased (job_of store) times.claimed_at)
                  (advanced f b times.advanced_at) w.stores).0))

  -- A unit of the scan was made: one row was under the lease, it has the progress of the specification,
  -- and the other rows are as they were.
  abbrev pub Made : Catalog → Store → Instants → Bool → World Outside → World Outside → Type 0
  Made c store times b w u =
      (b ≡ is_ready (unit_progress c store.progress))
      × (count_where (leased (job_of store) times.claimed_at) w.stores ≡ 1)
      × (u.stores
          ≡ map_where (leased (job_of store) times.claimed_at)
              (advanced (λ p. unit_progress c store.progress) b times.advanced_at) w.stores)

  module _ (c : Catalog) (serves : Serves svc db c) (store : Store) (times : Instants) where
    -- A page that was scanned makes the unit.
    made :
        (f : List Key → Progress → Progress) (done : List Key → Bool) (page : List Key) (b : Bool)
        (w v : World Outside) (r : Result Error Bool × World Outside)
        → v.stores ≡ w.stores
        → f page store.progress ≡ unit_progress c store.progress
        → done page ≡ is_ready (unit_progress c store.progress)
        → r ≡ page_scanned svc db store times f done (some page) v
        → r.0 ≡ ok b
        → Advanced c store times b w r.1
    made f done page b w v r same unit ready run h =
        let (d, st, one) =
          page_scanned_ok svc db store times f done page b v (ap (λ x. x.0) (sym run) ∙ h) in
        let write : Bool → List Store → List Store = λ x l.
          (db.update_many (leased (job_of store) times.claimed_at)
            (advanced (f page) x times.advanced_at) l).0 in
        (
          d ∙ ready,
          ap (λ l. count_where (leased (job_of store) times.claimed_at) l) (sym same) ∙ one,
          (
            f page,
            unit,
            ap (λ x. x.1.stores) run
                ∙ st
                ∙ ap (write (done page)) same
                ∙ ap (λ x. write x w.stores) (sym d),
          ),
        )

    unit_products :
        (p : Progress)
        → p.parent_ids ≡ []
        → p.products_done ≡ false
        → unit_progress c p
          ≡ after_products p
              (length (c.products p.product_page))
              (c.parents (c.products p.product_page))
    unfolding unit_progress
    unit_products p e d = rw (e, d, unit_progress) refl

    scan_products-Advanced :
        (b : Bool) (w : World Outside)
        → store.progress.parent_ids ≡ []
        → store.progress.products_done ≡ false
        → (scan_products svc db store times w).0 ≡ ok b
        → Advanced c store times b w (scan_products svc db store times w).1
    unfolding scan_products ask unit_progress
    scan_products-Advanced b w none_left more h =
        let page = c.products store.progress.product_page in
        let new = after_products store.progress (length page) (parents_of svc db page) in
        let unit : unit_progress c store.progress ≡ new =
          unit_products store.progress none_left more
          ∙ ap (after_products store.progress (length page)) (serves.parents page) in
        let (payload, e, s) =
          bind_ok (ask svc db (svc.fetch_products_page store store.progress.product_page) w)
            (page_scanned svc db store times
              (λ l p. after_products store.progress (length l) (parents_of svc db l))
              (λ l. is_ready (after_products store.progress (length l) (parents_of svc db l))))
            b h in
        let v = (ask svc db (svc.fetch_products_page store store.progress.product_page) w).1 in
        let q : payload ≡ some page =
          ok_injective (sym e ∙ serves.products store store.progress.product_page w.outside) in
        made (λ l p. after_products store.progress (length l) (parents_of svc db l))
          (λ l. is_ready (after_products store.progress (length l) (parents_of svc db l))) page b w
          v (scan_products svc db store times w) refl (sym unit) (ap is_ready (sym unit))
          (s
            ∙ ap
                (λ o.
                  page_scanned svc db store times
                    (λ l p. after_products store.progress (length l) (parents_of svc db l))
                    (λ l. is_ready (after_products store.progress (length l) (parents_of svc db l)))
                    o v)
                q)
          h

    or_gone_ok :
        (r : Result Error (Option (List Key)) × World Outside) (x : Option (List Key))
        → Answers r.0 x
        → or_gone svc db r ≡ r
    or_gone_ok (ok y, v) x h = refl
    or_gone_ok (err e, v) x h = absurd (cc (h))

    unit_variations :
        (p : Progress) (parent : Key) (parents : List Key)
        → p.parent_ids ≡ parent ∷ parents
        → unit_progress c p ≡ after_variations p (length (c.variations parent p.variation_page))
    unfolding unit_progress after_variations
    unit_variations p parent parents e = rw (e, unit_progress) refl

    scan_variations-Advanced :
        (parent : Key) (parents : List Key) (b : Bool) (w : World Outside)
        → store.progress.parent_ids ≡ parent ∷ parents
        → (scan_variations svc db store times parent w).0 ≡ ok b
        → Advanced c store times b w (scan_variations svc db store times parent w).1
    unfolding scan_variations ask after_variations write_variations
    scan_variations-Advanced parent parents b w left h =
        let page = c.variations parent store.progress.variation_page in
        let read =
          ask svc db (svc.fetch_variations_page store parent store.progress.variation_page) w in
        let unit = unit_variations store.progress parent parents left in
        let f : List Key → Progress → Progress =
          λ l. write_variations (after_variations store.progress (length l)) in
        let done : List Key → Bool = λ l. is_ready (after_variations store.progress (length l)) in
        let (payload, e, s) =
          bind_ok (or_gone svc db read) (page_scanned svc db store times f done) b h in
        let answer : Answers read.0 (some page) =
          serves.variations store parent store.progress.variation_page w.outside in
        let here = or_gone_ok read (some page) answer in
        let q : payload ≡ some page = ok_injective (sym e ∙ ap (λ r. r.0) here ∙ answer) in
        made f done page b w read.1 (scan_variations svc db store times parent w) refl (sym unit)
          (ap is_ready (sym unit))
          (s
            ∙ ap (λ o. page_scanned svc db store times f done o (or_gone svc db read).1) q
            ∙ ap
                (λ (r : Result Error (Option (List Key)) × World Outside).
                  page_scanned svc db store times f done (some page) r.1)
                here)
          h

    ended-Advanced :
        (b : Bool) (w : World Outside)
        → store.progress.parent_ids ≡ []
        → store.progress.products_done ≡ true
        → (products_unit svc db store times true w).0 ≡ ok b
        → Advanced c store times b w (products_unit svc db store times true w).1
    unfolding unit_progress
    ended-Advanced b w none_left all h =
        let unit : unit_progress c store.progress ≡ store.progress =
          unit_ended store.progress none_left all in
        let done : is_ready (unit_progress c store.progress) ≡ true =
          ap is_ready unit ∙ ready store.progress none_left all in
        written (advance svc db store times (λ p. p) true w)
          (advance_ok svc db store times (λ p. p) true w)
          (λ x. advance_count svc db store times (λ p. p) true w x) unit done h
      where
        unit_ended :
            (p : Progress) → p.parent_ids ≡ [] → p.products_done ≡ true → unit_progress c p ≡ p
        unit_ended p e d = rw (e, d, unit_progress) refl

        ready : (p : Progress) → p.parent_ids ≡ [] → p.products_done ≡ true → is_ready p ≡ true
        ready p e d = rw (e, d) refl

        written :
            (r : Result Error ⊤ × World Outside)
            → r.1.stores
              ≡ (db.update_many
                  (leased (job_of store) times.claimed_at)
                  (advanced (λ p. p) true times.advanced_at)
                  w.stores).0
            → ((x : ⊤)
                → r.0 ≡ ok x
                → count_where (leased (job_of store) times.claimed_at) w.stores ≡ 1)
            → unit_progress c store.progress ≡ store.progress
            → is_ready (unit_progress c store.progress) ≡ true
            → (bind_result r (λ _. pure true)).0 ≡ ok b
            → Advanced c store times b w (bind_result r (λ _. pure true)).1
        written (ok x, v) s one unit done g =
            let d : b ≡ true = cc (g) in
            (
              d ∙ sym done,
              one x refl,
              (
                (λ p. p),
                sym unit,
                s
                    ∙ ap
                        (λ x.
                          (db.update_many (leased (job_of store) times.claimed_at)
                            (advanced (λ p. p) x times.advanced_at) w.stores).0)
                        (sym d),
              ),
            )
        written (err x, v) s one unit done g = absurd (cc (g))

    one_unit-Advanced :
        (parents : List Key) (b : Bool) (w : World Outside)
        → store.progress.parent_ids ≡ parents
        → (one_unit svc db store times parents w).0 ≡ ok b
        → Advanced c store times b w (one_unit svc db store times parents w).1
    one_unit-Advanced (parent ∷ parents) b w left h =
        scan_variations-Advanced parent parents b w left h
    one_unit-Advanced [] b w left h = by_products store.progress.products_done refl h
      where
        by_products :
            (d : Bool)
            → store.progress.products_done ≡ d
            → (products_unit svc db store times d w).0 ≡ ok b
            → Advanced c store times b w
                (products_unit svc db store times store.progress.products_done w).1
        by_products d e g =
            subst (λ x. Advanced c store times b w (products_unit svc db store times x w).1) (sym e)
              (unit d e g)
          where
            unit :
                (d : Bool)
                → store.progress.products_done ≡ d
                → (products_unit svc db store times d w).0 ≡ ok b
                → Advanced c store times b w (products_unit svc db store times d w).1
            unit true e g = ended-Advanced b w left e g
            unit false e g = scan_products-Advanced b w left e g

    process_one_unit-Advanced :
        (b : Bool) (w : World Outside)
        → (process_one_unit svc db store times w).0 ≡ ok b
        → Advanced c store times b w (process_one_unit svc db store times w).1
    unfolding process_one_unit ask
    process_one_unit-Advanced b w h =
        let (x, e, s) =
          bind_ok (ask svc db (svc.connect store) w)
            (λ _. one_unit svc db store times store.progress.parent_ids) b h in
        let v = (ask svc db (svc.connect store) w).1 in
        subst (λ (r : Result Error Bool × World Outside). Advanced c store times b w r.1) (sym s)
          (one_unit-Advanced store.progress.parent_ids b v refl (ap (λ r. r.0) (sym s) ∙ h))

    -- Where the services answer with the pages of a catalog, no two Stores have the same identifier,
    -- and the Store is a row as it was loaded: a job that answers has found one row under its lease
    -- and has written to it the progress of the specification, every other row is as it was, and the
    -- job answers whether that progress is ready.
    pub process_one_unit-Made :
        (b : Bool) (w : World Outside)
        → HasKeys (λ s. s.id) w.stores
        → Memᴰ store w.stores
        → (process_one_unit svc db store times w).0 ≡ ok b
        → Made c store times b w (process_one_unit svc db store times w).1
    unfolding advanced
    process_one_unit-Made b w keys loaded h =
        let (ready, one, (f, unit, stores)) = process_one_unit-Advanced b w h in
        let p = leased (job_of store) times.claimed_at in
        (
          ready,
          one,
          stores
              ∙ db.update_many_rows p (advanced f b times.advanced_at) w.stores
              ∙ map_where_same p (advanced f b times.advanced_at)
                  (advanced (λ q. unit_progress c store.progress) b times.advanced_at) w.stores
                  (λ x m t. same f unit x (keys x store m loaded (ground arith))),
        )
      where
        same :
            (f : Progress → Progress)
            → f store.progress ≡ unit_progress c store.progress
            → (x : Store) → x ≡ store
            → advanced f b times.advanced_at x
              ≡ advanced (λ q. unit_progress c store.progress) b times.advanced_at x
        same f unit x e =
            ap (λ v. advanced (λ q. v) b times.advanced_at x)
              (ap (λ (y : Store). f y.progress) e ∙ unit)
