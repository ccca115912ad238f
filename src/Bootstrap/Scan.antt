-- ===== src/Bootstrap/Scan.antt =====
-- That a scan comes to an end.
use mathlib.Core.Path.{subst}
use wctm.Prelude.{
  ℕ, zero, suc, ◌+◌, ◌≤◌, ◌<◌, ◌≡◌, refl, ap, ◌∙◌, inl, inr, Key, Bool, true, false, List, [], ◌∷◌,
  Bool-cases, ltb, length, arith, if◌then◌else◌, ◌==◌,
}
use wctm.Bootstrap.{Progress, page_size, after_variations, after_products, is_ready, distinct}

-- What WooCommerce has, page by page, and which products have variations to be scanned. It does not
-- change while it is scanned.
pub record Catalog : Type 0 where
  pub products : ℕ → List Key
  pub variations : Key → ℕ → List Key
  pub parents : List Key → List Key

-- The progress that a job makes from a progress: it reads the page that is next.
unfoldable pub unit_progress : Catalog → Progress → Progress
unfolding after_variations after_products
unit_progress c p = next p.parent_ids
  where
    next : List Key → Progress
    next (parent ∷ parents) = after_variations p (length (c.variations parent p.variation_page))
    next [] =
        if p.products_done
        then p
        else after_products p (length (c.products p.product_page))
            (c.parents (c.products p.product_page))

-- The progress after a number of jobs.
unfoldable pub scan : ℕ → Catalog → Progress → Progress
unfolding unit_progress
scan zero c p = p
scan (suc n) c p = scan n c (unit_progress c p)

-- The progress that a Store begins with.
abbrev pub first_progress : Progress
first_progress = record {
  product_page = 1;
  variation_page = 1;
  parent_ids = [];
  products_done = false;
}

module _ (c : Catalog) (last : ℕ) (last_of : Key → ℕ)
    (products_end : length (c.products last) < page_size)
    (variations_end : (k : Key) → length (c.variations k (last_of k)) < page_size)
    (first_page : (k : Key) → 1 ≤ last_of k) where
  -- Jobs lead from a progress to another.
  data Leads : Progress → Progress → Type 0 where
    stay : (p : Progress) → Leads p p
    job : {p q : Progress} → Leads (unit_progress c p) q → Leads p q

  Leads-trans : {p q r : Progress} → Leads p q → Leads q r → Leads p r
  Leads-trans (stay p) b = b
  Leads-trans (job a) b = job (Leads-trans a b)

  Leads-scan : {p q : Progress} → Leads p q → (n : ℕ) × (scan n c p ≡ q)
  unfolding scan
  Leads-scan (stay p) = (0, refl)
  Leads-scan (job a) = let (n, e) = Leads-scan a in (suc n, e)

  -- A page that is not short is not the last one.
  not_last :
      (k : Key) (v : ℕ)
      → v ≤ last_of k
      → ltb (length (c.variations k v)) page_size ≡ false
      → v + 1 ≤ last_of k
  not_last k v le n = elim (Bool-cases (v == last_of k)) [
    | inr m ↦ ground arith
    | inl y ↦
        let e : last_of k ≡ v = ground arith in
        let h = subst (λ x. length (c.variations k x) < page_size) e (variations_end k) in
        absurd (ground arith)
  ]

  not_last_product :
      (v : ℕ) → v ≤ last → ltb (length (c.products v)) page_size ≡ false → v + 1 ≤ last
  not_last_product v le n = elim (Bool-cases (v == last)) [
    | inr m ↦ ground arith
    | inl y ↦
        let e : last ≡ v = ground arith in
        let h = subst (λ x. length (c.products x) < page_size) e products_end in
        absurd (ground arith)
  ]

  -- The pages of one parent are read to the last.
  one_parent :
      (left : ℕ) (pp v : ℕ) (k : Key) (ks : List Key) (done : Bool)
      → v ≤ last_of k
      → last_of k ≤ v + left
      → Leads
          (record {
            product_page = pp;
            variation_page = v;
            parent_ids = k ∷ ks;
            products_done = done;
          })
          (record { product_page = pp; variation_page = 1; parent_ids = ks; products_done = done })
  unfolding unit_progress after_variations
  one_parent zero pp v k ks done le ge =
      elim (Bool-cases (ltb (length (c.variations k v)) page_size)) [
        | inl y ↦ job (rw y (stay _))
        | inr n ↦ absurd (omega (arith, le, ge, not_last k v le n))
      ]
  one_parent (suc left) pp v k ks done le ge =
      elim (Bool-cases (ltb (length (c.variations k v)) page_size)) [
        | inl y ↦ job (rw y (stay _))
        | inr n ↦
            job
              (rw n (one_parent left pp (v + 1) k ks done (not_last k v le n) (omega (arith, ge))))
      ]

  all_parents :
      (ks : List Key) (pp : ℕ) (done : Bool)
      → Leads
          (record { product_page = pp; variation_page = 1; parent_ids = ks; products_done = done })
          (record { product_page = pp; variation_page = 1; parent_ids = []; products_done = done })
  all_parents [] pp done = stay _
  all_parents (k ∷ ks) pp done =
      Leads-trans (one_parent (last_of k) pp 1 k ks done (first_page k) (omega arith))
        (all_parents ks pp done)

  all_products :
      (left : ℕ) (pp : ℕ)
      → pp ≤ last
      → last ≤ pp + left
      → (q : Progress) × Leads
          (record { product_page = pp; variation_page = 1; parent_ids = []; products_done = false })
          q
        × (is_ready q ≡ true)
  unfolding unit_progress after_products
  all_products zero pp le ge = elim (Bool-cases (ltb (length (c.products pp)) page_size)) [
    | inl y ↦ (
      record { product_page = pp + 1; variation_page = 1; parent_ids = []; products_done = true },
      job (rw y (all_parents (distinct (c.parents (c.products pp))) (pp + 1) true)),
      refl,
    )
    | inr n ↦ absurd (omega (arith, le, ge, not_last_product pp le n))
  ]
  all_products (suc left) pp le ge = elim (Bool-cases (ltb (length (c.products pp)) page_size)) [
    | inl y ↦ (
      record { product_page = pp + 1; variation_page = 1; parent_ids = []; products_done = true },
      job (rw y (all_parents (distinct (c.parents (c.products pp))) (pp + 1) true)),
      refl,
    )
    | inr n ↦
        let (q, l, r) = all_products left (pp + 1) (not_last_product pp le n) (omega (arith, ge)) in
        (
          q,
          job (
              rw n (
                Leads-trans (all_parents (distinct (c.parents (c.products pp))) (pp + 1) false) l)),
          r,
        )
  ]

  -- A scan of a catalog that stands still ends: where the pages of products and those of each
  -- product's variations come to one that is not full, the page that is asked for first or a later one,
  -- some number of jobs leads from the beginning to a progress that is ready.
  pub scan_ready : 1 ≤ last → (n : ℕ) × (is_ready (scan n c first_progress) ≡ true)
  scan_ready some_page =
      let (q, l, r) = all_products last 1 some_page (omega arith) in
      let (n, e) = Leads-scan l in (n, ap is_ready e ∙ r)
