-- ===== src/Inventory/Advance.antt =====
-- How an update of `applyProjection` changes a row: its time of change and the generation of its
-- incident only go up.
use wctm.Prelude.{
  ℕ, ◌+◌, ◌≤◌, ◌≡◌, refl, sym, ap, ◌⊎◌, inl, inr, Date, Bool, true, false, Option, List, Memᴰ,
  arith, same, is_some,
}
use wctm.Inventory.{
  Classification, healthy, is_healthy, same_class, Item, Source, Projection, Decision, apply, noop,
  reconcile, decide_inventory_projection, enter, next_incident, optimistic_item_where, decided,
  overwritten,
}

-- The generation of an incident stays, or goes up by one where a healthy item stops to be healthy.
abbrev pub Generations : ℕ → Classification → ℕ → Classification → Type 0
Generations g old g' new =
    (g' ≡ g) ⊎ ((g' ≡ g + 1) × (is_healthy old ≡ true) × (is_healthy new ≡ false))

-- A time of change goes up, or it is a deleted item's, and an authoritative payload may clear that.
abbrev pub Fresher : Bool → Source → Option Date → Date → Date → Type 0
Fresher authoritative source deleted_at old new =
    (old ≤ new)
    ⊎ ((is_some deleted_at ≡ true) × (source.clear_deletion ≡ true) × (authoritative ≡ true))

-- A later row of the same item.
abbrev pub Advances : Bool → Source → Item → Item → Type 0
Advances authoritative source r r' =
    (r'.id ≡ r.id)
    × (r'.wc_item_id ≡ r.wc_item_id)
    × Fresher authoritative source r.remote_deleted_at r.wc_modified_at r'.wc_modified_at
    × Generations r.incident_generation r.alert_classification r'.incident_generation
        r'.alert_classification

abbrev pub Advanced : Bool → Source → List Item → List Item → Type 0
Advanced authoritative source rs ts =
    (r : Item) → Memᴰ r rs → (r' : Item) × Memᴰ r' ts × Advances authoritative source r r'

pub Advances-refl : (a : Bool) (source : Source) (r : Item) → Advances a source r r
Advances-refl a source r = (refl, refl, inl (omega arith), inl refl)

-- What an incident's columns leave alone, and the generation that they set.
abbrev Columns : Item → Item → Classification → Classification → Type 0
Columns x y old new =
    (y.id ≡ x.id)
    × (y.wc_item_id ≡ x.wc_item_id)
    × (y.wc_modified_at ≡ x.wc_modified_at)
    × (y.alert_classification ≡ x.alert_classification)
    × Generations x.incident_generation old y.incident_generation new

next_incident-Columns :
    (e : Item) (source : Source) (old new : Classification) (x : Item)
    → x.incident_generation ≡ e.incident_generation
    → Columns x ((next_incident e source old new).data_of x) old new
unfolding next_incident enter
next_incident-Columns e source old healthy x h = (refl, refl, refl, refl, inl refl)
next_incident-Columns e source Classification.out_of_stock Classification.out_of_stock x h =
    (refl, refl, refl, refl, inl refl)
next_incident-Columns e source Classification.out_of_stock Classification.low_stock x h =
    (refl, refl, refl, refl, inl refl)
next_incident-Columns e source Classification.low_stock Classification.low_stock x h =
    (refl, refl, refl, refl, inl refl)
next_incident-Columns e source Classification.low_stock Classification.out_of_stock x h =
    (refl, refl, refl, refl, inl (sym h))
next_incident-Columns e source healthy Classification.low_stock x h =
    (refl, refl, refl, refl, inr (ap (λ n. n + 1) (sym h), refl, refl))
next_incident-Columns e source healthy Classification.out_of_stock x h =
    (refl, refl, refl, refl, inr (ap (λ n. n + 1) (sym h), refl, refl))

-- What is applied is no older than what is stored, but for a deleted item that it may restore.
pub decided-Fresher :
    (e : Item) (p : Projection) (authoritative : Bool) (source : Source)
    → decided e p authoritative source ≡ apply
    → Fresher authoritative source e.remote_deleted_at e.wc_modified_at p.wc_modified_at
unfolding decided decide_inventory_projection
decided-Fresher e p authoritative source h = ground arith

optimistic_item_where_lem :
    (e r : Item)
    → optimistic_item_where e r ≡ true
    → (r.wc_modified_at ≡ e.wc_modified_at)
      × (same r.remote_deleted_at e.remote_deleted_at ≡ true)
      × (same_class r.alert_classification e.alert_classification ≡ true)
      × (r.incident_generation ≡ e.incident_generation)
unfolding optimistic_item_where
optimistic_item_where_lem e r h = (ground arith, ground arith, ground arith, ground arith)

same-is_some : (a b : Option Date) → same a b ≡ true → is_some b ≡ true → is_some a ≡ true
same-is_some a b h k = ground arith

same_class_sound : (a b : Classification) → same_class a b ≡ true → a ≡ b
same_class_sound Classification.out_of_stock Classification.out_of_stock h = refl
same_class_sound Classification.low_stock Classification.low_stock h = refl
same_class_sound healthy healthy h = refl
same_class_sound Classification.out_of_stock Classification.low_stock h = cc
same_class_sound Classification.out_of_stock healthy h = cc
same_class_sound Classification.low_stock Classification.out_of_stock h = cc
same_class_sound Classification.low_stock healthy h = cc
same_class_sound healthy Classification.low_stock h = cc
same_class_sound healthy Classification.out_of_stock h = cc

Fresher-at :
    (a : Bool) (source : Source) (e r : Item) (new : Date) {n : Date}
    → r.wc_modified_at ≡ e.wc_modified_at
    → same r.remote_deleted_at e.remote_deleted_at ≡ true
    → n ≡ new
    → Fresher a source e.remote_deleted_at e.wc_modified_at new
    → Fresher a source r.remote_deleted_at r.wc_modified_at n
Fresher-at a source e r new wc deleted m (inl le) = inl (omega arith)
Fresher-at a source e r new wc deleted m (inr (d, clear, y)) =
    inr (same-is_some r.remote_deleted_at e.remote_deleted_at deleted d, clear, y)

pub Decision-cases : (d : Decision) → (d ≡ apply) ⊎ ((d ≡ noop) ⊎ (d ≡ reconcile))
Decision-cases apply = inl refl
Decision-cases noop = inr (inl refl)
Decision-cases reconcile = inr (inr refl)

-- The row that an update makes of a row that its `where` selects.
pub overwritten-Advances :
    (e r : Item) (p : Projection) (authoritative : Bool) (source : Source) (c : Classification)
    (now : Date)
    → optimistic_item_where e r ≡ true
    → Fresher authoritative source e.remote_deleted_at e.wc_modified_at p.wc_modified_at
    → Advances authoritative source r
        (overwritten p source e c (next_incident e source e.alert_classification c).data_of now r)
overwritten-Advances e r p authoritative source c now w fresh =
    let (wc, deleted, class, gen) = optimistic_item_where_lem e r w in
    let old = same_class_sound r.alert_classification e.alert_classification class in
    let x = overwritten p source e c (λ y. y) now r in
    let (i, n, m, k, g) = next_incident-Columns e source e.alert_classification c x gen in
    (i, n, Fresher-at authoritative source e r p.wc_modified_at wc deleted m fresh, rw (old, k) g)
