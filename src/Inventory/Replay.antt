-- ===== src/Inventory/Replay.antt =====
-- An item that a payload has been applied to, when the same payload comes again: the row is settled,
-- and its event raises the same signal.
use wctm.Prelude.{
  ℕ, ◌+◌, ◌≡◌, refl, sym, ap, ◌∙◌, ◌⊎◌, inl, inr, Key, Date, Bool, true, false, ◌&&◌, Option, none,
  some, arith, Bool-cases, holds, is_some, Result, ok, err,
}
use wctm.Inventory.{
  Classification, AlertLevel, healthy, is_healthy, Item, Signal, Source, Projection, noop, alert,
  enter, next_incident, replay_signal, replay_unless_baseline, Store, Error, Outcome, decided,
  decide_inventory_projection, effective_classification, preserved_deletion, overwritten, item_of,
  first_generation, entry_alert_level, entry_signal, new_item,
}
use wctm.Inventory.Signals.{Raised}

-- The stored row is what the payload says, and is not to be restored.
abbrev pub Settled : Projection → Source → Item → Type 0
Settled p source i =
    (i.wc_modified_at ≡ p.wc_modified_at)
    × (i.projection_fingerprint ≡ p.projection_fingerprint)
    × ((is_some i.remote_deleted_at && source.clear_deletion) ≡ false)

decide_same :
    (at : Date) (fingerprint : Key) (a : Bool)
    → decide_inventory_projection at fingerprint at fingerprint a ≡ noop
unfolding decide_inventory_projection
decide_same at fingerprint a = ground arith

pub decided-Settled :
    (i : Item) (p : Projection) (a : Bool) (source : Source)
    → Settled p source i
    → decided i p a source ≡ noop
unfolding decided
decided-Settled i p a source (w, f, d) =
    let e : decide_inventory_projection i.wc_modified_at i.projection_fingerprint p.wc_modified_at
          p.projection_fingerprint a
        ≡ noop =
      rw (w, f) (decide_same p.wc_modified_at p.projection_fingerprint a) in
    rw (e, d) refl

-- A column of the low-stock alert that is another event's, where the signal is no low-stock one.
abbrev pub Unraised : Signal → Item → Type 0
Unraised s i =
    (s.alert_level ≡ AlertLevel.low_stock)
    ⊎ (holds i.low_alert_source_webhook_event_id s.source_webhook_event_id ≡ false)

alert-eta :
    (s : Signal) (i : Item) (level : AlertLevel)
    → i.id ≡ s.inventory_item_id
    → i.incident_generation ≡ s.incident_generation
    → s.alert_level ≡ level
    → alert i.id i.incident_generation level s.source_webhook_event_id ≡ s
alert-eta s i level j g l = rw (j, g, l) refl

holds_lem : (o : Option Key) (e : Key) → o ≡ some e → holds o e ≡ true
holds_lem none e h = cc
holds_lem (some a) e h = ground arith

-- A signal that a row has raised is raised again by its event.
pub replay_signal-again :
    (source : Source) (i : Item) (s : Signal)
    → Raised source i (some s)
    → Unraised s i
    → replay_unless_baseline i source ≡ some s
unfolding replay_signal
replay_signal-again source i s (b, k, j, g, c) un = at_level s.alert_level refl
  where
    at_level :
        (level : AlertLevel) → s.alert_level ≡ level → replay_unless_baseline i source ≡ some s
    at_level AlertLevel.low_stock l =
        let e = s.source_webhook_event_id in
        let h = holds_lem i.low_alert_source_webhook_event_id e (rw l at c) in
        rw (b, k, h) (ap some (alert-eta s i AlertLevel.low_stock j g l))
    at_level AlertLevel.out_of_stock l =
        let e = s.source_webhook_event_id in
        let h = holds_lem i.out_alert_source_webhook_event_id e (rw l at c) in
        elim un [
          | inl n ↦
              absurd (cc (let u : AlertLevel.out_of_stock ≡ AlertLevel.low_stock = sym l ∙ n in u))
          | inr n ↦ rw (b, k, n, h) (ap some (alert-eta s i AlertLevel.out_of_stock j g l))
        ]

entry_signal_level :
    (id : Key) (g : ℕ) (level : AlertLevel) (b : Bool) (o : Option Key) (s : Signal)
    → entry_signal id g (some level) b o ≡ some s
    → s.alert_level ≡ level
entry_signal_level id g level true o s h = cc
entry_signal_level id g level false none s h = cc
entry_signal_level id g level false (some e) s h = ground arith

-- What the columns of an incident leave of the payload's, and the low-stock column.
abbrev pub Keeps : Signal → Item → Item → Type 0
Keeps s x y =
    (y.wc_modified_at ≡ x.wc_modified_at)
    × (y.projection_fingerprint ≡ x.projection_fingerprint)
    × (y.remote_deleted_at ≡ x.remote_deleted_at)
    × Unraised s y

pub next_incident-Keeps :
    (e : Item) (source : Source) (old new : Classification) (x : Item) (s : Signal)
    → Unraised s x
    → (next_incident e source old new).signal ≡ some s
    → Keeps s x ((next_incident e source old new).data_of x)
unfolding next_incident enter
next_incident-Keeps e source old healthy x s u h = (refl, refl, refl, inr refl)
next_incident-Keeps e source Classification.out_of_stock Classification.out_of_stock x s u h =
    (refl, refl, refl, u)
next_incident-Keeps e source Classification.out_of_stock Classification.low_stock x s u h =
    (refl, refl, refl, u)
next_incident-Keeps e source Classification.low_stock Classification.low_stock x s u h =
    (refl, refl, refl, u)
next_incident-Keeps e source Classification.low_stock Classification.out_of_stock x s u h =
    (refl, refl, refl, u)
next_incident-Keeps e source healthy Classification.low_stock x s u h = (
  refl,
  refl,
  refl,
  inl (
      entry_signal_level e.id (e.incident_generation + 1) AlertLevel.low_stock source.baseline
        source.source_webhook_event_id s h),
)
next_incident-Keeps e source healthy Classification.out_of_stock x s u h =
    (refl, refl, refl, inr refl)

pub next_incident-item_of :
    (store : Store) (w : Key) (e : Item) (source : Source) (old new : Classification) (x : Item)
    → item_of store w ((next_incident e source old new).data_of x) ≡ item_of store w x
unfolding next_incident enter
next_incident-item_of store w e source old healthy x = refl
next_incident-item_of store w e source Classification.out_of_stock Classification.out_of_stock x =
    refl
next_incident-item_of store w e source Classification.out_of_stock Classification.low_stock x = refl
next_incident-item_of store w e source Classification.low_stock Classification.low_stock x = refl
next_incident-item_of store w e source Classification.low_stock Classification.out_of_stock x = refl
next_incident-item_of store w e source healthy Classification.low_stock x = refl
next_incident-item_of store w e source healthy Classification.out_of_stock x = refl

pub new_item-Unraised :
    (store : Store) (p : Projection) (source : Source) (c : Classification) (now : Date) (id : Key)
    (b : Bool) (o : Option Key) (s : Signal)
    → entry_signal id (first_generation c) (entry_alert_level c) b o ≡ some s
    → Unraised s (
        new_item store p source c
          (entry_signal id (first_generation c) (entry_alert_level c) b o)
          now
          id)
unfolding entry_alert_level
new_item-Unraised store p source healthy now id b o s h = inr refl
new_item-Unraised store p source Classification.low_stock now id b o s h =
    inl (entry_signal_level id 1 AlertLevel.low_stock b o s h)
new_item-Unraised store p source Classification.out_of_stock now id true o s h = inr refl
new_item-Unraised store p source Classification.out_of_stock now id false none s h = inr refl
new_item-Unraised store p source Classification.out_of_stock now id false (some e) s h = inr refl

abbrev pub signal_of : Result Error Outcome → Option Signal
signal_of (ok o) = o.signal
signal_of (err e) = none

-- A row that raises a signal is to be restored by no later payload of the source.
pub not_deleted :
    (e : Item) (p : Projection) (source : Source) (c : Classification) (now : Date)
    → (p.active ≡ false → c ≡ healthy)
    → is_healthy (effective_classification e source c) ≡ false
    → is_some
        (overwritten p source e
          (effective_classification e source c)
          (λ x. x)
          now
          e).remote_deleted_at
      ≡ false
not_deleted e p source c now inactive h =
    elim (Bool-cases (is_some (preserved_deletion e source))) [
      | inl d ↦ absurd (cc (let u = rw d at h in u))
      | inr d ↦ elim (Bool-cases p.active) [
        | inl y ↦ rw y d
        | inr n ↦ absurd (cc (let u = rw (d, inactive n) at h in u))
      ]
    ]

pub healthy-silent :
    (e : Item) (source : Source) (old c : Classification) (s : Signal)
    → (next_incident e source old c).signal ≡ some s
    → is_healthy c ≡ false
unfolding next_incident
healthy-silent e source old healthy s h = cc
healthy-silent e source old Classification.low_stock s h = refl
healthy-silent e source old Classification.out_of_stock s h = refl
