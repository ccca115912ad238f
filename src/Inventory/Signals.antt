-- ===== src/Inventory/Signals.antt =====
-- The signal that the incident of an item raises, against the columns that it writes.
use mathlib.Core.Path.{subst}
use wctm.Prelude.{
  ℕ, ◌+◌, ◌≡◌, refl, sym, ◌∙◌, inl, inr, Key, Date, Bool, true, false, Option, none, some, arith,
  Bool-cases, if◌then◌else◌, same, holds,
}
use wctm.Inventory.{
  Classification, AlertLevel, healthy, same_class, Item, Signal, Source, Projection, enter,
  next_incident, replay_signal, replay_unless_baseline, signal_source, Store, optimistic_item_where,
  first_generation, entry_alert_level, entry_signal, new_item,
}

-- The webhook event of the alert of a level.
abbrev pub alert_source : AlertLevel → Item → Option Key
alert_source AlertLevel.low_stock i = i.low_alert_source_webhook_event_id
alert_source AlertLevel.out_of_stock i = i.out_alert_source_webhook_event_id

-- The source may signal, and the item's row says what the signal says.
abbrev pub Raised : Source → Item → Option Signal → Type 0
Raised source i none = Unit
Raised source i (some s) =
    (source.baseline ≡ false)
    × (source.source_webhook_event_id ≡ some s.source_webhook_event_id)
    × (i.id ≡ s.inventory_item_id)
    × (i.incident_generation ≡ s.incident_generation)
    × (alert_source s.alert_level i ≡ some s.source_webhook_event_id)

holds-some : (o : Option Key) (e : Key) → holds o e ≡ true → o ≡ some e
holds-some (some a) e h = ground arith
holds-some none e h = cc

replay_signal-Raised :
    (i : Item) (source : Source)
    → source.baseline ≡ false
    → (o : Option Key) → source.source_webhook_event_id ≡ o
    → Raised source i (replay_signal i o)
unfolding replay_signal
replay_signal-Raised i source b none e = tt
replay_signal-Raised i source b (some s) e =
    elim (Bool-cases (holds i.low_alert_source_webhook_event_id s)) [
      | inl h ↦ rw h (b, e, refl, refl, holds-some i.low_alert_source_webhook_event_id s h)
      | inr h ↦ elim (Bool-cases (holds i.out_alert_source_webhook_event_id s)) [
        | inl k ↦ rw (h, k) (b, e, refl, refl, holds-some i.out_alert_source_webhook_event_id s k)
        | inr k ↦ rw (h, k) tt
      ]
    ]

pub replay-Raised : (i : Item) (source : Source) → Raised source i (replay_unless_baseline i source)
replay-Raised i source =
    let s = replay_signal i source.source_webhook_event_id in
    let chosen : Bool → Type 0 = λ b. Raised source i (if b then none else s) in
    elim (Bool-cases source.baseline) [
      | inl b ↦ subst chosen (sym b) tt
      | inr b ↦
          subst chosen (sym b) (replay_signal-Raised i source b source.source_webhook_event_id refl)
    ]

-- A signal that a row's alert starts with.
entry_signal-Raised :
    (source : Source) (level : AlertLevel) (r : Item) (id : Key) (g : ℕ) (b : Bool) (o : Option Key)
    → source.baseline ≡ b
    → source.source_webhook_event_id ≡ o
    → r.id ≡ id
    → r.incident_generation ≡ g
    → alert_source level r ≡ signal_source (entry_signal id g (some level) b o)
    → Raised source r (entry_signal id g (some level) b o)
entry_signal-Raised source level r id g true o h k i j c = tt
entry_signal-Raised source level r id g false none h k i j c = tt
entry_signal-Raised source level r id g false (some e) h k i j c = (h, k, i, j, c)

-- Of a row that agrees with the item that was read, up to the columns of the payload.
abbrev Agrees : Item → Item → Type 0
Agrees e x =
    (x.id ≡ e.id)
    × (x.incident_generation ≡ e.incident_generation)
    × (x.low_alert_source_webhook_event_id ≡ e.low_alert_source_webhook_event_id)
    × (x.out_alert_source_webhook_event_id ≡ e.out_alert_source_webhook_event_id)

Raised-of :
    (source : Source) (e x : Item) (s : Option Signal)
    → Agrees e x
    → Raised source e s
    → Raised source x s
Raised-of source e x none a r = tt
Raised-of source e x (some s) (i, g, l, o) (b, h, j, k, c) =
    (b, h, i ∙ j, g ∙ k, at s.alert_level c)
  where
    at :
        (level : AlertLevel)
        → alert_source level e ≡ some s.source_webhook_event_id
        → alert_source level x ≡ some s.source_webhook_event_id
    at AlertLevel.low_stock c = l ∙ c
    at AlertLevel.out_of_stock c = o ∙ c

enter-Raised :
    (e : Item) (level : AlertLevel) (source : Source) (starts : Bool) (x : Item)
    → x.id ≡ e.id
    → x.incident_generation ≡ e.incident_generation
    → Raised source ((enter e level source starts).data_of x) (enter e level source starts).signal
unfolding enter
enter-Raised e AlertLevel.low_stock source true x i g =
    entry_signal-Raised source AlertLevel.low_stock
      ((enter e AlertLevel.low_stock source true).data_of x) e.id (e.incident_generation + 1)
      source.baseline source.source_webhook_event_id refl refl i refl refl
enter-Raised e AlertLevel.out_of_stock source true x i g =
    entry_signal-Raised source AlertLevel.out_of_stock
      ((enter e AlertLevel.out_of_stock source true).data_of x) e.id (e.incident_generation + 1)
      source.baseline source.source_webhook_event_id refl refl i refl refl
enter-Raised e AlertLevel.low_stock source false x i g =
    entry_signal-Raised source AlertLevel.low_stock
      ((enter e AlertLevel.low_stock source false).data_of x) e.id e.incident_generation
      source.baseline source.source_webhook_event_id refl refl i refl refl
enter-Raised e AlertLevel.out_of_stock source false x i g =
    entry_signal-Raised source AlertLevel.out_of_stock
      ((enter e AlertLevel.out_of_stock source false).data_of x) e.id e.incident_generation
      source.baseline source.source_webhook_event_id refl refl i refl refl

pub next_incident-Raised :
    (e : Item) (source : Source) (old new : Classification) (x : Item)
    → Agrees e x
    → Raised source
        ((next_incident e source old new).data_of x)
        (next_incident e source old new).signal
unfolding next_incident
next_incident-Raised e source old healthy x a = tt
next_incident-Raised e source Classification.out_of_stock Classification.out_of_stock x a =
    Raised-of source e x (replay_unless_baseline e source) a (replay-Raised e source)
next_incident-Raised e source Classification.out_of_stock Classification.low_stock x a = tt
next_incident-Raised e source Classification.low_stock Classification.low_stock x a =
    Raised-of source e x (replay_unless_baseline e source) a (replay-Raised e source)
next_incident-Raised e source Classification.low_stock Classification.out_of_stock x a =
    enter-Raised e AlertLevel.out_of_stock source false x a.0 a.1
next_incident-Raised e source healthy Classification.low_stock x a =
    enter-Raised e AlertLevel.low_stock source true x a.0 a.1
next_incident-Raised e source healthy Classification.out_of_stock x a =
    enter-Raised e AlertLevel.out_of_stock source true x a.0 a.1

pub same_refl : (o : Option Key) → same o o ≡ true
same_refl none = refl
same_refl (some a) = ground arith

pub same_class_refl : (c : Classification) → same_class c c ≡ true
same_class_refl Classification.low_stock = refl
same_class_refl Classification.out_of_stock = refl
same_class_refl healthy = refl

pub optimistic_item_where_refl : (e : Item) → optimistic_item_where e e ≡ true
unfolding optimistic_item_where
optimistic_item_where_refl e =
    ground (arith, same_refl e.remote_deleted_at, same_class_refl e.alert_classification)

pub new_item-Raised :
    (store : Store) (p : Projection) (source : Source) (c : Classification) (now : Date) (id : Key)
    (b : Bool) (o : Option Key)
    → source.baseline ≡ b
    → source.source_webhook_event_id ≡ o
    → (let s = entry_signal id (first_generation c) (entry_alert_level c) b o in
        Raised source (new_item store p source c s now id) s)
unfolding entry_alert_level
new_item-Raised store p source healthy now id true o h k = tt
new_item-Raised store p source Classification.low_stock now id true o h k = tt
new_item-Raised store p source Classification.out_of_stock now id true o h k = tt
new_item-Raised store p source healthy now id false none h k = tt
new_item-Raised store p source Classification.low_stock now id false none h k = tt
new_item-Raised store p source Classification.out_of_stock now id false none h k = tt
new_item-Raised store p source healthy now id false (some e) h k = tt
new_item-Raised store p source Classification.low_stock now id false (some e) h k =
    (h, k, refl, refl, refl)
new_item-Raised store p source Classification.out_of_stock now id false (some e) h k =
    (h, k, refl, refl, refl)
