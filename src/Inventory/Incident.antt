-- ===== src/Inventory/Incident.antt =====
-- The incident that a change of an item's classification starts, continues or ends, and the alert
-- signal that goes with it.
use wctm.Prelude.{ℕ, ◌+◌, Key, Bool, true, false, Option, none, some, holds, if◌then◌else◌}
use wctm.Inventory.State.{Classification, AlertLevel, healthy, Item, Signal, Source}

-- `entryAlertLevel`
unfoldable pub entry_alert_level : Classification → Option AlertLevel
entry_alert_level Classification.low_stock = some AlertLevel.low_stock
entry_alert_level Classification.out_of_stock = some AlertLevel.out_of_stock
entry_alert_level healthy = none

abbrev pub alert : Key → ℕ → AlertLevel → Key → Signal
alert item generation level source = record {
  inventory_item_id = item;
  incident_generation = generation;
  alert_level = level;
  source_webhook_event_id = source;
}

-- `replaySignal`: the signal that the same webhook event has raised before.
unfoldable pub replay_signal : Item → Option Key → Option Signal
replay_signal item none = none
replay_signal item (some source) =
    if holds item.low_alert_source_webhook_event_id source
    then some (alert item.id item.incident_generation AlertLevel.low_stock source)
    else if holds item.out_alert_source_webhook_event_id source
    then some (alert item.id item.incident_generation AlertLevel.out_of_stock source)
    else none

-- The columns that a change of the incident writes, as the row after it, and the signal.
pub record Incident : Type 0 where
  pub data_of : Item → Item
  pub signal : Option Signal

-- `data: {}`
abbrev pub unchanged_incident : Option Signal → Incident
unchanged_incident s = record { data_of = λ r. r; signal = s }

-- No alert is open any more.
abbrev pub close : Item → Item
close r = record r {
  low_alert_source_webhook_event_id = none;
  low_alert_recipients_captured_at = none;
  out_alert_source_webhook_event_id = none;
  out_alert_recipients_captured_at = none;
}

abbrev pub signal_source : Option Signal → Option Key
signal_source none = none
signal_source (some s) = some s.source_webhook_event_id

-- Where the source may signal: it is no baseline and has a webhook event.
abbrev pub entry_signal : Key → ℕ → Option AlertLevel → Bool → Option Key → Option Signal
entry_signal item generation (some level) false (some e) = some (alert item generation level e)
entry_signal item generation (some level) false none = none
entry_signal item generation (some level) true e = none
entry_signal item generation none baseline e = none

-- The columns of a new alert of a level.
abbrev pub raise : AlertLevel → ℕ → Option Signal → Item → Item
raise AlertLevel.low_stock generation s r = record r {
  incident_generation = generation;
  low_alert_source_webhook_event_id = signal_source s;
  low_alert_recipients_captured_at = none;
}
raise AlertLevel.out_of_stock generation s r = record r {
  incident_generation = generation;
  out_alert_source_webhook_event_id = signal_source s;
  out_alert_recipients_captured_at = none;
}

-- The alert of a level; it starts an incident where the item was healthy.
unfoldable pub enter : Item → AlertLevel → Source → Bool → Incident
enter i level source true =
    let g = i.incident_generation + 1 in
    let s = entry_signal i.id g (some level) source.baseline source.source_webhook_event_id in
    record { data_of = λ r. raise level g s (close r); signal = s }
enter i level source false =
    let g = i.incident_generation in
    let s = entry_signal i.id g (some level) source.baseline source.source_webhook_event_id in
    record { data_of = raise level g s; signal = s }

abbrev pub replay_unless_baseline : Item → Source → Option Signal
replay_unless_baseline i source =
    if source.baseline then none else replay_signal i source.source_webhook_event_id

-- `nextIncident`, from the classification that the item had to the one that it has now
unfoldable pub next_incident : Item → Source → Classification → Classification → Incident
unfolding enter replay_signal
next_incident i source old healthy = record { data_of = close; signal = none }
next_incident i source Classification.out_of_stock Classification.out_of_stock =
    unchanged_incident (replay_unless_baseline i source)
next_incident i source Classification.out_of_stock Classification.low_stock =
    unchanged_incident none
next_incident i source Classification.low_stock Classification.low_stock =
    unchanged_incident (replay_unless_baseline i source)
next_incident i source Classification.low_stock Classification.out_of_stock =
    enter i AlertLevel.out_of_stock source false
next_incident i source healthy Classification.low_stock = enter i AlertLevel.low_stock source true
next_incident i source healthy Classification.out_of_stock =
    enter i AlertLevel.out_of_stock source true
