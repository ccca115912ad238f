-- ===== src/Notifications/Recipients.antt =====
-- Who a notification is for, as both schedulers choose it from the settings of a Store.
use wctm.Prelude.{ℕ, Key, Bool, false, ◌||◌, Option, none, some, List, [], ◌∷◌, ◌==◌, if◌then◌else◌}

-- `TelegramOrderNotificationRecipient`, with its membership
pub record Candidate : Type 0 where
  pub membership_id : Option Key
  pub telegram_account_id : Key
  pub telegram_chat_authorization_id : Key

-- What of a Store's row the schedulers read. Of the categories of notifications that are enabled,
-- only the scheduler's own counts.
pub record Settings : Type 0 where
  pub category_enabled : Bool
  pub all_eligible : Bool
  pub policy_version : ℕ
  pub selected_membership_ids : List Key

abbrev pub has_membership : Key → List Key → Bool
has_membership m [] = false
has_membership m (x ∷ xs) = x == m || has_membership m xs

abbrev pub is_selected : List Key → Candidate → Bool
is_selected selected c = chosen c.membership_id
  where
    chosen : Option Key → Bool
    chosen none = false
    chosen (some m) = has_membership m selected

unfoldable pub selected_of : List Key → List Candidate → List Candidate
selected_of selected [] = []
selected_of selected (c ∷ cs) =
    let rest = selected_of selected cs in if is_selected selected c then c ∷ rest else rest

unfoldable pub recipients_of : Settings → List Candidate → List Candidate
unfolding selected_of
recipients_of s eligible =
    if s.all_eligible then eligible else selected_of s.selected_membership_ids eligible
