-- ===== src/Notifications/Client.antt =====
-- `TelegramDeliveryClient`: what an answer of the bot, or none, says of the message. The request
-- itself is a parameter: it gives no answer where it throws or is cut off.
use wctm.Prelude.{
  ℕ, Text, codes, text_eq, Bool, false, ◌&&◌, ◌||◌, Option, none, some, [], ◌∷◌, ◌==◌, leb, length,
  every, if◌then◌else◌,
}

-- `TelegramDeliveryResult`
pub data SendResult : Type 0 where
  delivered : Text → SendResult
  retryable_failure terminal_failure ambiguous : (category code : Text) → SendResult

-- The body, if it is a JSON object: its fields that are texts.
pub record Body : Type 0 where
  pub outcome : Option Text
  pub message_id : Option Text
  pub category : Option Text
  pub code : Option Text

pub record Answer : Type 0 where
  pub status : ℕ
  pub body : Option Body

abbrev pub is_digit : ℕ → Bool
is_digit c = leb b'0' c && leb c b'9'

-- `/^[1-9]\d{0,18}$/`
abbrev pub is_message_id : Text → Bool
is_message_id [] = false
is_message_id (c ∷ s) = leb b'1' c && leb c b'9' && every is_digit s && leb (length s) 18

abbrev pub is_lower_dash : ℕ → Bool
is_lower_dash c = (leb b'a' c && leb c b'z') || c == b'-'

-- `/^[a-z-]{1,32}$/`
abbrev pub is_category : Text → Bool
is_category t = leb 1 (length t) && leb (length t) 32 && every is_lower_dash t

-- `/^[a-z0-9-]{1,191}$/`
abbrev pub is_code : Text → Bool
is_code t = leb 1 (length t) && leb (length t) 191 && every (λ c. is_lower_dash c || is_digit c) t

-- `ambiguousResult`
abbrev pub ambiguous_result : SendResult
ambiguous_result = ambiguous (codes "transport") (codes "bot-outcome-unknown")

abbrev pub is_outcome : Option Text → Text → Bool
is_outcome none t = false
is_outcome (some o) t = text_eq o t

-- The three outcomes that carry a category and a code.
abbrev pub failure_result : Option Text → Text → Text → SendResult
failure_result outcome category code =
    if is_category category && is_code code
    then if is_outcome outcome (codes "retryable_failure")
      then retryable_failure category code
      else if is_outcome outcome (codes "terminal_failure")
      then terminal_failure category code
      else if is_outcome outcome (codes "ambiguous")
      then ambiguous category code
      else ambiguous_result
    else ambiguous_result

abbrev pub parse_failure : Option Text → Option Text → Option Text → SendResult
parse_failure outcome (some category) (some code) = failure_result outcome category code
parse_failure outcome none code = ambiguous_result
parse_failure outcome (some category) none = ambiguous_result

abbrev pub parse_body : Option Text → Option Text → Option Text → Option Text → SendResult
parse_body outcome none category code = parse_failure outcome category code
parse_body outcome (some id) category code =
    if is_outcome outcome (codes "delivered") && is_message_id id
    then delivered id
    else parse_failure outcome category code

-- `parseDeliveryResult`
unfoldable pub parse_delivery_result : Option Body → SendResult
parse_delivery_result none = ambiguous_result
parse_delivery_result (some b) = parse_body b.outcome b.message_id b.category b.code

-- `send`, on the answer
unfoldable pub send_result : Option Answer → SendResult
unfolding parse_delivery_result
send_result none = ambiguous_result
send_result (some a) =
    if a.status == 401 || a.status == 403
    then terminal_failure (codes "authentication") (codes "bot-authentication-failed")
    else if a.status == 400
    then terminal_failure (codes "request") (codes "bot-request-rejected")
    else if leb 200 a.status && leb a.status 299
    then parse_delivery_result a.body
    else ambiguous_result
