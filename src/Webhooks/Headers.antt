-- ===== src/Webhooks/Headers.antt =====
-- The headers that `WooCommerceWebhookIngestionService` asks of a delivery.
use wctm.Prelude.{
  ℕ, Text, Bool, not, ◌&&◌, ◌||◌, Option, none, some, List, [], ◌∷◌, ◌++◌, ◌==◌, leb, codes, length,
  take, text_eq, every, if◌then◌else◌, Result, ok, err,
}

pub data Error : Type 0 where
  endpoint_not_found invalid_signature malformed_request unavailable : Error

-- A header's value: absent, one text, or several.
pub data HeaderValue : Type 0 where
  absent : HeaderValue
  single : Text → HeaderValue
  several : List Text → HeaderValue

abbrev pub Headers : Type 0
Headers = Text → HeaderValue

pub record RequiredHeaders : Type 0 where
  pub signature : Text
  pub webhook_id : Text
  pub delivery_id : Text
  pub topic : Text

-- `singleHeader`
abbrev pub single_header : HeaderValue → Option Text
single_header absent = none
single_header (single t) = some t
single_header (several ts) = none

-- `/^[\x21-\x7e]+$/` on a text that is not empty
abbrev pub is_header_char : ℕ → Bool
is_header_char c = leb 0x21 c && leb c 0x7e

abbrev pub is_identity : Text → Bool
is_identity t = not (text_eq t []) && leb (length t) 191 && every is_header_char t

abbrev pub check_identity : Option Text → Result Error Text
check_identity none = err malformed_request
check_identity (some t) = if is_identity t then ok t else err malformed_request

-- `requireIdentityHeader`
unfoldable pub require_identity_header : Headers → Text → Result Error Text
require_identity_header headers name = check_identity (single_header (headers name))

abbrev pub is_base64_char : ℕ → Bool
is_base64_char c =
    (leb b'A' c && leb c b'Z')
    || (leb b'a' c && leb c b'z')
    || (leb b'0' c && leb c b'9')
    || c == b'+'
    || c == b'/'

-- `/^[A-Za-z0-9+/]{43}=$/`
abbrev pub is_signature : Text → Bool
is_signature t =
    length t == 44 && every is_base64_char (take 43 t) && text_eq t (take 43 t ++ b'=' ∷ [])

unfoldable pub check_signature : (Text → Text) → Option Text → Result Error Text
check_signature from_base64 none = err invalid_signature
check_signature from_base64 (some t) =
    if is_signature t && length (from_base64 t) == 32
    then ok (from_base64 t)
    else err invalid_signature

abbrev pub signature_header : Text
signature_header = codes "x-wc-webhook-signature"

abbrev pub webhook_id_header : Text
webhook_id_header = codes "x-wc-webhook-id"

abbrev pub delivery_id_header : Text
delivery_id_header = codes "x-wc-webhook-delivery-id"

abbrev pub topic_header : Text
topic_header = codes "x-wc-webhook-topic"

abbrev pub bind : {A B : Type 0} → Result Error A → (A → Result Error B) → Result Error B
bind (ok a) f = f a
bind (err e) f = err e

-- `requireHeaders`
unfoldable pub require_headers : (Text → Text) → Headers → Result Error RequiredHeaders
require_headers from_base64 headers =
    bind (check_signature from_base64 (single_header (headers signature_header))) λ signature.
      bind (require_identity_header headers webhook_id_header) λ webhook_id.
        bind (require_identity_header headers delivery_id_header) λ delivery_id.
          bind (require_identity_header headers topic_header) λ topic. ok (record {
            signature = signature;
            webhook_id = webhook_id;
            delivery_id = delivery_id;
            topic = topic;
          })
