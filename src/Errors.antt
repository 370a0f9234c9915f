-- ===== src/Errors.antt =====
-- src/error/api_call_error.cpp and ai_error.cpp with their headers: the errors that the SDK throws,
-- as far as a handler can tell them apart, and the delay that a server asks for.
mod Tests
use ai_sdk_cpp.Prelude.{
  ℕ, zero, suc, ◌+◌, ◌-◌, ◌*◌, ◌≤◌, Bool, true, false, ◌&&◌, List, [], ◌∷◌, ◌++◌, Option, none,
  some, Bytes, codes, leb, ltb, str_eq, ◌==◌, ℤ, pos, negsuc, if◌then◌else◌,
}

-- `unordered_map<string, string>`; a key stands in it at most once, and is found as it is spelled.
abbrev pub Headers : Type 0
Headers = List (Bytes × Bytes)

unfoldable pub find_header : Bytes → Headers → Option Bytes
find_header k [] = none
find_header k ((j, v) ∷ hs) = if str_eq j k then some v else find_header k hs

pub record ApiCallError : Type 0 where
  pub message : Bytes
  pub url : Bytes
  pub status_code : ℕ
  pub response_body : Bytes
  pub response_headers : Headers
  pub retryable : Bool

-- What is thrown. A `foreign` exception is none of `std::exception`.
pub data Exception : Type 0 where
  api_call : ApiCallError → Exception
  stream : Bytes → Exception
  other : Bytes → Exception
  foreign : Exception

module _ (status : ℕ) (retryable : Bool) (message url response_body : Bytes)
    (response_headers : Headers) where
  -- The constructors of the derived classes fix the status and whether a retry can help.
  abbrev pub api_call_error : ApiCallError
  api_call_error = record {
    message = message;
    url = url;
    status_code = status;
    response_body = response_body;
    response_headers = response_headers;
    retryable = retryable;
  }

abbrev pub rate_limit_error : Bytes → Bytes → Bytes → Headers → ApiCallError
rate_limit_error = api_call_error 429 true

abbrev pub authentication_error : Bytes → Bytes → Bytes → Headers → ApiCallError
authentication_error = api_call_error 401 false

abbrev pub permission_denied_error : Bytes → Bytes → Bytes → Headers → ApiCallError
permission_denied_error = api_call_error 403 false

abbrev pub not_found_error : Bytes → Bytes → Bytes → Headers → ApiCallError
not_found_error = api_call_error 404 false

abbrev pub bad_request_error : Bytes → Bytes → Bytes → Headers → ApiCallError
bad_request_error = api_call_error 400 false

abbrev pub content_filter_error : Bytes → Bytes → Bytes → Headers → ApiCallError
content_filter_error = api_call_error 451 false

abbrev pub service_unavailable_error : Bytes → Bytes → Bytes → Headers → ApiCallError
service_unavailable_error = api_call_error 503 true

abbrev is_digit : ℕ → Bool
is_digit c = leb b'0' c && leb c b'9'

-- The longest run of digits, as a number; `none` if there is none.
unfoldable pub digits_from : Option ℕ → Bytes → Option ℕ
digits_from n [] = n
digits_from none (c ∷ s) =
    let rest = digits_from (some (c - b'0')) s in if is_digit c then rest else none
digits_from (some n) (c ∷ s) =
    let rest = digits_from (some (n * 10 + (c - b'0'))) s in if is_digit c then rest else some n

abbrev pub int_max : ℕ
int_max = 2147483647

abbrev pub positive : Option ℕ → Option ℤ
positive none = none
positive (some n) = if leb n int_max then some (pos n) else none

abbrev pub negative : Option ℕ → Option ℤ
negative none = none
negative (some zero) = some (pos 0)
negative (some (suc n)) = if leb n int_max then some (negsuc n) else none

-- `std::from_chars` into an `int`, base ten: an optional minus, digits, and a rest that is not read.
unfoldable pub from_chars : Bytes → Option ℤ
unfolding digits_from
from_chars [] = none
from_chars (c ∷ s) =
    if c == b'-' then negative (digits_from none s) else positive (digits_from none (c ∷ s))

-- The value of the header, under one of two spellings.
unfoldable pub retry_after_header : Headers → Option Bytes
unfolding find_header
retry_after_header hs = elim (find_header (codes "retry-after") hs) [
  | some v ↦ some v
  | none ↦ find_header (codes "Retry-After") hs
]

-- In seconds.
unfoldable pub retry_after : ApiCallError → Option ℤ
unfolding retry_after_header from_chars
retry_after e = elim (retry_after_header e.response_headers) [ none ↦ none | some v ↦ from_chars v ]
