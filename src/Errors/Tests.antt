-- ===== src/Errors/Tests.antt =====
-- Runs of the header's parser.
use ai_sdk_cpp.Prelude.{◌≡◌, refl, [], ◌∷◌, none, some, codes, pos, negsuc, str_eq}
use ai_sdk_cpp.Errors.{from_chars, retry_after, rate_limit_error}

seconds : from_chars (codes "120 s") ≡ some (pos 120)
unfolding from_chars
seconds = refl

negative_seconds : from_chars (codes "-3") ≡ some (negsuc 2)
unfolding from_chars
negative_seconds = refl

-- A date is no number, and neither is a number that no `int` holds.
a_date : from_chars (codes "Wed, 21 Oct 2026") ≡ none
unfolding from_chars
a_date = refl

too_large : from_chars (codes "2147483648") ≡ none
unfolding from_chars
too_large = refl

other_spelling :
    retry_after (rate_limit_error [] [] [] ((codes "Retry-After", codes "7") ∷ [])) ≡ some (pos 7)
unfolding retry_after str_eq
other_spelling = refl
