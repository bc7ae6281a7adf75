-- ===== src/Examples/Phones.antt =====
-- A small phone book in place of the phone library: a number of India, one of the United States.
use ai_calling_agent.Common.{
  ◌<◌, ◌≡◌, refl, true, [], ◌∷◌, all, length, take, Option, none, some, ◌||◌, if◌then◌else◌, arith,
}
use ai_calling_agent.Common.Result.{Result, ok, err}
use ai_calling_agent.Common.Text.{Text, codes, text_eq, is_space, is_blank, strip, strip_left}
use ai_calling_agent.Phone.{
  normalize_text, resolve, parsed, attributed, allowed_chars, all_allowed, plus_later, is_allowed,
  region_allowed, ParseFault, other_fault, PhoneLib, is_digit, normalize_phone, is_dialable_region,
  canonical_number, NormalizedPhone, last4, mask_phone_number,
}
use ai_calling_agent.Phone.Normal.{
  PhoneLaws, is_dialable_region-normalize_phone, canonical_number-canonical_number,
}
use ai_calling_agent.Phone.Mask.{mask_phone_number_hides}

pub data Sample : Type 0 where
  indian american : Sample

abbrev digits_of : Sample → Text
digits_of indian = codes "919876543210"
digits_of american = codes "12025550123"

abbrev region_name : Sample → Text
region_name indian = codes "IN"
region_name american = codes "US"

-- Both numbers in international form, and the Indian one also as it is dialed in the country.
abbrev parse_sample : Text → Option Text → Result ParseFault Sample
parse_sample text region =
    if text_eq text (codes "+919876543210") || text_eq text (codes "98765 43210")
    then ok indian
    else if text_eq text (codes "+12025550123")
    then ok american
    else err other_fault

abbrev pub phone_book : PhoneLib Sample
phone_book = record {
  nfkc = λ s. s;
  parse = parse_sample;
  format_e164 = λ n. b'+' ∷ digits_of n;
  is_valid_number = λ _. true;
  region_code = λ n. some (region_name n);
}

digits_of-all : (n : Sample) → all is_digit (digits_of n) ≡ true
unfolding is_digit
digits_of-all indian = refl
digits_of-all american = refl

digits_of-some : (n : Sample) → 0 < length (digits_of n)
digits_of-some indian = omega arith
digits_of-some american = omega arith

reparse_sample :
    (n : Sample) (region : Option Text)
    → true ≡ true
    → phone_book.parse (phone_book.format_e164 n) region ≡ ok n
reparse_sample indian region _ = refl
reparse_sample american region _ = refl

pub phone_book-PhoneLaws : PhoneLaws phone_book
phone_book-PhoneLaws = record {
  digits = digits_of;
  printed = λ n. refl;
  all_digits = digits_of-all;
  some_digit = digits_of-some;
  ascii_nfkc = λ s h. refl;
  reparse = reparse_sample;
}

abbrev pub indian_e164 : Text
indian_e164 = codes "+919876543210"

indian_accepted :
    normalize_phone phone_book (some (codes " 98765 43210 ")) (codes "IN") (some (codes "in" ∷ []))
    ≡ ok (record { e164 = indian_e164; region = codes "IN" })
unfolding normalize_phone normalize_text resolve parsed attributed allowed_chars all_allowed
    plus_later is_allowed is_digit region_allowed is_space is_blank strip strip_left
indian_accepted = refl

is_dialable_region-normalize_phone_example :
    is_dialable_region phone_book indian_e164 (codes "in" ∷ []) ≡ true
is_dialable_region-normalize_phone_example =
    is_dialable_region-normalize_phone phone_book phone_book-PhoneLaws
      (some (codes " 98765 43210 ")) (codes "IN") (codes "in" ∷ [])
      (record { e164 = indian_e164; region = codes "IN" }) indian_accepted

abbrev one_phone : NormalizedPhone
one_phone = record { e164 = indian_e164; region = codes "IN" }

spaced_accepted :
    normalize_phone phone_book (some (codes " 98765 43210 ")) (codes "IN") none ≡ ok one_phone
unfolding normalize_phone normalize_text resolve parsed attributed allowed_chars all_allowed
    plus_later is_allowed is_digit region_allowed is_space is_blank strip strip_left
spaced_accepted = refl

printed_accepted : normalize_phone phone_book (some indian_e164) (codes "IN") none ≡ ok one_phone
unfolding normalize_phone normalize_text resolve parsed attributed allowed_chars all_allowed
    plus_later is_allowed is_digit region_allowed is_space is_blank strip strip_left
printed_accepted = refl

spaced_parses :
    phone_book.parse (phone_book.nfkc (strip (codes " 98765 43210 "))) (some (codes "IN"))
    ≡ ok indian
unfolding strip strip_left is_space
spaced_parses = refl

printed_parses :
    phone_book.parse (phone_book.nfkc (strip indian_e164)) (some (codes "IN")) ≡ ok indian
unfolding strip strip_left is_space
printed_parses = refl

canonical_number-canonical_number_example :
    (canonical_number phone_book (codes "IN") (codes " 98765 43210 ") ≡ indian_e164)
    × (canonical_number phone_book (codes "IN") indian_e164
        ≡ canonical_number phone_book (codes "IN") (codes " 98765 43210 "))
    × ((any_text : Text)
        → canonical_number phone_book
            (codes "IN")
            (canonical_number phone_book (codes "IN") any_text)
          ≡ canonical_number phone_book (codes "IN") any_text)
canonical_number-canonical_number_example =
    canonical_number-canonical_number phone_book phone_book-PhoneLaws (codes "IN")
      (codes " 98765 43210 ") indian_e164 indian one_phone one_phone spaced_accepted
      printed_accepted spaced_parses printed_parses

same_ends :
    6 < length (codes "+919876543210")
    → (take 2 (codes "+919876543210") ≡ take 2 (codes "+911111113210"))
      × (last4 (codes "+919876543210") ≡ last4 (codes "+911111113210"))
unfolding last4
same_ends _ = (refl, refl)

-- Two numbers with other digits only where the mask is.
mask_phone_number_hides_example :
    (length (mask_phone_number (codes "+919876543210")) ≡ length (codes "+919876543210"))
    × (mask_phone_number (codes "+919876543210") ≡ mask_phone_number (codes "+911111113210"))
mask_phone_number_hides_example =
    mask_phone_number_hides (codes "+919876543210") (codes "+911111113210") refl same_ends
