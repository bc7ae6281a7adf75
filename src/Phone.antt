-- ===== src/Phone.antt =====
-- Phone number normalization (backend/app/services/phone.py).
--
-- `phonenumbers` and the NFKC table of `unicodedata` are not code of the repository: they are the
-- record `PhoneLib`, over the library's own type of parsed numbers.
pub mod Normal
pub mod Mask
use ai_calling_agent.Common.{
  ℕ, ◌+◌, ◌-◌, Bool, true, false, not, ◌&&◌, ◌||◌, List, [], ◌∷◌, ◌++◌, map, Option, none, some,
  ltb, leb, ◌==◌, if◌then◌else◌, any, all, length, is_some, take, drop, keep, elem, replicate,
}
use ai_calling_agent.Common.Result.{Result, ok, err, ◌>>=◌}
use ai_calling_agent.Common.Text.{Text, is_space, is_blank, strip, upper, text_eq, text_in}

-- The reason codes.
pub data PhoneError : Type 0 where
  empty invalid_number too_long region_not_allowed : PhoneError

-- NumberParseException: the one kind that is told apart, and the others.
pub data ParseFault : Type 0 where
  number_too_long other_fault : ParseFault

pub record PhoneLib (Number : Type 0) : Type 0 where
  pub nfkc : Text → Text
  pub parse : Text → Option Text → Result ParseFault Number
  pub format_e164 : Number → Text
  pub is_valid_number : Number → Bool
  pub region_code : Number → Option Text

pub record NormalizedPhone : Type 0 where
  pub e164 : Text
  pub region : Text

abbrev pub max_e164_digits : ℕ
max_e164_digits = 15

abbrev pub max_raw_length : ℕ
max_raw_length = 64

unfoldable pub is_digit : ℕ → Bool
is_digit c = leb b'0' c && leb c b'9'

-- The class `[0-9\s().\-]` of `_ALLOWED_CHARS`.
unfoldable pub is_allowed : ℕ → Bool
unfolding is_digit is_space
is_allowed c = is_digit c || is_space c || (c == b'(') || (c == b')') || (c == b'.') || (c == b'-')

-- One character of the class, or more.
unfoldable pub all_allowed : Text → Bool
unfolding is_allowed
all_allowed [] = false
all_allowed (c ∷ s) = all is_allowed (c ∷ s)

-- `_ALLOWED_CHARS.match`: a leading '+', if any, and then the class.
unfoldable pub allowed_chars : Text → Bool
unfolding all_allowed
allowed_chars [] = false
allowed_chars (c ∷ s) = if c == b'+' then all_allowed s else all_allowed (c ∷ s)

-- `"+" in text[1:]`
unfoldable pub plus_later : Text → Bool
plus_later [] = false
plus_later (c ∷ s) = any (λ d. d == b'+') s

-- `{r.upper() for r in allowed_regions}` has the region.
unfoldable pub region_allowed : Text → Option (List Text) → Bool
region_allowed region none = true
region_allowed region (some allowed) = text_in region (map upper allowed)

unfoldable pub fault_code : ParseFault → PhoneError
fault_code number_too_long = too_long
fault_code other_fault = invalid_number

abbrev pub guard : Bool → PhoneError → Result PhoneError (Unit {0})
guard true e = err e
guard false e = ok tt

module _ {Number : Type 0} (lib : PhoneLib Number) where
  unfoldable pub parsed : Text → Text → Result PhoneError Number
  unfolding fault_code
  parsed text default_region = elim (lib.parse text (some default_region)) [
    | ok n ↦ ok n
    | err e ↦ err (fault_code e)
  ]

  unfoldable pub attributed : Number → Result PhoneError Text
  attributed n = elim (lib.region_code n) [ none ↦ err invalid_number | some r ↦ ok r ]

  -- What follows the checks of the raw text.
  unfoldable pub resolve : Text → Text → Option (List Text) → Result PhoneError NormalizedPhone
  unfolding parsed attributed region_allowed
  resolve text default_region allowed_regions = do
    number ← parsed text default_region
    let e164 = lib.format_e164 number
    _ ← guard (ltb max_e164_digits (length e164 - 1)) too_long
    _ ← guard (not (lib.is_valid_number number)) invalid_number
    region ← attributed number
    _ ← guard (not (region_allowed region allowed_regions)) region_not_allowed
    ok (record { e164 = e164; region = region })

  unfoldable pub normalize_text :
      Text → Text → Option (List Text) → Result PhoneError NormalizedPhone
  unfolding allowed_chars plus_later is_digit
  normalize_text raw default_region allowed_regions = do
    _ ← guard (is_blank raw) empty
    _ ← guard (ltb max_raw_length (length (strip raw))) too_long
    let text = lib.nfkc (strip raw)
    _ ← guard (not (allowed_chars text) || plus_later text) invalid_number
    _ ← guard (ltb (max_e164_digits + 2) (length (keep is_digit text))) too_long
    resolve text default_region allowed_regions

  -- `normalize_phone`; `none` is Python's None.
  unfoldable pub normalize_phone :
      Option Text → Text → Option (List Text) → Result PhoneError NormalizedPhone
  normalize_phone none default_region allowed_regions = err empty
  normalize_phone (some raw) default_region allowed_regions =
      normalize_text raw default_region allowed_regions

  unfoldable pub region_of_e164 : Text → Option Text
  region_of_e164 e164 = elim (lib.parse e164 none) [
    | err _ ↦ none
    | ok number ↦ if lib.is_valid_number number then lib.region_code number else none
  ]

  unfoldable pub is_dialable_region : Text → List Text → Bool
  unfolding region_of_e164
  is_dialable_region e164 allowed_regions = elim (region_of_e164 e164) [
    | none ↦ false
    | some region ↦ text_in region (map upper allowed_regions)
  ]

  -- `canonical_number` of backend/app/repositories/suppression_repository.py: the key under which
  -- a number is suppressed and looked up.
  unfoldable pub canonical_number : Text → Text → Text
  canonical_number default_region number =
      elim (normalize_phone (some number) default_region none) [ ok n ↦ n.e164 | err _ ↦ number ]

-- `e164[-4:]`
unfoldable pub last4 : Text → Text
last4 e164 = drop (length e164 - 4) e164

-- The admin dashboard's masked number.
unfoldable pub mask_phone_number : Text → Text
unfolding last4
mask_phone_number normalized =
    if leb (length normalized) 6
    then replicate (length normalized) b'*'
    else take 2 normalized ++ replicate (length normalized - 2 - 4) b'*' ++ last4 normalized
