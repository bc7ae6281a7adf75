-- ===== src/Phone/Normal.antt =====
-- What an accepted phone number is, and that normalizing it again changes nothing.
use ai_calling_agent.Common.{
  ℕ, ◌≤◌, ◌<◌, Bool, true, false, not, ◌&&◌, List, [], ◌∷◌, ◌++◌, Option, none, some, ◌≡◌, refl,
  sym, ap, ◌∙◌, ◌==◌, all, any, length, length-keep, arith, inl, inr,
}
use mathlib.Core.List.{reverse, reverse-cons, reverse-reverse}
use ai_calling_agent.Common.Result.{ok, err, Result-cases}
use ai_calling_agent.Common.Text.{Text, is_space, is_blank, strip_left, strip}
use ai_calling_agent.Phone.{
  PhoneLib, PhoneError, NormalizedPhone, is_digit, is_allowed, allowed_chars, plus_later,
  region_allowed, parsed, attributed, resolve, normalize_text, normalize_phone, region_of_e164,
  is_dialable_region, canonical_number,
}

module _ {Number : Type 0} (lib : PhoneLib Number) where
  -- What an accepted number rests on.
  pub record IsAccepted (default_region : Text) (allowed : Option (List Text)) (n : NormalizedPhone)
      : Type 0 where
    pub number : Number
    pub valid : lib.is_valid_number number ≡ true
    pub formatted : lib.format_e164 number ≡ n.e164
    pub belongs : lib.region_code number ≡ some n.region
    pub short : length n.e164 ≤ 16
    pub permitted : region_allowed n.region allowed ≡ true

  resolve-IsAccepted :
      (text default_region : Text) (allowed : Option (List Text)) (n : NormalizedPhone)
      → resolve lib text default_region allowed ≡ ok n
      → IsAccepted default_region allowed n
  unfolding resolve
  resolve-IsAccepted text default_region allowed n h =
      elim (Result-cases (lib.parse text (some default_region))) [
        | inr (e, failed) ↦ cc (rw (failed, resolve, parsed) at h)
        | inl (number, parsed_ok) ↦ record {
          number = number;
          valid = ground arith;
          formatted = ground arith;
          belongs = ground arith;
          short = ground arith;
          permitted = ground arith;
        }
      ]

  -- An accepted number is a valid one in its E.164 form, of fifteen digits at most, of a region
  -- that is known and allowed.
  pub normalize_phone-IsAccepted :
      (raw : Option Text) (default_region : Text) (allowed : Option (List Text))
      (n : NormalizedPhone)
      → normalize_phone lib raw default_region allowed ≡ ok n
      → IsAccepted default_region allowed n
  unfolding normalize_phone normalize_text
  normalize_phone-IsAccepted none default_region allowed n h = cc
  normalize_phone-IsAccepted (some raw) default_region allowed n h =
      resolve-IsAccepted (lib.nfkc (strip raw)) default_region allowed n (ground arith)

-- What the program relies on in the E.164 form that `phonenumbers` prints: a '+' and digits, which
-- NFKC leaves alone, and which parses back to the number, whatever the default region.
pub record PhoneLaws {Number : Type 0} (lib : PhoneLib Number) : Type 0 where
  pub digits : Number → Text
  pub printed : (n : Number) → lib.format_e164 n ≡ b'+' ∷ digits n
  pub all_digits : (n : Number) → all is_digit (digits n) ≡ true
  pub some_digit : (n : Number) → 0 < length (digits n)
  pub ascii_nfkc : (s : Text) → all is_digit s ≡ true → lib.nfkc (b'+' ∷ s) ≡ b'+' ∷ s
  pub reparse :
      (n : Number) (region : Option Text)
      → lib.is_valid_number n ≡ true
      → lib.parse (lib.format_e164 n) region ≡ ok n

-- Text without spaces is its own strip.
digit-not_space : (c : ℕ) → is_digit c ≡ true → is_space c ≡ false
unfolding is_digit is_space
digit-not_space c h = ground arith

spaceless : Text → Bool
spaceless s = all (λ c. not (is_space c)) s

strip_left-spaceless : (s : Text) → spaceless s ≡ true → strip_left s ≡ s
unfolding strip_left spaceless
strip_left-spaceless [] h = refl
strip_left-spaceless (c ∷ s) h = ground arith

spaceless-append : (s t : Text) → spaceless (s ++ t) ≡ (spaceless s && spaceless t)
unfolding spaceless
spaceless-append [] t = refl
spaceless-append (c ∷ s) t = ground (arith, spaceless-append s t)

spaceless-reverse : (s : Text) → spaceless (reverse s) ≡ spaceless s
spaceless-reverse [] = refl
spaceless-reverse (c ∷ s) =
    rw (reverse-cons c s, spaceless-append (reverse s) (c ∷ []), spaceless-reverse s)
      (unfold spaceless in ground arith)

strip-spaceless : (s : Text) → spaceless s ≡ true → strip s ≡ s
unfolding strip
strip-spaceless s h =
    rw (strip_left-spaceless s h, strip_left-spaceless (reverse s) (spaceless-reverse s ∙ h))
      (reverse-reverse s)

spaceless_digits : (s : Text) → all is_digit s ≡ true → spaceless s ≡ true
unfolding spaceless
spaceless_digits [] h = refl
spaceless_digits (c ∷ s) h = ground (arith, digit-not_space c, spaceless_digits s)

digit-is_allowed : (c : ℕ) → is_digit c ≡ true → is_allowed c ≡ true
unfolding is_allowed
digit-is_allowed c h = rw h

allowed_digits : (s : Text) → all is_digit s ≡ true → all is_allowed s ≡ true
allowed_digits [] h = refl
allowed_digits (c ∷ s) h = ground (arith, digit-is_allowed c, allowed_digits s)

no_plus_digits : (s : Text) → all is_digit s ≡ true → any (λ d. d == b'+') s ≡ false
unfolding is_digit
no_plus_digits [] h = refl
no_plus_digits (c ∷ s) h = ground (arith, no_plus_digits s)

module _ {Number : Type 0} (lib : PhoneLib Number) (laws : PhoneLaws lib) where
  -- A number stored under a list of allowed regions passes the dial-time check of the same list.
  pub is_dialable_region-normalize_phone :
      (raw : Option Text) (default_region : Text) (allowed : List Text) (n : NormalizedPhone)
      → normalize_phone lib raw default_region (some allowed) ≡ ok n
      → is_dialable_region lib n.e164 allowed ≡ true
  unfolding is_dialable_region region_of_e164 region_allowed
  is_dialable_region-normalize_phone raw default_region allowed n h =
      let a = normalize_phone-IsAccepted lib raw default_region (some allowed) n h in
      ground (arith, laws.reparse a.number none a.valid)

  -- The printed form of a valid number of one region, short enough, is accepted as it is.
  normalize_text-printed :
      (ds default_region region : Text) (number : Number)
      → lib.format_e164 number ≡ b'+' ∷ ds
      → all is_digit ds ≡ true
      → 0 < length ds
      → length ds ≤ 15
      → lib.is_valid_number number ≡ true
      → lib.region_code number ≡ some region
      → normalize_text lib (b'+' ∷ ds) default_region none
        ≡ ok (record { e164 = b'+' ∷ ds; region = region })
  unfolding normalize_text resolve parsed attributed region_allowed is_blank allowed_chars
      plus_later
  normalize_text-printed [] default_region region number f d some_d short v r = absurd (omega arith)
  normalize_text-printed (c ∷ ds) default_region region number f d some_d short v r =
      rw
        (
          strip-spaceless (b'+' ∷ c ∷ ds)
              (unfold spaceless is_space in spaceless_digits (c ∷ ds) d),
          laws.ascii_nfkc (c ∷ ds) d,
        )
        (ground (
          arith,
          digit-not_space c,
          allowed_digits (c ∷ ds) d,
          no_plus_digits (c ∷ ds) d,
          laws.reparse number (some default_region) v,
          length-keep is_digit (b'+' ∷ c ∷ ds),
        ))

  normalize_phone-normalized :
      (raw default_region : Text) (n : NormalizedPhone)
      → normalize_phone lib (some raw) default_region none ≡ ok n
      → normalize_phone lib (some n.e164) default_region none ≡ ok n
  unfolding normalize_phone
  normalize_phone-normalized raw default_region n h =
      let a = normalize_phone-IsAccepted lib (some raw) default_region none n h in
      let f = laws.printed a.number in
      let same : n.e164 ≡ b'+' ∷ laws.digits a.number = sym a.formatted ∙ f in
      let fits : length (b'+' ∷ laws.digits a.number) ≤ 16 = rw same at a.short in
      rw same (
        normalize_text-printed (laws.digits a.number) default_region n.region a.number f
          (laws.all_digits a.number) (laws.some_digit a.number) (omega arith) a.valid a.belongs)

  canonical_number_accepted :
      (default_region number : Text) (n : NormalizedPhone)
      → normalize_phone lib (some number) default_region none ≡ ok n
      → canonical_number lib default_region number ≡ n.e164
  unfolding canonical_number
  canonical_number_accepted default_region number n h = ground arith

  canonical_number_refused :
      (default_region number : Text) (e : PhoneError)
      → normalize_phone lib (some number) default_region none ≡ err e
      → canonical_number lib default_region number ≡ number
  unfolding canonical_number
  canonical_number_refused default_region number e h = ground arith

  -- The key of a key is the key.
  canonical_number_twice :
      (default_region number : Text)
      → canonical_number lib default_region (canonical_number lib default_region number)
        ≡ canonical_number lib default_region number
  canonical_number_twice default_region number =
      elim (Result-cases (normalize_phone lib (some number) default_region none)) [
        | inl (n, accepted) ↦ rw (canonical_number_accepted default_region number n accepted) (
            canonical_number_accepted default_region n.e164 n
              (normalize_phone-normalized number default_region n accepted))
        | inr (e, refused) ↦
            ap (canonical_number lib default_region)
              (canonical_number_refused default_region number e refused)
      ]

  -- An accepted text has the E.164 form of the number that it parses to for its key.
  canonical_number_parsed :
      (default_region text : Text) (number : Number) (n : NormalizedPhone)
      → normalize_phone lib (some text) default_region none ≡ ok n
      → lib.parse (lib.nfkc (strip text)) (some default_region) ≡ ok number
      → canonical_number lib default_region text ≡ lib.format_e164 number
  unfolding normalize_phone normalize_text resolve
  canonical_number_parsed default_region text number n accepted parses =
      canonical_number_accepted default_region text n accepted ∙ ground arith

  -- Of two accepted spellings of one number, by the phone library's reading of them, the key is the
  -- same, and it is the number's E.164 form; and the key of a key is the key, whether the text is
  -- accepted or not. So a number is suppressed, and looked up, under one spelling.
  pub canonical_number-canonical_number :
      (default_region text other : Text) (number : Number) (n m : NormalizedPhone)
      → normalize_phone lib (some text) default_region none ≡ ok n
      → normalize_phone lib (some other) default_region none ≡ ok m
      → lib.parse (lib.nfkc (strip text)) (some default_region) ≡ ok number
      → lib.parse (lib.nfkc (strip other)) (some default_region) ≡ ok number
      → (canonical_number lib default_region text ≡ lib.format_e164 number)
        × (canonical_number lib default_region other ≡ canonical_number lib default_region text)
        × ((any_text : Text)
            → canonical_number lib default_region (canonical_number lib default_region any_text)
              ≡ canonical_number lib default_region any_text)
  canonical_number-canonical_number default_region text other number n m accepted accepted' parses
        parses' =
      let form = canonical_number_parsed default_region text number n accepted parses in
      let form' = canonical_number_parsed default_region other number m accepted' parses' in
      (form, form' ∙ sym form, canonical_number_twice default_region)
