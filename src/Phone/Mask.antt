-- ===== src/Phone/Mask.antt =====
-- What a masked number shows.
use ai_calling_agent.Common.{
  ◌<◌, ◌≡◌, leb, length, length-append, length-take, length-drop, length-replicate, take, arith,
  Bool-cases, leb→gt, inl, inr,
}
use ai_calling_agent.Common.Text.{Text}
use ai_calling_agent.Phone.{mask_phone_number, last4}

-- A mask is as long as the number.
pub length-mask_phone_number : (s : Text) → length (mask_phone_number s) ≡ length s
unfolding mask_phone_number last4
length-mask_phone_number s = elim (Bool-cases (leb (length s) 6)) [
  | inl short ↦ rw short (length-replicate (length s) b'*')
  | inr long ↦
      rw (long, length-append, length-append, length-take, length-replicate, length-drop)
        (omega (arith, leb→gt _ _ long))
]

-- A mask keeps the length of the number, and shows at most its first two characters and its last
-- four: numbers that agree in those and in length have one mask, and of at most six characters
-- nothing is shown.
pub mask_phone_number_hides :
    (s t : Text)
    → length s ≡ length t
    → (6 < length s → (take 2 s ≡ take 2 t) × (last4 s ≡ last4 t))
    → (length (mask_phone_number s) ≡ length s) × (mask_phone_number s ≡ mask_phone_number t)
unfolding mask_phone_number
mask_phone_number_hides s t same parts = (
  length-mask_phone_number s,
  elim (Bool-cases (leb (length s) 6)) [
    | inl short ↦ ground arith
    | inr long ↦ ground (arith, parts (leb→gt _ _ long))
  ],
)
