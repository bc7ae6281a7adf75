-- ===== src/Redis/Zset/Sizes.antt =====
-- How the commands change the number of members.
use ai_calling_agent.Common.{ℕ, suc, ◌≤◌, true, List, [], ◌∷◌, ◌≡◌, length, is_some, arith}
use ai_calling_agent.Redis.Zset.{score, add, remove, expire_up_to}

module _ {ℓ} {M : Type ℓ} (dec : Discrete M) where
  pub length-add : (m : M) (v : ℕ) (z : List (M × ℕ)) → length (add dec m v z) ≤ suc (length z)
  unfolding add
  length-add m v [] = omega arith
  length-add m v ((k, w) ∷ z) = ground (arith, length-add m v z)

  -- The score of a member that is there is overwritten in its place.
  pub length-add_known :
      (m : M) (v : ℕ) (z : List (M × ℕ))
      → is_some (score dec m z) ≡ true
      → length (add dec m v z) ≡ length z
  unfolding add score
  length-add_known m v [] h = cc
  length-add_known m v ((k, w) ∷ z) h = ground (arith, length-add_known m v z)

  pub length-remove : (m : M) (z : List (M × ℕ)) → length (remove dec m z) ≤ length z
  unfolding remove
  length-remove m [] = omega arith
  length-remove m ((k, w) ∷ z) = ground (arith, length-remove m z)

module _ {ℓ} {M : Type ℓ} where
  pub length-expire_up_to : (most : ℕ) (z : List (M × ℕ)) → length (expire_up_to most z) ≤ length z
  unfolding expire_up_to
  length-expire_up_to most [] = omega arith
  length-expire_up_to most ((k, w) ∷ z) = ground (arith, length-expire_up_to most z)
