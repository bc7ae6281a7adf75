-- ===== src/Redis/Zset.antt =====
-- A sorted set: the score of each member. The commands are the documented ones of Redis; ties in
-- score, which Redis orders by the bytes of the member, keep the order of insertion here.
pub mod Laws
pub mod Range
pub mod Sizes
use ai_calling_agent.Common.{
  ℕ, suc, ◌+◌, Bool, true, false, not, ◌&&◌, List, [], ◌∷◌, map, Option, none, some, leb, ltb,
  if◌then◌else◌, length, take, keep, is_some,
}

abbrev pub Zset {ℓ} : Type ℓ → Type ℓ
Zset M = List (M × ℕ)

module _ {ℓ} {M : Type ℓ} (dec : Discrete M) where
  abbrev pub same : M → M → Bool
  same a b = elim (dec a b) [ yes _ ↦ true | no _ ↦ false ]

  -- ZSCORE
  unfoldable pub score : M → List (M × ℕ) → Option ℕ
  score m [] = none
  score m ((k, v) ∷ z) = if same k m then some v else score m z

  -- ZADD of one member.
  unfoldable pub add : M → ℕ → List (M × ℕ) → List (M × ℕ)
  add m v [] = (m, v) ∷ []
  add m v ((k, w) ∷ z) = if same k m then (m, v) ∷ z else (k, w) ∷ add m v z

  -- ZADD NX of one member, and how many were added.
  unfoldable pub add_new : M → ℕ → List (M × ℕ) → List (M × ℕ) × ℕ
  add_new m v z = if is_some (score m z) then (z, 0) else (add m v z, 1)

  -- ZREM
  unfoldable pub remove : M → List (M × ℕ) → List (M × ℕ)
  remove m [] = []
  remove m ((k, w) ∷ z) = let rest = remove m z in if same k m then rest else (k, w) ∷ rest

  -- ZADD NX of several members in one call.
  unfoldable pub add_all_new : List (M × ℕ) → List (M × ℕ) → List (M × ℕ) × ℕ
  add_all_new [] z = (z, 0)
  add_all_new ((m, v) ∷ entries) z =
      let (z1, n) = add_new m v z in let (z2, k) = add_all_new entries z1 in (z2, n + k)

module _ {ℓ} {M : Type ℓ} where
  unfoldable pub place_by_score : (M × ℕ) → List (M × ℕ) → List (M × ℕ)
  place_by_score e [] = e ∷ []
  place_by_score e (f ∷ z) = if leb e.1 f.1 then e ∷ f ∷ z else f ∷ place_by_score e z

  unfoldable pub by_score : List (M × ℕ) → List (M × ℕ)
  by_score [] = []
  by_score (e ∷ z) = place_by_score e (by_score z)

  -- ZRANGEBYSCORE -inf max LIMIT 0 limit
  unfoldable pub range_up_to : ℕ → ℕ → List (M × ℕ) → List M
  unfolding by_score place_by_score
  range_up_to most limit z =
      take limit (map (λ (e : M × ℕ). e.0) (by_score (keep (λ (e : M × ℕ). leb e.1 most) z)))

  -- ZREMRANGEBYSCORE -inf max: what is left, and how many went.
  unfoldable pub expire_up_to : ℕ → List (M × ℕ) → List (M × ℕ)
  expire_up_to most z = keep (λ (e : M × ℕ). ltb most e.1) z
