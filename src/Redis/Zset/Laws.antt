-- ===== src/Redis/Zset/Laws.antt =====
-- The laws of sorted sets, by the score of each member.
use ai_calling_agent.Common.{
  ℕ, true, false, List, [], ◌∷◌, none, some, ◌≡◌, ◌↔◌, refl, if◌then◌else◌, is_some, arith,
}
use ai_calling_agent.Redis.Zset.{same, score, add, add_new, remove}

module _ {ℓ} {M : Type ℓ} (dec : Discrete M) where
  pub same_iff : (a b : M) → (same dec a b ≡ true) ↔ (a ≡ b)
  same_iff a b =
      elim (dec a b) as (λ d. (elim d [ yes _ ↦ true | no _ ↦ false ] ≡ true) ↔ (a ≡ b)) [
        | yes p ↦ (λ _. p, λ _. refl)
        | no np ↦ (λ h. cc, λ p. absurd (np p))
      ]

  pub same_refl : (a : M) → same dec a a ≡ true
  same_refl a = (same_iff a a).1 refl

  pub score-add :
      (k j : M) (v : ℕ) (z : List (M × ℕ))
      → score dec j (add dec k v z) ≡ (if same dec k j then some v else score dec j z)
  unfolding score add
  score-add k j v [] = refl
  score-add k j v ((i, w) ∷ z) =
      ground (arith, same_iff k j, same_iff i k, same_iff i j, score-add k j v z)

  pub score-remove :
      (k j : M) (z : List (M × ℕ))
      → score dec j (remove dec k z) ≡ (if same dec k j then none else score dec j z)
  unfolding score remove
  score-remove k j [] = ground arith
  score-remove k j ((i, w) ∷ z) =
      ground (arith, same_iff k j, same_iff i k, same_iff i j, score-remove k j z)

  -- A member that is there keeps its score.
  pub score-add_new :
      (k j : M) (v : ℕ) (z : List (M × ℕ))
      → score dec j (add_new dec k v z).0 ≡ (
          if is_some (score dec j z)
          then score dec j z
          else (if same dec k j then some v else none))
  unfolding add_new
  score-add_new k j v z = ground (arith, score-add k j v z, same_iff k j)
