-- ===== src/Redis/Zset/Range.antt =====
-- What ZRANGEBYSCORE hands out.
use ai_calling_agent.Common.{
  ℕ, zero, suc, ◌≤◌, List, [], ◌∷◌, map, ◌≡◌, ◌⊎◌, inl, inr, Bool-cases, In, leb, keep, take,
  leb→le,
}
use ai_calling_agent.Redis.Zset.{range_up_to, by_score, place_by_score}

module _ {M : Type 0} where
  -- What the ordering keeps.
  In-place : (e f : M × ℕ) (z : List (M × ℕ)) → In f (place_by_score e z) → In f (e ∷ z)
  unfolding place_by_score
  In-place e f [] h = h
  In-place e f (g ∷ z) h = elim (Bool-cases (leb e.1 g.1)) [
    | inl le ↦ rw (le, place_by_score) at h
    | inr gt ↦
        elim (let h' : (f ≡ g) ⊎ In f (place_by_score e z) = rw (gt, place_by_score) at h in h') [
          | inl p ↦ inr (inl p)
          | inr m ↦ elim (In-place e f z m) [ inl p ↦ inl p | inr q ↦ inr (inr q) ]
        ]
  ]

  In-by_score : (f : M × ℕ) (z : List (M × ℕ)) → In f (by_score z) → In f z
  unfolding by_score
  In-by_score f [] h = h
  In-by_score f (e ∷ z) h = elim (In-place e f (by_score z) h) [
    | inl p ↦ inl p
    | inr m ↦ inr (In-by_score f z m)
  ]

  In-keep :
      (now : ℕ) (f : M × ℕ) (z : List (M × ℕ))
      → In f (keep (λ (e : M × ℕ). leb e.1 now) z)
      → (In f z) × (f.1 ≤ now)
  In-keep now f [] h = absurd h
  In-keep now f (e ∷ z) h = elim (Bool-cases (leb e.1 now)) [
    | inl le ↦
        elim (let h' : (f ≡ e) ⊎ In f (keep (λ (e : M × ℕ). leb e.1 now) z) = rw (le, keep) at h in
          h') [
            | inl p ↦ (inl p, rw p (leb→le _ _ le))
            | inr m ↦ let (i, k) = In-keep now f z m in (inr i, k)
          ]
    | inr gt ↦ let (i, k) = In-keep now f z (rw (gt, keep) at h) in (inr i, k)
  ]

  In-take-map :
      (n : ℕ) (e : M) (z : List (M × ℕ))
      → In e (take n (map (λ (f : M × ℕ). f.0) z))
      → (v : ℕ) × In (e, v) z
  In-take-map zero e z h = absurd h
  In-take-map (suc n) e [] h = absurd h
  In-take-map (suc n) e ((k, w) ∷ z) (inl p) = (w, inl (rw p))
  In-take-map (suc n) e ((k, w) ∷ z) (inr m) = let (v, i) = In-take-map n e z m in (v, inr i)

  -- A member that is handed out is in the set, with a score up to the bound.
  pub range_up_to_sound :
      (most limit : ℕ) (z : List (M × ℕ)) (e : M)
      → In e (range_up_to most limit z)
      → (v : ℕ) × (In (e, v) z) × (v ≤ most)
  unfolding range_up_to
  range_up_to_sound most limit z e h =
      let (v, m) = In-take-map limit e (by_score (keep (λ (f : M × ℕ). leb f.1 most) z)) h in
      let (i, k) = In-keep most (e, v) z (In-by_score (e, v) _ m) in (v, i, k)
