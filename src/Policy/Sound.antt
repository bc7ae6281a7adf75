-- ===== src/Policy/Sound.antt =====
-- What validation guarantees of every policy that `put` stores.
use ai_calling_agent.Common.{
  ℕ, zero, suc, ◌-◌, ◌≤◌, ◌<◌, true, false, not, ◌&&◌, String, List, [], ◌∷◌, Option, some, ◌≡◌,
  ◌≢◌, refl, ap, leb, any, length, get_elem?, All, arith,
}
use ai_calling_agent.Common.Result.{ok, >>=-eq-ok}
use ai_calling_agent.Common.Table.{put_row_self}
use ai_calling_agent.Common.Text.{Text}
use ai_calling_agent.Calling.Window.{Time, Zone, day, is_within_calling_window, window_within_bound}
use ai_calling_agent.Calling.Window.Bound.{is_dialable_now_of_within_bound}
use ai_calling_agent.Model.{Uuid, Campaign, RetryPolicy, Db, AuditEvent, Settings}
use ai_calling_agent.Policy.{
  RetryPolicyUpdate, load_timezone, get_effective_policy, ensure_policy, window_is_open,
  validate_policy_update, apply_update, put, save_policy, check_timezone, find_campaign,
  stored_policy,
}

-- A spacing that the settings allow.
abbrev pub InBackoffRange : Settings → ℕ → Type 0
InBackoffRange s n = (s.min_retry_backoff_seconds ≤ n) × (n ≤ s.max_retry_backoff_seconds)

-- A policy has one allowed spacing for each retry, no more retries than the ceiling, and a window
-- with two ends inside the hard one.
pub record IsSound (s : Settings) (p : RetryPolicy) : Type 0 where
  pub spacing_each : length p.retry_spacing_seconds ≡ p.max_retries
  pub retries_capped : p.max_retries ≤ s.max_retries_ceiling
  pub spacing_allowed : All (InBackoffRange s) p.retry_spacing_seconds
  pub ends_differ : p.window_start ≢ p.window_end
  pub within_hard :
      window_within_bound p.window_start p.window_end s.hard_calling_window_start
        s.hard_calling_window_end
      ≡ ok true

spacing_allowed_of :
    (lo hi : ℕ) (xs : List ℕ)
    → any (λ n. not (leb lo n && leb n hi)) xs ≡ false
    → All (λ n. (lo ≤ n) × (n ≤ hi)) xs
spacing_allowed_of lo hi [] h = tt
spacing_allowed_of lo hi (x ∷ xs) h =
    ((ground arith, ground arith), spacing_allowed_of lo hi xs (ground arith))

module _ (s : Settings) (u : RetryPolicyUpdate) where
  -- A valid update makes a sound policy of any.
  apply_update-IsSound :
      (p : RetryPolicy) → validate_policy_update s u ≡ ok tt → IsSound s (apply_update u p)
  unfolding validate_policy_update apply_update
  apply_update-IsSound p h = record {
    spacing_each = ground arith;
    retries_capped = ground arith;
    spacing_allowed = spacing_allowed_of _ _ u.retry_spacing_seconds (ground arith);
    ends_differ = ground arith;
    within_hard = ground arith;
  }

-- What a successful `put` went through.
put-parts :
    (zone_info : Text → Option Zone) (s : Settings) (actor : String) (db db' : Db) (id : Uuid)
    (u : RetryPolicyUpdate)
    → put zone_info s actor db id u ≡ ok db'
    → (validate_policy_update s u ≡ ok tt)
      × ((c : Campaign) × (db.campaigns id ≡ some c) × (db' ≡ save_policy s actor db c u))
unfolding put
put-parts zone_info s actor db db' id u h =
    let (t, valid, h1) = >>=-eq-ok (validate_policy_update s u) _ h in
    let (t', zone, h2) = >>=-eq-ok (check_timezone zone_info u.timezone) _ h1 in
    let (c, found, h3) = >>=-eq-ok (find_campaign db id) _ h2 in (valid, (c, ground arith, cc h3))

get_effective_policy_of :
    (s : Settings) (db : Db) (c : Campaign) (p : RetryPolicy)
    → db.policies c.id ≡ some p
    → get_effective_policy s db c ≡ p
unfolding get_effective_policy
get_effective_policy_of s db c p h = ground arith

module _ (s : Settings) (actor : String) (db : Db) (c : Campaign) (u : RetryPolicyUpdate) where
  save_policy-policies :
      (save_policy s actor db c u).policies c.id
      ≡ some (apply_update u (stored_policy s (ensure_policy s db c.id).0 c.id))
  unfolding save_policy
  save_policy-policies = put_row_self c.id _ (ensure_policy s db c.id).0.policies

  save_policy-IsSound :
      validate_policy_update s u ≡ ok tt
      → IsSound s (get_effective_policy s (save_policy s actor db c u) c)
  save_policy-IsSound valid =
      rw (get_effective_policy_of s (save_policy s actor db c u) c _ save_policy-policies)
        (apply_update-IsSound s u (stored_policy s (ensure_policy s db c.id).0 c.id) valid)

  ensure_policy_other :
      (j : Uuid) → j ≢ c.id → (ensure_policy s db c.id).0.policies j ≡ db.policies j
  unfolding ensure_policy
  ensure_policy_other j other = ground arith

  ensure_policy-audits : (ensure_policy s db c.id).0.audits ≡ db.audits
  unfolding ensure_policy
  ensure_policy-audits = ground arith

  save_policy_other :
      (j : Uuid) → j ≢ c.id → (save_policy s actor db c u).policies j ≡ db.policies j
  unfolding save_policy
  save_policy_other j other = ground (arith, ensure_policy_other j other)

  save_policy-audits : length (save_policy s actor db c u).audits ≡ suc (length db.audits)
  unfolding save_policy
  save_policy-audits = ap (λ (l : List AuditEvent). suc (length l)) ensure_policy-audits

-- A request that `put` accepts leaves the campaign with a sound policy, which is the one in force;
-- no other campaign's policy changes, and one audit row is written.
pub put-IsSound :
    (zone_info : Text → Option Zone) (s : Settings) (actor : String) (db db' : Db)
    (campaign : Campaign) (u : RetryPolicyUpdate)
    → db.campaigns campaign.id ≡ some campaign
    → put zone_info s actor db campaign.id u ≡ ok db'
    → IsSound s (get_effective_policy s db' campaign)
      × ((j : Uuid) → j ≢ campaign.id → db'.policies j ≡ db.policies j)
      × (length db'.audits ≡ suc (length db.audits))
put-IsSound zone_info s actor db db' campaign u row h =
    let (valid, (c, found, same)) = put-parts zone_info s actor db db' campaign.id u h in
    let c_same : campaign ≡ c = cc (found, row) in
    rw (same, c_same)
      (
        save_policy-IsSound s actor db c u valid,
        λ j other. save_policy_other s actor db c u j other,
        save_policy-audits s actor db c u,
      )

-- While attempts remain, a sound policy has a spacing for the next one, and it is an allowed one.
spacing_at :
    (lo hi : ℕ) (xs : List ℕ) (i : ℕ)
    → All (λ n. (lo ≤ n) × (n ≤ hi)) xs
    → i < length xs
    → (d : ℕ) × (get_elem? xs i ≡ some d) × (lo ≤ d) × (d ≤ hi)
spacing_at lo hi [] i h below = elim below [ ]
spacing_at lo hi (x ∷ xs) zero h below = (x, refl, h.0.0, h.0.1)
spacing_at lo hi (x ∷ xs) (suc i) h below = spacing_at lo hi xs i h.1 (omega arith)

pub spacing_available :
    (s : Settings) (p : RetryPolicy) (attempt : ℕ)
    → IsSound s p
    → 0 < attempt
    → attempt ≤ p.max_retries
    → (d : ℕ) × (get_elem? p.retry_spacing_seconds (attempt - 1) ≡ some d)
      × (s.min_retry_backoff_seconds ≤ d)
      × (d ≤ s.max_retry_backoff_seconds)
spacing_available s p attempt sound first more =
    spacing_at s.min_retry_backoff_seconds s.max_retry_backoff_seconds p.retry_spacing_seconds
      (attempt - 1) sound.spacing_allowed (omega (arith, sound.spacing_each))

-- A call is allowed under a sound policy exactly while its own window is open in the campaign's
-- zone: the hard window takes nothing away.
pub window_is_open-IsSound :
    (zone_info : Text → Option Zone) (s : Settings) (campaign : Campaign) (p : RetryPolicy)
    (zone : Zone) (now : Time)
    → load_timezone zone_info campaign.timezone ≡ ok zone
    → IsSound s p
    → s.hard_calling_window_start ≢ s.hard_calling_window_end
    → p.window_end < day
    → zone.time_of now < day
    → window_is_open zone_info s campaign p now
      ≡ is_within_calling_window zone now p.window_start p.window_end
unfolding window_is_open
window_is_open-IsSound zone_info s campaign p zone now loaded sound hard_differ e_day below =
    rw loaded (
      is_dialable_now_of_within_bound zone now p.window_start p.window_end
        s.hard_calling_window_start s.hard_calling_window_end sound.ends_differ hard_differ e_day
        below sound.within_hard)
