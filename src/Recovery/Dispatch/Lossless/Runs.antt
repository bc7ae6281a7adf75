-- ===== src/Recovery/Dispatch/Lossless/Runs.antt =====
-- The dispatch of a list of entries, entry by entry.
use ai_calling_agent.Common.{
  ℕ, ◌+◌, ◌<◌, ◌||◌, Bool, true, false, List, [], ◌∷◌, Option, some, is_some, ◌≡◌, refl, arith, ◌∙◌,
  sym, ap, Option-cases, Bool-cases, inl, inr,
}
use ai_calling_agent.Common.Result.{Result, ok, err}
use ai_calling_agent.Common.Text.{Text}
use ai_calling_agent.Calling.Window.{Time, Zone, WindowError}
use ai_calling_agent.Model.{Uuid, Settings}
use ai_calling_agent.Phone.{PhoneLib}
use ai_calling_agent.Queue.Job.{
  IdempotencyKey, DialJob, RecoveryJob, Entry, retry, dial_job, Entry-discrete,
}
use ai_calling_agent.Queue.Stream.{guard_lives}
use ai_calling_agent.Recovery.Dispatch.Retry.{Shared, error_retry, process_one}
use ai_calling_agent.Recovery.Dispatch.Deferred.{process_deferred}
use ai_calling_agent.Recovery.Dispatch.Steady.{dispatch_due_recovery_jobs-IsSteady}
use ai_calling_agent.Recovery.Dispatch.Lossless.Backed.{is_queued, IsBacked}
use ai_calling_agent.Recovery.Dispatch.{
  process_entry, restored, settled, dispatch_one, dispatch_all, with_answers,
  dispatch_due_recovery_jobs,
}
use ai_calling_agent.Recovery.Dispatch.Lossless.{key_of, is_kept, IsTouched, IsIndexed, is_owed}
use ai_calling_agent.Recovery.Dispatch.Lossless.Retries.{process_retry-IsFair}
use ai_calling_agent.Recovery.Dispatch.Lossless.Deferrals.{process_deferred_of-IsFair}
use ai_calling_agent.Recovery.Dispatch.Lossless.Moves.{IsFair, dropped-IsFair}
use ai_calling_agent.Recovery.Dispatch.Lossless.Rows.{
  IsTouched-refl, IsTouched-trans, is_owed-same, IsIndexed-touched,
}
use ai_calling_agent.Recovery.Scheduler.{claim, due_jobs}
use ai_calling_agent.Recovery.Scheduler.Claims.{is_entry, put_back_lem}
use ai_calling_agent.Redis.Zset.{score}
use ai_calling_agent.Redis.Zset.Laws.{score-remove, same_iff}

module _ {Number : Type 0} (lib : PhoneLib Number) (zone_info : Text → Option Zone)
    (same_key : IdempotencyKey → IdempotencyKey → Bool)
    (same_key_refl : (k : IdempotencyKey) → same_key k k ≡ true) (guard_ttl : Time)
    (positive : 0 < guard_ttl) (s : Settings) (now : Time) where
  process_one-IsFair :
      (ids : Uuid × Uuid) (job : RecoveryJob) (sh after : Shared) (n : ℕ)
      → IsIndexed sh.db
      → process_one lib zone_info same_key guard_ttl s now ids job sh ≡ ok (after, n)
      → IsFair lib s now (retry job) sh after
  unfolding process_one IsIndexed is_owed
  process_one-IsFair ids job sh after n indexed h =
      let dropped = dropped-IsFair lib s now (retry job) sh sh.db (IsTouched-refl sh.db) in
      elim (Option-cases (sh.db.contacts job.contact_id)) [
        | inl e ↦ ground (arith, dropped)
        | inr (contact, e) ↦ elim (Option-cases (sh.db.campaigns job.campaign_id)) [
          | inl e' ↦ ground (arith, dropped)
          | inr (campaign, e') ↦
              let its_contact = indexed.0 job.contact_id contact e in
              let its_campaign = indexed.1 job.campaign_id campaign e' in
              let own : sh.db.contacts contact.id ≡ some contact =
                ap sh.db.contacts its_contact ∙ e in
              let owner : sh.db.campaigns campaign.id ≡ some campaign =
                ap sh.db.campaigns its_campaign ∙ e' in
              let run =
                process_retry-IsFair lib zone_info same_key guard_ttl s now same_key_refl positive
                  contact campaign sh own owner ids job its_contact its_campaign after n in
              ground (arith, run)
        ]
      ]

  process_deferred-IsFair :
      (job : DialJob) (sh after : Shared) (n : ℕ)
      → IsIndexed sh.db
      → process_deferred lib zone_info same_key guard_ttl s now job sh ≡ ok (after, n)
      → IsFair lib s now (dial_job job) sh after
  unfolding process_deferred IsIndexed is_owed
  process_deferred-IsFair job sh after n indexed h =
      let dropped = dropped-IsFair lib s now (dial_job job) sh sh.db (IsTouched-refl sh.db) in
      elim (Option-cases (sh.db.contacts job.contact_id)) [
        | inl e ↦ ground (arith, dropped)
        | inr (contact, e) ↦ elim (Option-cases (sh.db.campaigns job.campaign_id)) [
          | inl e' ↦ ground (arith, dropped)
          | inr (campaign, e') ↦
              let its_contact = indexed.0 job.contact_id contact e in
              let its_campaign = indexed.1 job.campaign_id campaign e' in
              let own : sh.db.contacts contact.id ≡ some contact =
                ap sh.db.contacts its_contact ∙ e in
              let owner : sh.db.campaigns campaign.id ≡ some campaign =
                ap sh.db.campaigns its_campaign ∙ e' in
              let run =
                process_deferred_of-IsFair lib zone_info same_key guard_ttl s now same_key_refl
                  positive contact campaign sh own owner job its_contact its_campaign after n in
              ground (arith, run)
        ]
      ]

  process_entry-IsFair :
      (ids : Uuid × Uuid) (x : Entry) (sh after : Shared) (n : ℕ)
      → IsIndexed sh.db
      → process_entry lib zone_info same_key guard_ttl s now ids x sh ≡ ok (after, n)
      → IsFair lib s now x sh after
  unfolding process_entry
  process_entry-IsFair ids (retry job) sh after n indexed h =
      process_one-IsFair ids job sh after n indexed h
  process_entry-IsFair ids (dial_job job) sh after n indexed h =
      process_deferred-IsFair job sh after n indexed h

  -- One turn of the loop: the rows keep who is owed, and an owed entry stays.
  abbrev pub IsLossless : Shared → Shared → Type 0
  IsLossless sh after =
      IsTouched sh.db after.db
      × ((e : Entry)
          → is_owed lib s sh.db e ≡ true
          → is_kept now e sh ≡ true
          → is_kept now e after ≡ true)

  module _ (x : Entry) (sh : Shared) where
    -- The entry put back after an error, over what Redis has by then.
    restored-IsLossless :
        (after : Shared)
        → ((e : Entry)
            → is_entry x e ≡ false
            → is_kept now e sh ≡ true
            → is_kept now e after ≡ true)
        → IsLossless sh (restored lib zone_info same_key guard_ttl s now sh.db x after)
    unfolding is_kept
    restored-IsLossless after others = (
      IsTouched-refl sh.db,
      λ e owed kept.
          let back = (put_back_lem x e (now + error_retry) after.schedule).0 in
          let other = others e in ground arith,
    )

    abbrev claimed : Shared
    claimed = record sh { schedule = (claim x sh.schedule).0 }

    claimed-keeps :
        (e : Entry) → is_entry x e ≡ false → is_kept now e sh ≡ true → is_kept now e claimed ≡ true
    unfolding is_kept claim
    claimed-keeps e other kept =
        let same_score = score-remove Entry-discrete x e sh.schedule in ground arith

    fair-IsLossless : (after : Shared) → IsFair lib s now x claimed after → IsLossless sh after
    unfolding IsFair
    fair-IsLossless after (touched, others, own) = (
      touched,
      λ e owed kept. elim (Bool-cases (is_entry x e)) [
        | inr h ↦ others e h (claimed-keeps e h kept)
        | inl h ↦
            let same : e ≡ x = sym ((same_iff Entry-discrete x e).0 h) in
            rw same (own (ap (λ (i : Entry). is_owed lib s sh.db i) (sym same) ∙ owed))
      ],
    )

    settled-IsLossless :
        (commits : Bool) (r : Result WindowError (Shared × ℕ))
        → ((after : Shared) (n : ℕ) → r ≡ ok (after, n) → IsFair lib s now x claimed after)
        → IsLossless sh (settled lib zone_info same_key guard_ttl s now commits x claimed r).0
    unfolding IsFair
    settled-IsLossless commits (err e) fair = restored-IsLossless claimed claimed-keeps
    settled-IsLossless true (ok (after, n)) fair = fair-IsLossless after (fair after n refl)
    settled-IsLossless false (ok (after, n)) fair =
        let others = (fair after n refl).1 in
        restored-IsLossless after (λ e h kept. others e h (claimed-keeps e h kept))

    dispatch_one-IsLossless :
        (commits : Bool) (ids : Uuid × Uuid)
        → IsIndexed sh.db
        → IsLossless sh (dispatch_one lib zone_info same_key guard_ttl s now commits ids x sh).0
    unfolding dispatch_one
    dispatch_one-IsLossless commits ids indexed =
        let run =
          settled-IsLossless commits
            (process_entry lib zone_info same_key guard_ttl s now ids x claimed)
            (λ after n h. process_entry-IsFair ids x claimed after n indexed h) in
        elim (Bool-cases (claim x sh.schedule).1) [
          | inl won ↦ rw (dispatch_one, won) run
          | inr lost ↦ rw (dispatch_one, lost) (IsTouched-refl sh.db, λ e owed kept. kept)
        ]

  dispatch_all-IsLossless :
      (entries : List (Bool × (Uuid × Uuid) × Entry)) (sh : Shared)
      → IsIndexed sh.db
      → IsLossless sh (dispatch_all lib zone_info same_key guard_ttl s now entries sh).0
  unfolding dispatch_all
  dispatch_all-IsLossless [] sh indexed = (IsTouched-refl sh.db, λ e owed kept. kept)
  dispatch_all-IsLossless ((commits, ids, x) ∷ entries) sh indexed =
      let here = dispatch_one-IsLossless x sh commits ids indexed in
      let sh1 = (dispatch_one lib zone_info same_key guard_ttl s now commits ids x sh).0 in
      let later =
        dispatch_all-IsLossless entries sh1 (IsIndexed-touched sh.db sh1.db here.0 indexed) in
      (
        IsTouched-trans sh.db sh1.db _ here.0 later.0,
        λ e owed kept.
            later.1 e (is_owed-same lib s sh.db sh1.db e here.0 ∙ owed) (here.1 e owed kept),
      )

  -- A dispatch loses no call that is owed: where a contact still waits for the call of an entry, its
  -- campaign may go on, and, for a retry, the attempt does not exist, an entry of the schedule is in
  -- the schedule afterwards, or a dial job of it is in the dial stream, or its guard, from a job
  -- queued before this dispatch, was in force before it and is so still. This holds for every entry, due or not, whichever of the due ones are paused, shut out by
  -- their window or by a full stream, raise an exception, or fail to commit, while Redis answers;
  -- and the call is still owed afterwards. The rows of contacts and campaigns stand under their ids,
  -- and a guard has a positive time to live and a test of keys that holds of equal keys.
  pub dispatch_due_recovery_jobs_lossless :
      (commits : Entry → Bool) (ids : Entry → Uuid × Uuid) (sh : Shared) (e : Entry)
      → IsIndexed sh.db
      → is_owed lib s sh.db e ≡ true
      → is_some (score Entry-discrete e sh.schedule) ≡ true
      → ((is_some (
              score Entry-discrete e
                (dispatch_due_recovery_jobs lib zone_info same_key guard_ttl s now commits ids
                  sh).0.schedule)
            || is_queued same_key now
                (key_of e)
                (dispatch_due_recovery_jobs lib zone_info same_key guard_ttl s now commits ids
                  sh).0.stream
            || guard_lives now (sh.stream.guards (key_of e)))
          ≡ true)
        × (is_kept now e
              (dispatch_due_recovery_jobs lib zone_info same_key guard_ttl s now commits ids sh).0
            ≡ true)
        × (is_owed lib s
              (dispatch_due_recovery_jobs lib zone_info same_key guard_ttl s now commits ids
                sh).0.db
              e
            ≡ true)
  unfolding dispatch_due_recovery_jobs is_kept IsBacked
  dispatch_due_recovery_jobs_lossless commits ids sh e indexed owed there =
      let entries =
        with_answers lib zone_info same_key guard_ttl s now commits ids
          (due_jobs now 50 sh.schedule) in
      let all = dispatch_all-IsLossless entries sh indexed in
      let kept : is_kept now e sh ≡ true = unfold is_kept in ground arith in
      let still = all.1 e owed kept in
      let backed =
        (dispatch_due_recovery_jobs-IsSteady lib zone_info same_key guard_ttl s now commits ids
            sh).1.0
          (key_of e) in
      (ground arith, still, is_owed-same lib s sh.db _ e all.0 ∙ owed)
