-- ===== src/Dialer/Once/Steps.antt =====
-- Any sequence of runs of the workers, of dead letters, and of what the rest of the program writes.
--
-- Two workers take turns: their claims of one attempt are made one by the database's constraint.
use ai_calling_agent.Common.{ℕ, ◌≤◌, Bool, List, [], ◌∷◌, Option, ◌≡◌, refl, arith, String}
use ai_calling_agent.Common.Text.{Text}
use ai_calling_agent.Calling.Window.{Zone}
use ai_calling_agent.Model.{Uuid, Db, Settings}
use ai_calling_agent.Phone.{PhoneLib}
use ai_calling_agent.Queue.Job.{IdempotencyKey, Purpose, DialJob, Entry}
use ai_calling_agent.Queue.Stream.{DeadRow, drain_dead_letters}
use mathlib.Core.Path.{subst}
use ai_calling_agent.Recovery.Manager.{World, save_contact}
use ai_calling_agent.Webhook.{Payload, WebhookState}
use ai_calling_agent.Webhook.Settle.{Process}
use ai_calling_agent.Webhook.Once.{processed_by}
use ai_calling_agent.Webhook.Calm.{process_dograh_webhook-IsCalm}
use ai_calling_agent.Dialer.Attempts.Rows.{IsCalm, IsCalm-refl, IsCalm-trans, IsCalm-same}
use ai_calling_agent.Dialer.Process.{process_claimed_job}
use ai_calling_agent.Dialer.Letters.{record_dead_letter, record_dead_letters, handle_dead_letters}
use ai_calling_agent.Calling.Window.{Time}
use ai_calling_agent.Outbound.Gate.{BlockReason}
use ai_calling_agent.Recovery.Dispatch.{dispatch_due_recovery_jobs}
use ai_calling_agent.Recovery.Dispatch.Retry.{Shared}
use ai_calling_agent.Recovery.Dispatch.Steady.{dispatch_due_recovery_jobs-IsSteady}
use ai_calling_agent.Dialer.Sweeper.{sweep_stuck_attempts}
use ai_calling_agent.Dialer.Sweeper.Settling.{sweep_stuck_attempts-IsCalm}
use ai_calling_agent.Dialer.Quiet.{IsQuiet}
use ai_calling_agent.Dialer.State.{State, Outside}
use ai_calling_agent.Dialer.Trigger.Ending.{state_of}
use ai_calling_agent.Dialer.Once.{placed, IsUnique, IsSafe, IsFresh, IsSafe-calm}
use ai_calling_agent.Dialer.Once.Runs.{IsSafeState}
use ai_calling_agent.Dialer.Once.Runs.Jobs.{process_claimed_job-IsSafe}

record_dead_letter-IsCalm : (letter : DeadRow) (db : Db) → IsCalm db (record_dead_letter letter db)
unfolding record_dead_letter save_contact
record_dead_letter-IsCalm letter db =
    IsCalm-same db (record_dead_letter letter db) (ground arith) (ground arith)

record_dead_letters-IsCalm :
    (letters : List DeadRow) (db : Db) → IsCalm db (record_dead_letters letters db)
unfolding record_dead_letters
record_dead_letters-IsCalm [] db = IsCalm-refl db
record_dead_letters-IsCalm (letter ∷ letters) db =
    IsCalm-trans db _ _ (record_dead_letter-IsCalm letter db)
      (record_dead_letters-IsCalm letters (record_dead_letter letter db))

handle_dead_letters-IsQuiet : (st : State) → IsQuiet st (handle_dead_letters st)
unfolding handle_dead_letters
handle_dead_letters-IsQuiet st =
    (record_dead_letters-IsCalm (drain_dead_letters st.stream).1 st.db, refl)

quiet-IsSafe : (st st' : State) → IsQuiet st st' → IsSafeState st → IsSafeState st'
quiet-IsSafe st st' quiet safe = rw quiet.1 (IsSafe-calm st.db st'.db st.requests quiet.0 safe)

-- A state after a handler that shares the session and the schedule with the worker.
abbrev pub with_world : World → State → State
with_world w st = record st { db = w.db; schedule = w.schedule }

-- What a dispatcher of due entries finds, and a state after it.
abbrev pub shared_of : State → Shared
shared_of st = record { db = st.db; schedule = st.schedule; stream = st.stream }

abbrev pub with_shared : Shared → State → State
with_shared sh st = record st { db = sh.db; schedule = sh.schedule; stream = sh.stream }

module _ {Number : Type 0} (lib : PhoneLib Number) (zone_info : Text → Option Zone)
    (uuid5 : IdempotencyKey → Purpose → Uuid) (str_of : ℕ → String)
    (same_key : IdempotencyKey → IdempotencyKey → Bool) (s : Settings) where
  -- A worker's run over a job that was delivered to it, however it ends; a turn of the dead letters;
  -- a sweep of stuck attempts; a delivery of a webhook, with whatever it had read of the processed
  -- events before; a dispatch of due entries, whichever of its commits succeed; and anything that
  -- makes no attempt, puts none on hold and sends no request.
  pub data Step (st st' : State) : Type 0 where
    run :
        (o : Outside) (hold : Uuid) (message_id : ℕ) (job : DialJob)
        → IsFresh o.new_attempt_id st.db
        → st'
          ≡ state_of
              (process_claimed_job lib zone_info uuid5 str_of same_key s o hold message_id job st)
        → Step st st'
    dead_letters : st' ≡ handle_dead_letters st → Step st st'
    sweep :
        (now stuck_after : Time) (limit : ℕ) (reason : Option BlockReason)
        → st' ≡ record st { db = (sweep_stuck_attempts now stuck_after limit reason st.db).0 }
        → Step st st'
    webhook :
        (uuid_text : Uuid → String) (parse_uuid : String → Option Uuid) (lower : Text → Text)
        (p : Process) (known : List String) (payload : Payload) (w : WebhookState)
        → w.world ≡ record { db = st.db; schedule = st.schedule }
        → st'
          ≡ with_world
              (processed_by lib uuid5 str_of uuid_text parse_uuid lower s p known payload w).0.world
              st
        → Step st st'
    dispatch :
        (guard_ttl now : Time) (commits : Entry → Bool) (ids : Entry → Uuid × Uuid)
        → st'
          ≡ with_shared
              (dispatch_due_recovery_jobs lib zone_info same_key guard_ttl s now commits ids
                (shared_of st)).0
              st
        → Step st st'
    elsewhere : IsQuiet st st' → Step st st'

  pub data Reach (first : State) : State → Type 0 where
    here : Reach first first
    next : {st st' : State} → Reach first st → Step st st' → Reach first st'

  Step-IsSafe : (st st' : State) → Step st st' → IsSafeState st → IsSafeState st'
  Step-IsSafe st st' (run o hold message_id job fresh e) safe = rw e (
      process_claimed_job-IsSafe lib zone_info uuid5 str_of same_key s o message_id job hold st safe
        fresh)
  Step-IsSafe st st' (dead_letters e) safe =
      rw e (quiet-IsSafe st (handle_dead_letters st) (handle_dead_letters-IsQuiet st) safe)
  Step-IsSafe st st' (sweep now stuck_after limit reason e) safe = rw e (
      IsSafe-calm st.db _ st.requests
        (sweep_stuck_attempts-IsCalm now stuck_after limit reason st.db) safe)
  Step-IsSafe st st' (webhook uuid_text parse_uuid lower p known payload w same e) safe = rw e (
      IsSafe-calm st.db _ st.requests
        (subst
          (λ (x : World).
            IsCalm x.db
              (processed_by lib uuid5 str_of uuid_text parse_uuid lower s p known payload
                w).0.world.db)
          same
          (process_dograh_webhook-IsCalm lib uuid5 str_of uuid_text parse_uuid lower s p known
            payload w))
        safe)
  Step-IsSafe st st' (dispatch guard_ttl now commits ids e) safe = rw e (
      IsSafe-calm st.db _ st.requests
        (dispatch_due_recovery_jobs-IsSteady lib zone_info same_key guard_ttl s now commits ids
          (shared_of st)).0
        safe)
  Step-IsSafe st st' (elsewhere quiet) safe = quiet-IsSafe st st' quiet safe

  Reach-IsSafe : {first st : State} → Reach first st → IsSafeState first → IsSafeState st
  Reach-IsSafe here safe = safe
  Reach-IsSafe (next {st = before} {st' = after} reach step) safe =
      Step-IsSafe before after step (Reach-IsSafe reach safe)

  start-IsSafe : (first : State) → IsUnique first.db → first.requests ≡ [] → IsSafeState first
  unfolding IsSafe placed
  start-IsSafe first unique empty =
      rw empty (unique, λ c n. ground arith, λ c n h. absurd (ground arith))

  -- From a database whose attempts have ids of their own, and no request sent yet: after any
  -- number of runs over any jobs, delivered in any order and as often as one likes, each ended
  -- by its return, by an exception, or by its deadline or the end of its process after the
  -- request, and with dead letters, sweeps of stuck attempts, webhooks, dispatches of due
  -- entries and any other writes in between that make no attempt, put none on hold and send no
  -- request, at most one request for one attempt of one contact has left whose call the provider
  -- may have placed, where an error of httpx that is neither a timeout nor a lost connection
  -- counts as no call. A run draws a fresh id for a new attempt.
  pub Reach-placed :
      (first st : State)
      → IsUnique first.db
      → first.requests ≡ []
      → Reach first st
      → (contact : Uuid) (number : ℕ) → placed contact number st.requests ≤ 1
  unfolding IsSafe
  Reach-placed first st unique empty reach contact number =
      (Reach-IsSafe reach (start-IsSafe first unique empty)).1 contact number
