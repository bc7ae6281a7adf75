-- ===== src/Queue/Job.antt =====
-- The payloads of the dial stream and of the recovery schedule (backend/app/services/queue/job.py
-- and backend/app/services/recovery/job.py).
--
-- `f"{campaign_id}:{contact_id}:{attempt_number}"` joins two UUIDs and a decimal, none of which has
-- a colon, so the text stands for the triple. Ids drawn by `uuid4` are arguments.
use native.Mathlib.Decide.{ℕ_discrete}
use ai_calling_agent.Common.{ℕ, Option}
use ai_calling_agent.Calling.Window.{Time}
use ai_calling_agent.Model.{Uuid}

pub data RecoveryType : Type 0 where
  reconnect : RecoveryType

pub record IdempotencyKey : Type 0 where
  pub campaign_id : Uuid
  pub contact_id : Uuid
  pub attempt_number : ℕ

pub record DialJob : Type 0 where
  pub job_id : Uuid
  pub campaign_id : Uuid
  pub contact_id : Uuid
  pub attempt_number : ℕ
  pub enqueued_at : Time
  pub trace_id : Uuid
  pub recovery_type : Option RecoveryType
  pub previous_attempt_id : Option Uuid

abbrev pub idempotency_key : DialJob → IdempotencyKey
idempotency_key job = record {
  campaign_id = job.campaign_id;
  contact_id = job.contact_id;
  attempt_number = job.attempt_number;
}

-- `DialJob.new`
unfoldable pub new_dial_job :
    (job_id trace_id : Uuid)
    → Time
    → (campaign_id contact_id : Uuid) → ℕ
    → Option RecoveryType
    → Option Uuid
    → DialJob
new_dial_job job_id trace_id now campaign_id contact_id attempt_number recovery_type previous =
    record {
      job_id = job_id;
      campaign_id = campaign_id;
      contact_id = contact_id;
      attempt_number = attempt_number;
      enqueued_at = now;
      trace_id = trace_id;
      recovery_type = recovery_type;
      previous_attempt_id = previous;
    }

-- The names under which `uuid5` makes the ids of a retry from its campaign, contact and number.
pub data Purpose : Type 0 where
  job_name trace_name : Purpose

-- A retry, without `scheduled_at`, which `to_json` leaves empty.
pub record RecoveryJob : Type 0 where
  pub job_id : Uuid
  pub attempt_id : Uuid
  pub contact_id : Uuid
  pub campaign_id : Uuid
  pub attempt_number : ℕ
  pub recovery_type : RecoveryType
  pub trace_id : Uuid

-- `RecoveryJob.new`; the argument is `uuid5` in the fixed namespace.
unfoldable pub new_recovery_job :
    (IdempotencyKey → Purpose → Uuid) → (attempt_id contact_id campaign_id : Uuid) → ℕ → RecoveryJob
new_recovery_job uuid5 attempt_id contact_id campaign_id attempt_number =
    let key : IdempotencyKey = record {
      campaign_id = campaign_id;
      contact_id = contact_id;
      attempt_number = attempt_number;
    } in
    record {
      job_id = uuid5 key job_name;
      attempt_id = attempt_id;
      contact_id = contact_id;
      campaign_id = campaign_id;
      attempt_number = attempt_number;
      recovery_type = RecoveryType.reconnect;
      trace_id = uuid5 key trace_name;
    }

-- A member of the schedule: the canonical JSON of a retry, or of a deferred first dial, which
-- carries the mark `kind`.
pub data Entry : Type 0 where
  retry : RecoveryJob → Entry
  dial_job : DialJob → Entry

RecoveryType-discrete : Discrete RecoveryType
RecoveryType-discrete = hlevel

RecoveryJob-discrete : Discrete RecoveryJob
RecoveryJob-discrete = hlevel (ℕ_discrete, RecoveryType-discrete)

DialJob-discrete : Discrete DialJob
DialJob-discrete = hlevel (ℕ_discrete, RecoveryType-discrete)

Entry_decided : Discrete Entry
Entry_decided = hlevel (RecoveryJob-discrete, DialJob-discrete)

unfoldable pub Entry-discrete : Discrete Entry
unfolding Entry_decided RecoveryJob-discrete DialJob-discrete RecoveryType-discrete
Entry-discrete = Entry_decided

IdempotencyKey_decided : Discrete IdempotencyKey
IdempotencyKey_decided = hlevel ℕ_discrete

unfoldable pub IdempotencyKey-discrete : Discrete IdempotencyKey
unfolding IdempotencyKey_decided
IdempotencyKey-discrete = IdempotencyKey_decided
