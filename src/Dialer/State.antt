-- ===== src/Dialer/State.antt =====
-- What the worker changes, and what it is told from outside while it processes one job.
use ai_calling_agent.Common.{ℕ, Bool, List, Option}
use ai_calling_agent.Calling.Window.{Time}
use ai_calling_agent.Model.{Uuid, Db}
use ai_calling_agent.Outbound.Control.{Controls}
use ai_calling_agent.Outbound.Gate.{BlockReason}
use ai_calling_agent.Outbound.Streak.{Streak}
use ai_calling_agent.Queue.Stream.{Stream}
use ai_calling_agent.Recovery.Scheduler.{Schedule}
use ai_calling_agent.Telephony.Breaker.{Breaker}
use ai_calling_agent.Telephony.Client.{HttpAnswer}

-- A trigger request that has left the process: for which attempt of which contact, and what came
-- back. It is no state of the program: it is what the world saw.
pub record Request : Type 0 where
  pub contact : Uuid
  pub number : ℕ
  pub answer : HttpAnswer

pub record State : Type 0 where
  pub db : Db
  pub schedule : Schedule
  pub stream : Stream
  pub breaker : Breaker
  pub controls : Controls
  pub streak : Streak
  pub requests : List Request

-- `_lookup_dograh_runs`: the runs that the provider lists, or a lookup that cannot be trusted.
pub data Lookup : Type 0 where
  found_runs : List ℕ → Lookup
  lookup_timeout lookup_error : Lookup

-- The answers from outside: the gate at its two readings, admission within its five tries, the two
-- lookups, and the trigger. `configured` says that the client could be built, and `interrupted`
-- that the deadline of the job or the end of the process comes after the request has left.
pub record Outside : Type 0 where
  pub now : Time
  pub first_gate : Option BlockReason
  pub second_gate : Option BlockReason
  pub admitted : Bool
  pub redis_up : Bool
  pub controls_up : Bool
  pub first_lookup : Lookup
  pub second_lookup : Lookup
  pub configured : Bool
  pub answer : HttpAnswer
  pub interrupted : Bool
  pub new_attempt_id : Uuid

-- `JobOutcome`
pub data JobOutcome : Type 0 where
  admitted_and_dialed not_admitted not_eligible already_processed ambiguous_recovery in_flight
        reconciled_existing_run reconcile_multiple_candidates outbound_blocked provider_halted
        reconcile_deferred reconcile_expired campaign_paused campaign_paused_held outside_window
        window_deferred window_held budget_blocked no_job deadline_exceeded :
      JobOutcome
