-- ===== src/Lib.antt =====
-- The AI calling agent (backend/app): who may be called and when, the decision about a call that
-- failed or broke off, and the state in Redis that the workers share.
--
-- Calling.Window is backend/app/services/calling_window.py: windows of a day as half-open
-- intervals, the clamp to the hard bound, and the search for the next opening. A `ZoneInfo` is a
-- record `Zone` of three readings of a clock. The search tries three days, and minute by minute at
-- most 180 times from the start of an interval, as the source does; these bounds are the source's
-- own, and in a zone of fixed offset they are enough.
-- Model has the rows (backend/app/models) as records; the session is a value `Db`.
-- Phone is backend/app/services/phone.py, with `canonical_number` of
-- backend/app/repositories/suppression_repository.py. The phone library and NFKC are the record
-- `PhoneLib`; PhoneLaws names what the proofs rely on of them.
-- Policy is backend/app/services/retry_policy_service.py, Eligibility is
-- backend/app/services/eligibility_service.py.
-- Redis.Zset has the commands on sorted sets that the program uses. Queue.Job has the payloads
-- (backend/app/services/queue/job.py, backend/app/services/recovery/job.py). Queue.Lease is
-- backend/app/services/queue/concurrency_lease.py, each Lua script one atomic function,
-- with the callers of the scripts in Queue.Lease.Client.
-- Queue.Stream is backend/app/services/queue/redis_queue.py: one stream with a consumer group and
-- a dead-letter stream; the loop of `read_one` runs on fuel, one round for each entry of the stream
-- and one more, since each further round follows the removal of an unread entry.
-- Recovery.Scheduler, Recovery.Manager, Recovery.Dispatch and Recovery.Rebuild are scheduler.py,
-- manager.py, dispatch.py and rebuild.py of backend/app/services/recovery. The manager asks Policy
-- for the policy in force, writes rows of Model and puts jobs into the schedule; the dispatch moves
-- due entries to Queue.Stream, and the rebuild restores the schedule from the rows, in pages that
-- run on fuel of one more than the rows.
-- Outbound holds new calls back: Outbound.Control is backend/app/services/outbound_control.py,
-- Outbound.Budget is spend_cap.py beside it, Outbound.Streak the detector of provider_halt.py, and
-- Outbound.Gate outbound_gate.py with the readings of kill_switch.py and provider_halt.py. Each
-- process has its caches and its clock; the float sum of the spend is a parameter.
-- Telephony.Client is the trigger of backend/app/services/telephony/dograh_client.py: a request
-- ends in one `HttpAnswer`, which is what httpx reports. Telephony.Failure is the policy for failed
-- triggers in dograh_outcome.py, and Telephony.Outcome the words of a webhook there.
-- Dialer is backend/app/services/queue/dialer_worker.py on the Dograh engine, with
-- backend/app/repositories/call_attempt_repository.py and
-- backend/app/services/telephony/dograh_reconciliation.py. A run takes its answers from outside as
-- an `Outside`, the deadline or the end of the process after a request among them; it returns, or
-- an exception leaves it with what was committed (`Ran`). The state counts the requests that have
-- left the process, which the program itself does not. The worker asks Eligibility, Policy and
-- Outbound, writes rows of Model, and calls Recovery.Manager for a call that failed; it puts jobs
-- into Recovery.Scheduler and acknowledges entries of Queue.Stream.
-- Dialer.Sweeper is backend/app/services/queue/stuck_call_sweeper.py.
-- Webhook is backend/app/services/telephony/dograh_webhook_service.py with the claim of an event in
-- backend/app/services/processed_event_service.py: Webhook.Process has the handler,
-- Webhook.Settle what it writes, and Webhook.Transcript transcript_store.py beside it. A delivery
-- is one step, but the events that its first test reads may be older ones. It asks
-- Telephony.Outcome what the words mean, and calls Recovery.Manager for a call that failed.
-- Analysis.Claim is backend/app/services/analysis/repository.py, and Analysis.Claim.Budget
-- budget.py beside it: a table is a function of its key, and each statement is one step.
-- Analysis.Scoring is backend/app/services/analysis/scoring.py, and Telephony.Breaker is
-- backend/app/services/telephony/circuit_breaker.py.
-- Common has the tests, lists, results and texts that all of them share; Examples runs the theorems
-- at concrete inputs.
--
-- Not modelled: the native provider and its conversation, HTTP routes, the language-model and
-- speech services with the worker that calls them, the fetch of a transcript, bulk SQL, JSON
-- printing, logging and metrics. Ids drawn at random and the clock are arguments.
pub mod Common
pub mod Calling
pub mod Model
pub mod Phone
pub mod Policy
pub mod Eligibility
pub mod Redis
pub mod Queue
pub mod Recovery
pub mod Analysis
pub mod Telephony
pub mod Outbound
pub mod Dialer
pub mod Webhook
mod Examples
