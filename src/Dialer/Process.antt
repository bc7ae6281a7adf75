-- ===== src/Dialer/Process.antt =====
-- One job of the stream, from its delivery to its acknowledgement.
--
-- The deadline of a job and the end of the process come with the answers from outside: see State.
use ai_calling_agent.Common.{ℕ, Bool, true, false, String, Option, none, some, if◌then◌else◌}
use ai_calling_agent.Common.Result.{Result, ok, err, ◌>>=◌}
use ai_calling_agent.Common.Text.{Text}
use ai_calling_agent.Calling.Window.{Time, Zone, WindowError, invalid_timezone, no_dialable_window}
use ai_calling_agent.Model.{Uuid, Db, Settings}
use ai_calling_agent.Model.Enums.{CampaignStatus}
use ai_calling_agent.Outbound.Gate.{BlockReason}
use ai_calling_agent.Phone.{PhoneLib}
use ai_calling_agent.Policy.{get_effective_policy, window_is_open, next_open_time}
use ai_calling_agent.Queue.Job.{IdempotencyKey, Purpose, DialJob}
use ai_calling_agent.Queue.Stream.{reset_deliveries, read_one}
use ai_calling_agent.Dialer.Dial.{is_paused, blocked_outcome, dial}
use ai_calling_agent.Dialer.State.{
  State, Outside, JobOutcome, not_admitted, campaign_paused, outside_window, no_job,
}
use ai_calling_agent.Dialer.Trigger.{Ran, finished, raised}
use ai_calling_agent.Dialer.Settle.{ack_message, left_unacked, settle_outside_window, settle_paused}

module _ (zone_info : Text → Option Zone) (s : Settings) where
  -- A window that cannot be evaluated counts as closed, with no next opening; other errors leave.
  abbrev pub unless_unresolvable :
      Result WindowError (Bool × Option Time) → Result WindowError (Bool × Option Time)
  unless_unresolvable (err invalid_timezone) = ok (true, none)
  unless_unresolvable (err no_dialable_window) = ok (true, none)
  unless_unresolvable r = r

  -- `_closed_window`
  unfoldable pub closed_window : Db → DialJob → Time → Result WindowError (Bool × Option Time)
  closed_window db job now = elim (db.campaigns job.campaign_id) [
    | none ↦ ok (false, none)
    | some campaign ↦ elim campaign.status [
      | CampaignStatus.active ↦ unless_unresolvable do
        open_now ← window_is_open zone_info s campaign (get_effective_policy s db campaign) now
        if open_now then ok (false, none) else do
          due ← next_open_time zone_info s campaign (get_effective_policy s db campaign) now
          ok (true, some due)
      | _ ↦ ok (false, none)
    ]
  ]

-- `_campaign_is_paused`
unfoldable pub campaign_is_paused : Db → DialJob → Bool
campaign_is_paused db job = elim (db.campaigns job.campaign_id) [
  | none ↦ false
  | some c ↦ is_paused c.status
]

abbrev pub returns : State × JobOutcome → Ran JobOutcome
returns (st, outcome) = finished st outcome

module _ {Number : Type 0} (lib : PhoneLib Number) (zone_info : Text → Option Zone)
    (uuid5 : IdempotencyKey → Purpose → Uuid) (str_of : ℕ → String)
    (same_key : IdempotencyKey → IdempotencyKey → Bool) (s : Settings) (o : Outside) where
  -- The job as `_dial` left it.
  unfoldable pub settle_dialed : ℕ → DialJob → State → JobOutcome → Ran JobOutcome
  settle_dialed message_id job st campaign_paused =
      returns (settle_paused same_key message_id job st)
  settle_dialed message_id job st outside_window =
      elim (closed_window zone_info s st.db job o.now) [
        | err _ ↦ raised st
        | ok (closed, due_at) ↦ returns (settle_outside_window same_key message_id job due_at st)
      ]
  settle_dialed message_id job st outcome =
      if left_unacked outcome
      then finished st outcome
      else finished (ack_message message_id st) outcome

  abbrev pub after_dial : ℕ → DialJob → Ran JobOutcome → Ran JobOutcome
  after_dial message_id job (finished st outcome) = settle_dialed message_id job st outcome
  after_dial message_id job (raised st) = raised st

  -- Admission; its lease is released whatever `_dial` does.
  unfoldable pub admit_and_dial : ℕ → DialJob → State → Ran JobOutcome
  admit_and_dial message_id job st =
      if o.admitted
      then after_dial message_id job (dial lib zone_info uuid5 str_of s o job st)
      else finished st not_admitted

  unfoldable pub within_window : ℕ → DialJob → State → Ran JobOutcome
  within_window message_id job st = elim (closed_window zone_info s st.db job o.now) [
    | err _ ↦ raised st
    | ok (closed, due_at) ↦
        if closed
        then returns (settle_outside_window same_key message_id job due_at st)
        else admit_and_dial message_id job st
  ]

  -- `_process_claimed_job`
  unfoldable pub process_job : ℕ → DialJob → State → Ran JobOutcome
  process_job message_id job st = elim o.first_gate [
    | some reason ↦ finished st (blocked_outcome reason)
    | none ↦
        if campaign_is_paused st.db job
        then returns (settle_paused same_key message_id job st)
        else within_window message_id job st
  ]

  abbrev pub reset_held : Uuid → ℕ → Ran JobOutcome → Ran JobOutcome
  reset_held hold message_id (finished st outcome) =
      if left_unacked outcome
      then finished (record st { stream = reset_deliveries hold o.now message_id st.stream })
          outcome
      else finished st outcome
  reset_held hold message_id (raised st) = raised st

  -- `process_claimed_job`
  unfoldable pub process_claimed_job : Uuid → ℕ → DialJob → State → Ran JobOutcome
  process_claimed_job hold message_id job st =
      reset_held hold message_id (process_job message_id job st)

  -- `process_one_job`, without the record of the dead letters.
  unfoldable pub process_one_job : Uuid → Uuid → Option BlockReason → State → Ran JobOutcome
  process_one_job consumer hold gate st = elim gate [
    | some reason ↦ finished st (blocked_outcome reason)
    | none ↦
        let (stream1, read) = read_one consumer o.now st.stream in
        let st1 = record st { stream = stream1 } in
        elim read [
          | none ↦ finished st1 no_job
          | some (message_id, job) ↦ process_claimed_job hold message_id job st1
        ]
  ]
