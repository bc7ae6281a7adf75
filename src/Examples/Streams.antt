-- ===== src/Examples/Streams.antt =====
-- A stream with an unreadable entry before a job.
use ai_calling_agent.Common.{◌≡◌, refl, Bool, List, [], ◌∷◌, none, inl, inr, ◌==◌, ◌&&◌}
use ai_calling_agent.Common.Text.{codes}
use ai_calling_agent.Queue.Job.{DialJob, new_dial_job, IdempotencyKey}
use ai_calling_agent.Queue.Stream.{job_fields, unreadable, Stream, append, read_one}
use ai_calling_agent.Queue.Stream.Ids.{view}
use ai_calling_agent.Queue.Stream.Conserved.{IsKept, IsOrdered, append-Loses}
use ai_calling_agent.Queue.Stream.Reading.{first_readable, read_one-eq-first_readable}
use ai_calling_agent.Queue.Stream.Runs.{
  StreamOp, enqueue_op, read_op, ack_op, reclaim_op, reset_op, drain_op, perform_all,
  perform_all-IsKept,
}

abbrev pub job : DialJob
job = new_dial_job 21 22 1000 7 3 1 none none

abbrev empty_stream : Stream
empty_stream = record { messages = []; next_id = 1; dead = []; undrained = []; guards = λ _. none }

empty_stream-IsOrdered : IsOrdered empty_stream
unfolding view
empty_stream-IsOrdered = record { one_payload = λ id f g i j. absurd i; below = λ id f i. absurd i }

abbrev pub two_entries : Stream
two_entries = append (job_fields job) (append (unreadable (codes "{")) empty_stream)

two_entries-IsOrdered : IsOrdered two_entries
two_entries-IsOrdered =
    (append-Loses (job_fields job) (append (unreadable (codes "{")) empty_stream)
      (append-Loses (unreadable (codes "{")) empty_stream empty_stream-IsOrdered).0).0

job_waits : IsKept 2 (job_fields job) two_entries
unfolding append view
job_waits = inl (inr (inl refl))

abbrev pub same_key : IdempotencyKey → IdempotencyKey → Bool
same_key a b =
    (a.campaign_id == b.campaign_id)
    && (a.contact_id == b.contact_id)
    && (a.attempt_number == b.attempt_number)

-- A worker reads the job and dies; another takes it over, again and again.
abbrev ops : List StreamOp
ops =
    read_op 1 1000
    ∷ enqueue_op job
    ∷ reclaim_op 1 2 9000 5000 10
    ∷ reset_op 9 9500 2
    ∷ ack_op 3
    ∷ reclaim_op 1 2 20000 5000 10
    ∷ drain_op
    ∷ []

perform_all-IsKept_example : IsKept 2 (job_fields job) (perform_all same_key ops two_entries)
perform_all-IsKept_example =
    perform_all-IsKept same_key 2 (job_fields job) ops two_entries two_entries-IsOrdered
      (refl, (refl, (refl, (refl, (refl, (refl, (refl, tt))))))) job_waits

read_one-eq-first_readable_example :
    (read_one 1 1000 two_entries).1 ≡ first_readable two_entries.messages
read_one-eq-first_readable_example =
    read_one-eq-first_readable 1 1000 two_entries two_entries-IsOrdered
