-- ===== src/Recovery/Scheduler.antt =====
-- The schedule of retries (backend/app/services/recovery/scheduler.py): one sorted set, the due
-- time of each entry its score.
pub mod Claims
use ai_calling_agent.Common.{ℕ, suc, Bool, true, false, List, [], ◌∷◌, length, ◌==◌, is_some}
use ai_calling_agent.Calling.Window.{Time}
use ai_calling_agent.Queue.Job.{DialJob, RecoveryJob, Entry, retry, dial_job, Entry-discrete}
use ai_calling_agent.Redis.Zset.{Zset, score, add, add_new, add_all_new, remove, range_up_to}

abbrev pub Schedule : Type 0
Schedule = Zset Entry

unfoldable pub schedule : RecoveryJob → Time → Schedule → Schedule
schedule job due_at z = add Entry-discrete (retry job) due_at z

unfoldable pub schedule_dial : DialJob → Time → Schedule → Schedule
schedule_dial job due_at z = add Entry-discrete (dial_job job) due_at z

unfoldable pub add_missing : Schedule → Schedule → Schedule × ℕ
add_missing entries z = add_all_new Entry-discrete entries z

unfoldable pub put_back : Entry → Time → Schedule → Schedule × Bool
unfolding add_missing
put_back entry due_at z = let (z', added) = add_missing ((entry, due_at) ∷ []) z in (z', added == 1)

unfoldable pub reschedule : Entry → Time → Schedule → Schedule
reschedule entry due_at z = add Entry-discrete entry due_at z

-- The limit of the source is 50 unless a caller gives one.
unfoldable pub due_jobs : Time → ℕ → Schedule → List Entry
due_jobs now limit z = range_up_to now limit z

-- ZREM's count is 1 exactly if the member was there.
unfoldable pub claim : Entry → Schedule → Schedule × Bool
claim entry z = (remove Entry-discrete entry z, is_some (score Entry-discrete entry z))

unfoldable pub pending_count : Schedule → ℕ
pending_count z = length z
