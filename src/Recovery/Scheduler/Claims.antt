-- ===== src/Recovery/Scheduler/Claims.antt =====
-- An entry is claimed by one worker, an entry put back keeps the later due time, and what is due.
use ai_calling_agent.Common.{
  ℕ, suc, ◌≤◌, Bool, true, List, [], ◌∷◌, none, some, ◌≡◌, ◌↔◌, refl, if◌then◌else◌, is_some, any,
  ◌&&◌, arith, In,
}
use ai_calling_agent.Calling.Window.{Time}
use ai_calling_agent.Queue.Job.{Entry, Entry-discrete}
use ai_calling_agent.Redis.Zset.{same, score, add_new, add_all_new, remove}
use ai_calling_agent.Redis.Zset.Range.{range_up_to_sound}
use ai_calling_agent.Redis.Zset.Laws.{same_iff, score-remove, score-add_new}
use ai_calling_agent.Recovery.Scheduler.{Schedule, add_missing, put_back, due_jobs, claim}

abbrev pub is_entry : Entry → Entry → Bool
is_entry = same Entry-discrete

-- A run of claims by any workers, and how many of those of one entry succeeded.
pub wins : Entry → List Entry → Schedule → ℕ
wins e [] z = 0
wins e (x ∷ xs) z =
    let (z', won) = claim x z in
    let rest = wins e xs z' in if is_entry x e then (if won then suc rest else rest) else rest

wins_missing :
    (e : Entry) (xs : List Entry) (z : Schedule) → score Entry-discrete e z ≡ none → wins e xs z ≡ 0
unfolding wins claim
wins_missing e [] z h = refl
wins_missing e (x ∷ xs) z h = ground (
  arith,
  same_iff Entry-discrete x e,
  score-remove Entry-discrete x e z,
  wins_missing e xs (remove Entry-discrete x z),
)

-- However many workers claim an entry, in whatever order among other claims: exactly one of the
-- claims wins it if it is in the schedule and is claimed at all, and otherwise none.
pub claim_once :
    (e : Entry) (xs : List Entry) (z : Schedule)
    → wins e xs z
      ≡ (if is_some (score Entry-discrete e z) && any (λ x. is_entry x e) xs then 1 else 0)
unfolding wins claim
claim_once e [] z = ground arith
claim_once e (x ∷ xs) z = ground (
  arith,
  same_iff Entry-discrete x e,
  score-remove Entry-discrete x e z,
  wins_missing e xs (remove Entry-discrete x z),
  claim_once e xs (remove Entry-discrete x z),
)

-- An entry put back has the given due time if it was missing, and keeps its own if it was not; the
-- answer says which. No other entry changes.
pub put_back_lem :
    (e j : Entry) (due : Time) (z : Schedule)
    → (score Entry-discrete j (put_back e due z).0 ≡ (
        if is_some (score Entry-discrete j z)
        then score Entry-discrete j z
        else (if is_entry e j then some due else none)))
      × (((put_back e due z).1 ≡ true) ↔ (score Entry-discrete e z ≡ none))
unfolding put_back add_missing add_all_new
put_back_lem e j due z = (
  score-add_new Entry-discrete e j due z,
  (λ h. unfold add_new in ground arith, λ h. unfold add_new in ground arith),
)

-- An entry that is handed out as due is in the schedule, with a due time that has passed.
due_jobs_sound :
    (now limit : ℕ) (z : Schedule) (e : Entry)
    → In e (due_jobs now limit z)
    → (due : Time) × (In (e, due) z) × (due ≤ now)
unfolding due_jobs
due_jobs_sound now limit z e h = range_up_to_sound now limit z e h
