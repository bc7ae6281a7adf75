-- ===== src/Dialer/Sweeper/Counting.antt =====
-- The number of stuck attempts, before and after a mark.
use ai_calling_agent.Common.{
  ℕ, ◌≤◌, ◌<◌, Bool, true, false, not, ◌&&◌, List, [], ◌∷◌, map, some, ◌==◌, if◌then◌else◌, is_some,
  length, keep, ◌≡◌, refl, arith, ◌∙◌, ap, Option-cases, Bool-cases, inl, inr, ==_refl, In,
}
use ai_calling_agent.Calling.Window.{Time}
use ai_calling_agent.Model.{Uuid, Contact, CallAttempt, Db}
use ai_calling_agent.Recovery.Manager.{log_event, record_audit, save_contact}
use ai_calling_agent.Dialer.Attempts.{change_attempt}
use ai_calling_agent.Dialer.Sweeper.{
  is_stuck, contact_dials, swept_attempt, give_up, review, mark_for_review, mark_all,
}

-- How many attempts are stuck.
unfoldable pub stuck_count : Time → Db → ℕ
stuck_count cutoff db = length (keep (is_stuck cutoff db) db.attempts)

module _ {A : Type 0} (f : A → A) (p p' : A → Bool)
    (back : (x : A) → p' (f x) ≡ true → p x ≡ true) where
  count-map : (xs : List A) → length (keep p' (map f xs)) ≤ length (keep p xs)
  count-map [] = omega arith
  count-map (x ∷ xs) = let rest = count-map xs in let here = back x in ground arith

  count-map_lt :
      (b : A) (xs : List A)
      → In b xs
      → p b ≡ true
      → p' (f b) ≡ false
      → length (keep p' (map f xs)) < length (keep p xs)
  count-map_lt b [] there before gone = absurd there
  count-map_lt b (x ∷ xs) (inl e) before gone =
      let rest = count-map xs in
      let was : p x ≡ true = rw⁻¹ e before in
      let went : p' (f x) ≡ false = rw⁻¹ e gone in ground arith
  count-map_lt b (x ∷ xs) (inr there) before gone =
      let rest = count-map_lt b xs there before gone in let here = back x in ground arith

map-same : {A : Type 0} (f g : A → A) → ((x : A) → f x ≡ g x) → (xs : List A) → map f xs ≡ map g xs
map-same f g same [] = refl
map-same f g same (x ∷ xs) = let rest = map-same f g same xs in let here = same x in ground arith

map-none : {A : Type 0} (f : A → A) → ((x : A) → f x ≡ x) → (xs : List A) → map f xs ≡ xs
map-none f same [] = refl
map-none f same (x ∷ xs) = let rest = map-none f same xs in let here = same x in ground arith

-- What a mark does to a row.
abbrev marked : Time → CallAttempt → CallAttempt → CallAttempt
marked now a r =
    if (r.id == a.id) && not (is_some a.provider_call_id) then swept_attempt now r else r

attempts-review : (i : Uuid) (db : Db) → (review i db).attempts ≡ db.attempts
unfolding save_contact
attempts-review i db = elim (Option-cases (db.contacts i)) [
  | inl e ↦ rw (review, e) refl
  | inr (c, e) ↦ rw (review, e) refl
]

attempts-give_up :
    (now : Time) (a : CallAttempt) (db : Db)
    → (give_up now a db).attempts ≡ map (marked now a) db.attempts
unfolding give_up log_event change_attempt
attempts-give_up now a db = elim (Bool-cases (is_some a.provider_call_id)) [
  | inl h ↦ let kept = map-none (marked now a) (λ r. ground arith) db.attempts in ground arith
  | inr h ↦
      let changed =
        map-same (marked now a)
          (λ (r : CallAttempt). if r.id == a.id then swept_attempt now r else r) (λ r. ground arith)
          db.attempts in
      ground arith
]

attempts-mark :
    (now : Time) (a : CallAttempt) (db : Db)
    → (mark_for_review now a db).attempts ≡ map (marked now a) db.attempts
unfolding mark_for_review record_audit log_event
attempts-mark now a db = attempts-review a.contact_id (give_up now a db) ∙ attempts-give_up now a db

-- A contact that dials after a mark did so before; the attempt's own does not.
dials-mark :
    (now : Time) (a : CallAttempt) (db : Db) (i : Uuid)
    → contact_dials ((mark_for_review now a db).contacts i) ≡ true
    → contact_dials (db.contacts i) ≡ true
unfolding mark_for_review give_up record_audit log_event save_contact change_attempt
dials-mark now a db i h = ground arith

contacts-give_up :
    (now : Time) (a : CallAttempt) (db : Db) → (give_up now a db).contacts ≡ db.contacts
unfolding give_up log_event change_attempt
contacts-give_up now a db = ground arith

-- Each contact stands under its id.
unfoldable pub IsIndexed : Db → Type 0
IsIndexed db = (i : Uuid) (c : Contact) → db.contacts i ≡ some c → c.id ≡ i

stops-review :
    (i : Uuid) (db : Db) → IsIndexed db → contact_dials ((review i db).contacts i) ≡ false
unfolding IsIndexed save_contact
stops-review i db indexed = elim (Option-cases (db.contacts i)) [
  | inl e ↦ rw (review, e) (rw e refl)
  | inr (c, e) ↦ let own = indexed i c e in let self = ==_refl i in rw (review, e, own, self) refl
]

IsIndexed-mark :
    (now : Time) (a : CallAttempt) (db : Db) → IsIndexed db → IsIndexed (mark_for_review now a db)
unfolding IsIndexed mark_for_review give_up record_audit log_event save_contact change_attempt
IsIndexed-mark now a db indexed = λ i c h. let before = indexed i c in ground arith

module _ (cutoff now : Time) (a : CallAttempt) (db : Db) where
  stuck-mark :
      (r : CallAttempt)
      → is_stuck cutoff (mark_for_review now a db) (marked now a r) ≡ true
      → is_stuck cutoff db r ≡ true
  unfolding is_stuck
  stuck-mark r h = let dials = dials-mark now a db r.contact_id in ground arith

  -- The count, over the rows as the mark leaves them.
  count-mark :
      stuck_count cutoff (mark_for_review now a db)
      ≡ length (keep (is_stuck cutoff (mark_for_review now a db)) (map (marked now a) db.attempts))
  unfolding stuck_count
  count-mark =
      ap
        (λ (rows : List CallAttempt).
          length (keep (is_stuck cutoff (mark_for_review now a db)) rows))
        (attempts-mark now a db)

  stuck_count-mark : stuck_count cutoff (mark_for_review now a db) ≤ stuck_count cutoff db
  unfolding stuck_count
  stuck_count-mark =
      let counted = count-mark in
      let bound =
        count-map (marked now a) (is_stuck cutoff db) (is_stuck cutoff (mark_for_review now a db))
          stuck-mark db.attempts in
      omega (arith, counted, bound)

  released-mark : IsIndexed db → is_stuck cutoff (mark_for_review now a db) (marked now a a) ≡ false
  unfolding is_stuck mark_for_review record_audit log_event IsIndexed
  released-mark indexed =
      let kept = contacts-give_up now a db in
      let stopped =
        stops-review a.contact_id (give_up now a db) (λ i c h. indexed i c (rw kept at h)) in
      ground arith

  pub stuck_count-mark_lt :
      IsIndexed db
      → In a db.attempts
      → is_stuck cutoff db a ≡ true
      → stuck_count cutoff (mark_for_review now a db) < stuck_count cutoff db
  unfolding stuck_count
  stuck_count-mark_lt indexed there stuck =
      let counted = count-mark in
      let bound =
        count-map_lt (marked now a) (is_stuck cutoff db)
          (is_stuck cutoff (mark_for_review now a db)) stuck-mark a db.attempts there stuck
          (released-mark indexed) in
      omega (arith, counted, bound)

pub stuck_count-mark_all :
    (cutoff now : Time) (rows : List CallAttempt) (db : Db)
    → stuck_count cutoff (mark_all now rows db) ≤ stuck_count cutoff db
unfolding mark_all
stuck_count-mark_all cutoff now [] db = omega arith
stuck_count-mark_all cutoff now (a ∷ rows) db = omega (
  arith,
  stuck_count-mark_all cutoff now rows (mark_for_review now a db),
  stuck_count-mark cutoff now a db,
)

pub IsIndexed-mark_all :
    (now : Time) (rows : List CallAttempt) (db : Db)
    → IsIndexed db
    → IsIndexed (mark_all now rows db)
unfolding mark_all
IsIndexed-mark_all now [] db indexed = indexed
IsIndexed-mark_all now (a ∷ rows) db indexed =
    IsIndexed-mark_all now rows (mark_for_review now a db) (IsIndexed-mark now a db indexed)
