-- ===== src/Recovery/Dispatch/Lossless/Rows.antt =====
-- What a dispatch writes to the rows, and who is owed a call.
use ai_calling_agent.Common.{
  Bool, Option, none, some, ◌==◌, ◌≡◌, refl, arith, ◌∙◌, ap, Bool-cases, inl, inr,
}
use ai_calling_agent.Common.Table.{put_row}
use ai_calling_agent.Dialer.Attempts.{find_attempt}
use ai_calling_agent.Eligibility.{is_suppressed}
use ai_calling_agent.Model.{Uuid, Contact, Campaign, Db, Settings}
use ai_calling_agent.Phone.{PhoneLib}
use ai_calling_agent.Queue.Job.{RecoveryJob, Entry, retry, dial_job}
use ai_calling_agent.Recovery.Dispatch.Retry.{cleared}
use ai_calling_agent.Recovery.Dispatch.Lossless.{
  forget, IsTouched, IsIndexed, retry_owed, dial_owed, with_rows, is_owed,
}
use ai_calling_agent.Recovery.Manager.{save_contact}

pub IsTouched-refl : (db : Db) → IsTouched db db
unfolding IsTouched
IsTouched-refl db = (refl, refl, refl, λ i. refl)

forget-put_row :
    (table : Uuid → Option Contact) (contact new : Contact) (i : Uuid)
    → table contact.id ≡ some contact
    → new.id ≡ contact.id
    → cleared new ≡ cleared contact
    → forget (put_row new.id new table i) ≡ forget (table i)
forget-put_row table contact new i own same_id same_rest = elim (Bool-cases (i == new.id)) [
  | inl h ↦
      let here : i ≡ contact.id = ground arith in
      rw (h, here, own) (ap (λ (c : Contact). some c) same_rest)
  | inr h ↦ rw h refl
]

pub IsTouched-trans : (a b c : Db) → IsTouched a b → IsTouched b c → IsTouched a c
unfolding IsTouched
IsTouched-trans a b c p q = (q.0 ∙ p.0, q.1 ∙ p.1, q.2 ∙ p.2, λ i. q.3 i ∙ p.3 i)

-- A contact's row, with another retry or none.
pub save_contact-IsTouched :
    (db : Db) (contact new : Contact)
    → db.contacts contact.id ≡ some contact
    → new.id ≡ contact.id
    → cleared new ≡ cleared contact
    → IsTouched db (save_contact new db)
unfolding IsTouched save_contact
save_contact-IsTouched db contact new own same_id same_rest =
    (refl, refl, refl, λ i. forget-put_row db.contacts contact new i own same_id same_rest)

suppressed-same :
    {Number : Type 0} (lib : PhoneLib Number) (s : Settings) (db db' : Db) (number : _)
    → db'.suppressions ≡ db.suppressions
    → is_suppressed lib s db' number ≡ is_suppressed lib s db number
unfolding is_suppressed
suppressed-same lib s db db' number e = rw e refl

-- Events and audits.
pub IsTouched-rows :
    (a b c : Db)
    → c.attempts ≡ b.attempts
    → c.campaigns ≡ b.campaigns
    → c.suppressions ≡ b.suppressions
    → c.contacts ≡ b.contacts
    → IsTouched a b
    → IsTouched a c
unfolding IsTouched
IsTouched-rows a b c p q r t touched = (
  p ∙ touched.0,
  q ∙ touched.1,
  r ∙ touched.2,
  λ i. ap (λ (table : Uuid → Option Contact). forget (table i)) t ∙ touched.3 i,
)

module _ {Number : Type 0} (lib : PhoneLib Number) (s : Settings) where
  module _ (db db' : Db) (closed : db'.suppressions ≡ db.suppressions) where
    retry_owed-same :
        (job : RecoveryJob) (contact contact' : Contact) (campaign : Campaign)
        → db'.attempts ≡ db.attempts
        → cleared contact' ≡ cleared contact
        → retry_owed lib s db' job contact' campaign ≡ retry_owed lib s db job contact campaign
    unfolding retry_owed is_suppressed find_attempt
    retry_owed-same job contact contact' campaign rows same =
        let moved : retry_owed lib s db' job contact' campaign
            ≡ retry_owed lib s db' job contact campaign =
          ap (λ (c : Contact). retry_owed lib s db' job c campaign) same in
        let closed_too = suppressed-same lib s db db' contact.normalized_phone_number closed in
        moved ∙ rw (rows, closed_too) refl

    dial_owed-same :
        (contact contact' : Contact) (campaign : Campaign)
        → cleared contact' ≡ cleared contact
        → dial_owed lib s db' contact' campaign ≡ dial_owed lib s db contact campaign
    unfolding dial_owed
    dial_owed-same contact contact' campaign same =
        let moved : dial_owed lib s db' contact' campaign ≡ dial_owed lib s db' contact campaign =
          ap (λ (c : Contact). dial_owed lib s db' c campaign) same in
        let closed_too = suppressed-same lib s db db' contact.normalized_phone_number closed in
        moved ∙ rw closed_too refl

  with_rows-same :
      (o o' : Option Contact) (campaign : Option Campaign) (f f' : Contact → Campaign → Bool)
      → forget o' ≡ forget o
      → ((c c' : Contact) (d : Campaign) → cleared c' ≡ cleared c → f' c' d ≡ f c d)
      → with_rows lib s o' campaign f' ≡ with_rows lib s o campaign f
  with_rows-same none none campaign f f' same agree = refl
  with_rows-same none (some c') campaign f f' same agree = absurd cc
  with_rows-same (some c) none campaign f f' same agree = absurd cc
  with_rows-same (some c) (some c') none f f' same agree = refl
  with_rows-same (some c) (some c') (some d) f f' same agree = agree c c' d cc

  pub is_owed-same :
      (db db' : Db) (e : Entry) → IsTouched db db' → is_owed lib s db' e ≡ is_owed lib s db e
  unfolding IsTouched is_owed retry_owed is_suppressed dial_owed
  is_owed-same db db' (retry job) (rows, campaigns, closed, contacts) = rw campaigns (
      with_rows-same (db.contacts job.contact_id) (db'.contacts job.contact_id)
        (db.campaigns job.campaign_id) (retry_owed lib s db job) (retry_owed lib s db' job)
        (contacts job.contact_id)
        (λ c c' d same. retry_owed-same db db' closed job c c' d rows same))
  is_owed-same db db' (dial_job job) (rows, campaigns, closed, contacts) = rw campaigns (
      with_rows-same (db.contacts job.contact_id) (db'.contacts job.contact_id)
        (db.campaigns job.campaign_id) (dial_owed lib s db) (dial_owed lib s db')
        (contacts job.contact_id) (λ c c' d same. dial_owed-same db db' closed c c' d same))

forget-id :
    (o : Option Contact) (c' : Contact) (i : Uuid)
    → ((c : Contact) → o ≡ some c → c.id ≡ i)
    → forget (some c') ≡ forget o
    → c'.id ≡ i
forget-id none c' i indexed same = absurd cc
forget-id (some c) c' i indexed same =
    let own = indexed c refl in
    let same_rest : cleared c' ≡ cleared c = cc in
    let as_before : c'.id ≡ c.id = ap (λ (d : Contact). d.id) same_rest in as_before ∙ own

pub IsIndexed-touched : (db db' : Db) → IsTouched db db' → IsIndexed db → IsIndexed db'
unfolding IsTouched IsIndexed
IsIndexed-touched db db' (rows, campaigns, closed, contacts) (contact_ids, campaign_ids) = (
  λ i c own. forget-id (db.contacts i) c i (contact_ids i) (rw own at (contacts i)),
  λ i c own. campaign_ids i c (rw campaigns at own),
)
