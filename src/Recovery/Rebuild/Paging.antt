-- ===== src/Recovery/Rebuild/Paging.antt =====
-- The pages of a rebuild, against one query of all rows.
use ai_calling_agent.Common.{
  ℕ, zero, suc, ◌+◌, ◌≤◌, ◌<◌, true, false, ◌&&◌, List, [], ◌∷◌, ◌++◌, Option, none, some, ltb,
  length, take, drop, keep, length-keep, length-drop, length-take, ◌≡◌, refl, arith, ◌∙◌, sym, ap,
  Bool-cases, inl, inr, ◌⊎◌,
}
use ai_calling_agent.Model.{Uuid, Contact, CallAttempt}
use ai_calling_agent.Queue.Job.{IdempotencyKey, Purpose, Entry-discrete}
use ai_calling_agent.Recovery.Rebuild.{
  is_due_row, is_after, page_after, last_of, entries_of, rebuild_pages, rebuild_retry_schedule,
}
use ai_calling_agent.Recovery.Scheduler.{Schedule, add_missing}
use ai_calling_agent.Redis.Zset.{add_all_new}
use ai_calling_agent.Recovery.Rebuild.Order.{
  IsOrdered, IsOrdered-keep, add_all_new-append, is_after-later, keep-past_page, last_of-first,
  take-drop, take_all, waiting_after, waiting_after-head, waiting_after-later,
}

List-cases :
    (rows : List Contact)
    → (rows ≡ []) ⊎ ((c : Contact) × (more : List Contact) × (rows ≡ c ∷ more))
List-cases [] = inl refl
List-cases (c ∷ more) = inr (c, more, refl)

waiting_all : (rows : List Contact) → waiting_after none rows ≡ keep is_due_row rows
waiting_all [] = refl
waiting_all (c ∷ rows) = let rest = waiting_all rows in ground arith

module _ (uuid5 : IdempotencyKey → Purpose → Uuid) (attempts : List CallAttempt) where
  entries_of-append :
      (xs ys : List Contact)
      → entries_of uuid5 attempts (xs ++ ys)
        ≡ entries_of uuid5 attempts xs ++ entries_of uuid5 attempts ys
  unfolding entries_of
  entries_of-append [] ys = refl
  entries_of-append (c ∷ xs) ys = let rest = entries_of-append xs ys in ground arith

  module _ (m : ℕ) (rows : List Contact) (ordered : IsOrdered rows) where
    abbrev query : Option Uuid → Schedule → Schedule × ℕ
    query last_id z =
        add_all_new Entry-discrete (entries_of uuid5 attempts (waiting_after last_id rows)) z

    -- A page of one row and up to `m` more, and then the query past it, are the query.
    query-page :
        (last_id : Option Uuid) (z : Schedule) (c : Contact) (more : List Contact)
        → waiting_after last_id rows ≡ c ∷ more
        → m ≤ length more
        → (waiting_after (some (last_of c (take m more))) rows ≡ drop m more)
          × (query last_id z ≡ (
            (query
                (some (last_of c (take m more)))
                (add_all_new Entry-discrete (entries_of uuid5 attempts (c ∷ take m more)) z).0).0,
            (add_all_new Entry-discrete (entries_of uuid5 attempts (c ∷ take m more)) z).1
                + (query
                    (some (last_of c (take m more)))
                    (add_all_new Entry-discrete
                      (entries_of uuid5 attempts (c ∷ take m more))
                      z).0).1,
          ))
    unfolding IsOrdered
    query-page last_id z c more found long =
        let own = waiting_after-head last_id rows c more found in
        let in_order : IsOrdered (c ∷ more) =
          rw found at
            (IsOrdered-keep (λ (d : Contact). is_due_row d && is_after last_id d) rows ordered) in
        let id = last_of c (take m more) in
        let below = last_of-first c more m in_order.0 in
        let past : waiting_after (some id) rows ≡ drop m more =
          waiting_after-later last_id id rows
            (λ d above. is_after-later last_id id c d own below above)
          ∙ ap (λ (l : List Contact). keep (λ (d : Contact). ltb id d.id) l) found
          ∙ keep-past_page m c more in_order long in
        let whole : waiting_after last_id rows ≡ (c ∷ take m more) ++ drop m more =
          found ∙ ap (λ (l : List Contact). c ∷ l) (sym (take-drop m more)) in
        let split =
          add_all_new-append (entries_of uuid5 attempts (c ∷ take m more))
            (entries_of uuid5 attempts (drop m more)) z in
        (past, rw (past, whole, entries_of-append (c ∷ take m more) (drop m more)) split)

    abbrev pages : ℕ → Option Uuid → Schedule → Schedule × ℕ
    pages fuel last_id z = rebuild_pages uuid5 attempts fuel (suc m) last_id rows z

    module _ (fuel : ℕ) (last_id : Option Uuid) (z : Schedule) where
      no_page : page_after (suc m) last_id rows ≡ [] → pages (suc fuel) last_id z ≡ (z, 0)
      unfolding rebuild_pages
      no_page h = ground arith

      pages-none : waiting_after last_id rows ≡ [] → pages (suc fuel) last_id z ≡ query last_id z
      unfolding page_after entries_of add_all_new
      pages-none found = no_page (rw found refl) ∙ rw found refl

      module _ (c : Contact) (more : List Contact) where
        last_page :
            page_after (suc m) last_id rows ≡ c ∷ more
            → ltb (length (c ∷ more)) (suc m) ≡ true
            → pages (suc fuel) last_id z
              ≡ add_all_new Entry-discrete (entries_of uuid5 attempts (c ∷ more)) z
        unfolding rebuild_pages add_missing
        last_page h short = ground arith

        full_page :
            page_after (suc m) last_id rows ≡ c ∷ more
            → ltb (length (c ∷ more)) (suc m) ≡ false
            → pages (suc fuel) last_id z ≡ (
              (pages fuel
                  (some (last_of c more))
                  (add_all_new Entry-discrete (entries_of uuid5 attempts (c ∷ more)) z).0).0,
              (add_all_new Entry-discrete (entries_of uuid5 attempts (c ∷ more)) z).1
                  + (pages fuel
                      (some (last_of c more))
                      (add_all_new Entry-discrete (entries_of uuid5 attempts (c ∷ more)) z).0).1,
            )
        unfolding rebuild_pages add_missing
        full_page h full = ground arith

      pages-last :
          (c : Contact) (more : List Contact)
          → waiting_after last_id rows ≡ c ∷ more
          → ltb (length (c ∷ take m more)) (suc m) ≡ true
          → pages (suc fuel) last_id z ≡ query last_id z
      unfolding page_after
      pages-last c more found short =
          let taken = length-take m more in
          let all : take m more ≡ more = take_all m more (ground arith) in
          let whole : page_after (suc m) last_id rows ≡ c ∷ more = rw (found, all) refl in
          last_page c more whole (rw all at short) ∙ rw found refl

      pages-more :
          (c : Contact) (more : List Contact)
          → waiting_after last_id rows ≡ c ∷ more
          → ltb (length (c ∷ take m more)) (suc m) ≡ false
          → pages (suc fuel) last_id z ≡ (
            (pages fuel
                (some (last_of c (take m more)))
                (add_all_new Entry-discrete (entries_of uuid5 attempts (c ∷ take m more)) z).0).0,
            (add_all_new Entry-discrete (entries_of uuid5 attempts (c ∷ take m more)) z).1
                + (pages fuel
                    (some (last_of c (take m more)))
                    (add_all_new Entry-discrete
                      (entries_of uuid5 attempts (c ∷ take m more))
                      z).0).1,
          )
      unfolding page_after
      pages-more c more found full =
          let page : page_after (suc m) last_id rows ≡ c ∷ take m more = rw found refl in
          full_page c (take m more) page full

    pages-query :
        (fuel : ℕ) (last_id : Option Uuid) (z : Schedule)
        → length (waiting_after last_id rows) < fuel
        → pages fuel last_id z ≡ query last_id z
    pages-query zero last_id z enough = absurd (omega arith)
    pages-query (suc fuel) last_id z enough = elim (List-cases (waiting_after last_id rows)) [
      | inl found ↦ pages-none fuel last_id z found
      | inr (c, more, found) ↦ elim (Bool-cases (ltb (length (c ∷ take m more)) (suc m))) [
        | inl short ↦ pages-last fuel last_id z c more found short
        | inr full ↦
            let taken = length-take m more in
            let long : m ≤ length more = ground arith in
            let page = query-page last_id z c more found long in
            let left = length-drop m more in
            let size : length (waiting_after last_id rows) ≡ suc (length more) =
              ap (λ (l : List Contact). length l) found in
            let rest =
              pages-query fuel (some (last_of c (take m more)))
                (add_all_new Entry-discrete (entries_of uuid5 attempts (c ∷ take m more)) z).0
                (rw page.0 (omega arith)) in
            pages-more fuel last_id z c more found full ∙ rw rest (sym page.1)
      ]
    ]

  -- For pages of any positive size, and rows in the order of their ids: a rebuild ends within its
  -- fuel, and comes to one ZADD NX of the entries of all contacts whose retry is scheduled, in the
  -- schedule as in the number of entries that it reports.
  pub rebuild_retry_schedule-eq-one_query :
      (size : ℕ) (rows : List Contact) (z : Schedule)
      → 0 < size
      → IsOrdered rows
      → rebuild_retry_schedule uuid5 attempts size rows z
        ≡ add_missing (entries_of uuid5 attempts (keep is_due_row rows)) z
  unfolding rebuild_retry_schedule add_missing
  rebuild_retry_schedule-eq-one_query zero rows z positive ordered = absurd (omega arith)
  rebuild_retry_schedule-eq-one_query (suc m) rows z positive ordered =
      let bounded = length-keep (λ (c : Contact). is_due_row c && is_after none c) rows in
      let run = pages-query m rows ordered (suc (length rows)) none z (omega arith) in
      run
      ∙ ap (λ (l : List Contact). add_all_new Entry-discrete (entries_of uuid5 attempts l) z)
          (waiting_all rows)
