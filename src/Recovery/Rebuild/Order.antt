-- ===== src/Recovery/Rebuild/Order.antt =====
-- Rows in the order of their ids, cut into pages.
use ai_calling_agent.Common.{
  ℕ, zero, suc, ◌+◌, ◌≤◌, ◌<◌, Bool, true, false, ◌&&◌, List, [], ◌∷◌, ◌++◌, Option, none, some,
  ltb, length, take, drop, keep, All, ◌≡◌, refl, arith, ap, Bool-cases, inl, inr,
}
use ai_calling_agent.Calling.Window.{Time}
use ai_calling_agent.Model.{Uuid, Contact}
use ai_calling_agent.Queue.Job.{Entry, Entry-discrete}
use ai_calling_agent.Recovery.Rebuild.{is_due_row, is_after, last_of}
use ai_calling_agent.Recovery.Scheduler.{Schedule}
use ai_calling_agent.Redis.Zset.{add_new, add_all_new}

-- Rows in the order of their ids, none twice.
unfoldable pub IsOrdered : List Contact → Type 0
IsOrdered [] = Unit
IsOrdered (c ∷ rows) = All (λ (d : Contact). c.id < d.id) rows × IsOrdered rows

-- What a query past a row returns.
abbrev pub waiting_after : Option Uuid → List Contact → List Contact
waiting_after last_id rows = keep (λ (c : Contact). is_due_row c && is_after last_id c) rows

module _ {A : Type 0} (P : A → Type 0) where
  All-keep : (p : A → Bool) (xs : List A) → All P xs → All P (keep p xs)
  All-keep p [] h = h
  All-keep p (x ∷ xs) h =
      let rest = All-keep p xs h.1 in
      elim (Bool-cases (p x)) [ inl e ↦ rw e (h.0, rest) | inr e ↦ rw e rest ]

pub IsOrdered-keep :
    (p : Contact → Bool) (rows : List Contact) → IsOrdered rows → IsOrdered (keep p rows)
unfolding IsOrdered
IsOrdered-keep p [] h = h
IsOrdered-keep p (c ∷ rows) h =
    let rest = IsOrdered-keep p rows h.1 in
    let above = All-keep (λ (d : Contact). c.id < d.id) p rows h.0 in
    elim (Bool-cases (p c)) [ inl e ↦ rw e (above, rest) | inr e ↦ rw e rest ]

-- The rows past one that comes before all of them.
keep-above :
    (id : Uuid) (rows : List Contact)
    → All (λ (d : Contact). id < d.id) rows
    → keep (λ (d : Contact). ltb id d.id) rows ≡ rows
keep-above id [] h = refl
keep-above id (c ∷ rows) h = let rest = keep-above id rows h.1 in let first = h.0 in ground arith

-- The last row of a page is not before its first.
last_of-above :
    (c d : Contact) (rows : List Contact) (n : ℕ)
    → c.id < d.id
    → All (λ (e : Contact). c.id < e.id) rows
    → c.id < last_of d (take n rows)
last_of-above c d rows zero h above = h
last_of-above c d [] (suc n) h above = h
last_of-above c d (e ∷ rows) (suc n) h above = last_of-above c e rows n above.0 above.1

-- The rows past the last row of a page are those that the page left.
pub keep-past_page :
    (n : ℕ) (c : Contact) (rows : List Contact)
    → IsOrdered (c ∷ rows)
    → n ≤ length rows
    → keep (λ (d : Contact). ltb (last_of c (take n rows)) d.id) (c ∷ rows) ≡ drop n rows
unfolding IsOrdered
keep-past_page zero c rows h long = let above = keep-above c.id rows h.0 in ground arith
keep-past_page (suc n) c [] h long = absurd (omega arith)
keep-past_page (suc n) c (d ∷ rows) h long =
    let later = keep-past_page n d rows h.1 (omega arith) in
    let above = last_of-above c d rows n h.0.0 h.0.1 in
    let before : ltb (last_of d (take n rows)) c.id ≡ false = ground arith in rw before later

pub last_of-first :
    (c : Contact) (rows : List Contact) (n : ℕ)
    → All (λ (d : Contact). c.id < d.id) rows
    → c.id ≤ last_of c (take n rows)
last_of-first c rows zero above = omega arith
last_of-first c [] (suc n) above = omega arith
last_of-first c (d ∷ rows) (suc n) above =
    let later = last_of-above c d rows n above.0 above.1 in omega arith

-- A query past a later row asks again only what the query before it returned.
pub waiting_after-later :
    (last_id : Option Uuid) (id : Uuid) (rows : List Contact)
    → ((d : Contact) → ltb id d.id ≡ true → is_after last_id d ≡ true)
    → waiting_after (some id) rows
      ≡ keep (λ (d : Contact). ltb id d.id) (waiting_after last_id rows)
waiting_after-later last_id id [] later = refl
waiting_after-later last_id id (d ∷ rows) later =
    let rest = waiting_after-later last_id id rows later in let here = later d in ground arith

pub waiting_after-head :
    (last_id : Option Uuid) (rows : List Contact) (c : Contact) (more : List Contact)
    → waiting_after last_id rows ≡ c ∷ more
    → is_after last_id c ≡ true
waiting_after-head last_id [] c more h = absurd cc
waiting_after-head last_id (d ∷ rows) c more h =
    let rest = waiting_after-head last_id rows c more in ground arith

pub is_after-later :
    (last_id : Option Uuid) (id : Uuid) (c d : Contact)
    → is_after last_id c ≡ true
    → c.id ≤ id
    → ltb id d.id ≡ true
    → is_after last_id d ≡ true
is_after-later none id c d h below above = refl
is_after-later (some last_id) id c d h below above = ground arith

pub take_all : (n : ℕ) (rows : List Contact) → length rows ≤ n → take n rows ≡ rows
take_all zero [] h = refl
take_all zero (c ∷ rows) h = absurd (omega arith)
take_all (suc n) [] h = refl
take_all (suc n) (c ∷ rows) h = ap (λ (r : List Contact). c ∷ r) (take_all n rows (omega arith))

pub take-drop : (n : ℕ) (rows : List Contact) → take n rows ++ drop n rows ≡ rows
take-drop zero rows = refl
take-drop (suc n) [] = refl
take-drop (suc n) (c ∷ rows) = ap (λ (r : List Contact). c ∷ r) (take-drop n rows)

pub add_all_new-append :
    (xs ys : List (Entry × Time)) (z : Schedule)
    → add_all_new Entry-discrete (xs ++ ys) z ≡ (
      (add_all_new Entry-discrete ys (add_all_new Entry-discrete xs z).0).0,
      (add_all_new Entry-discrete xs z).1
          + (add_all_new Entry-discrete ys (add_all_new Entry-discrete xs z).0).1,
    )
unfolding add_all_new
add_all_new-append [] ys z = ground arith
add_all_new-append ((e, due) ∷ xs) ys z =
    let rest = add_all_new-append xs ys (add_new Entry-discrete e due z).0 in ground (arith, rest)
