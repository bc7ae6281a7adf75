-- ===== src/Queue/Lease/Exclusive.antt =====
-- A holder has one live lease at a time.
use ai_calling_agent.Common.{
  ℕ, ◌+◌, ◌≤◌, ◌<◌, Bool, true, false, String, List, [], ◌∷◌, Option, none, some, ◌≡◌, refl, leb,
  ◌==◌, All, arith, Bool-cases, Option-cases, inl, inr, ==_iff, sym, ◌∙◌,
}
use ai_calling_agent.Model.{Uuid}
use ai_calling_agent.Queue.Lease.{
  ScopeSet, Holder, Leases, Lease, Limits, duplicate_lease, evict_holder, evict, drop_expired,
  extend, leave, names_lease, with_deadline, change_scopes, set_holder, is_live, admit, acquire,
  renew, Op, acquire_op, renew_op, release_op, step, run,
}
use ai_calling_agent.Queue.Lease.Atomic.{acquire_taken}
use ai_calling_agent.Queue.Lease.Outcomes.{
  update_holder, admit_taken, admit_refused, renew_live, renew_dead, release-eq,
}

abbrev pub releases : ℕ → Op → Bool
releases lease (release_op other) = other.lease_id == lease
releases lease _ = false

-- A script that runs while the lease lasts, and does not release it.
pub record IsDuring (start ttl lease : ℕ) (op : ℕ × Op) : Type 0 where
  pub after : start ≤ op.0
  pub before : op.0 < start + ttl
  pub keeps : releases lease op.1 ≡ false

-- The holder's record names the lease and lives up to the time at least.
Owns : ℕ → ℕ → Option Holder → Type 0
Owns lease end none = ⊥
Owns lease end (some h) = (h.lease ≡ lease) × (end ≤ h.live_until)

ltb_not_leb : (a b : ℕ) → b < a → leb a b ≡ false
ltb_not_leb a b h = ground arith

module _ (lease end : ℕ) where
  Owns-is_live : (now : ℕ) (h : Option Holder) → now < end → Owns lease end h → is_live now h ≡ true
  unfolding Owns
  Owns-is_live now none b o = absurd o
  Owns-is_live now (some h) b o = ground arith

  Owns-evict_holder :
      (now : ℕ) (h : Option Holder)
      → now < end
      → Owns lease end h
      → Owns lease end (evict_holder now h)
  unfolding evict_holder Owns
  Owns-evict_holder now none b o = absurd o
  Owns-evict_holder now (some h) b o = rw (ltb_not_leb h.live_until now (omega (arith, o.1))) o

  Owns-with_deadline :
      (later : ℕ) (h : Option Holder)
      → end ≤ later
      → Owns lease end h
      → Owns lease end (with_deadline later h)
  unfolding Owns
  Owns-with_deadline later none b o = absurd o
  Owns-with_deadline later (some h) b o = (o.0, b)

  Owns-names_lease :
      (other : ℕ) (h : Option Holder) → Owns lease end h → names_lease other h ≡ (lease == other)
  unfolding Owns names_lease
  Owns-names_lease other none o = absurd o
  Owns-names_lease other (some h) o = rw o.0 refl

  -- A change of a record that keeps the owner, if it is the owner's lease that is named.
  Owns-update_holder :
      (other holder at : ℕ) (f : Option Holder → Option Holder) (l : Leases)
      → Owns lease end (l.holders at)
      → ((other ≡ lease) → Owns lease end (f (l.holders at)))
      → Owns lease end ((update_holder other holder f l).holders at)
  unfolding update_holder set_holder
  Owns-update_holder other holder at f l o kept = elim (Bool-cases (at == holder)) [
    | inr off ↦ elim (Bool-cases (names_lease other (l.holders holder))) [
      | inl named ↦ rw (named, off) o
      | inr not_named ↦ rw not_named o
    ]
    | inl on ↦
        let same_holder = (==_iff at holder).0 on in
        elim (Bool-cases (names_lease other (l.holders holder))) [
          | inl named ↦
              rw (named, on)
                (rw (sym same_holder) (
                  kept (
                    sym (
                      (==_iff lease other).0
                        (sym (Owns-names_lease other (l.holders at) o) ∙ rw same_holder named)))))
          | inr not_named ↦ rw not_named o
        ]
  ]

-- Scopes do not touch the holders.
holders-change_scopes :
    (f : ScopeSet → ScopeSet) (campaign : Uuid) (provider : String) (l : Leases) (i : Uuid)
    → (change_scopes f campaign provider l).holders i ≡ l.holders i
unfolding change_scopes
holders-change_scopes f campaign provider l i = refl

module _ (ttl : ℕ) (limits : Limits) (start lease : ℕ) (holder : Uuid) where
  -- The holder owns the lease until its time is up.
  abbrev Held : Leases → Type 0
  Held l = Owns lease (start + ttl) (l.holders holder)

  Held-evict : (now : ℕ) (l : Leases) → now < start + ttl → Held l → Held (evict now l)
  unfolding evict
  Held-evict now l before held =
      Owns-evict_holder lease (start + ttl) now (l.holders holder) before held

  -- A live holder is refused a further lease, and keeps the one it has.
  acquire-Held :
      (worker : Uuid) (now : ℕ) (new : Lease) (l : Leases)
      → now < start + ttl
      → new.holder_id ≡ holder
      → Held l
      → (acquire ttl limits worker now new l).1 ≡ some duplicate_lease
  unfolding acquire admit
  acquire-Held worker now new l before same_holder held =
      let clean =
        change_scopes (drop_expired now) new.campaign_id new.provider_name (evict now l) in
      let own : Owns lease (start + ttl) (clean.holders holder) =
        unfold change_scopes in Held-evict now l before held in
      rw (same_holder, Owns-is_live lease (start + ttl) now (clean.holders holder) before own) refl

  Held-acquire :
      (worker : Uuid) (now : ℕ) (new : Lease) (l : Leases)
      → now < start + ttl
      → Held l
      → Held (acquire ttl limits worker now new l).0
  unfolding acquire
  Held-acquire worker now new l before held =
      let clean =
        change_scopes (drop_expired now) new.campaign_id new.provider_name (evict now l) in
      let own : Owns lease (start + ttl) (clean.holders holder) =
        unfold change_scopes in Held-evict now l before held in
      elim (Option-cases (admit ttl limits worker now new clean).1) [
        | inr (reason, refused) ↦
            rw (admit_refused ttl limits worker now new clean reason refused) own
        | inl taken ↦
            let (_, _, _, idle, after) = admit_taken ttl limits worker now new clean taken in
            elim (Bool-cases (holder == new.holder_id)) [
              | inl on ↦ absurd (
                  let live =
                    Owns-is_live lease (start + ttl) now (clean.holders holder) before own in
                  cc (live, idle, (==_iff holder new.holder_id).0 on))
              | inr off ↦ rw after (unfold set_holder change_scopes in rw off own)
            ]
      ]

  Held-step :
      (now : ℕ) (op : Op) (l : Leases)
      → IsDuring start ttl lease (now, op)
      → Held l
      → Held (step ttl limits now op l)
  unfolding step
  Held-step now (acquire_op worker new) l d held = Held-acquire worker now new l d.before held
  Held-step now (renew_op other) l d held = elim (Bool-cases (renew ttl now other l).1) [
    | inr dead ↦ rw (renew_dead ttl now other l dead) (Held-evict now l d.before held)
    | inl live ↦ rw (renew_live ttl now other l live) (
        Owns-update_holder lease (start + ttl) other.lease_id other.holder_id holder
          (with_deadline (now + ttl))
          (change_scopes (extend other.lease_id (now + ttl)) other.campaign_id other.provider_name
            (evict now l))
          (unfold change_scopes in Held-evict now l d.before held)
          (λ _.
            Owns-with_deadline lease (start + ttl) (now + ttl) _ (omega (arith, d.after))
              (unfold change_scopes in Held-evict now l d.before held)))
  ]
  Held-step now (release_op other) l d held = rw (release-eq now other l) (
      Owns-update_holder lease (start + ttl) other.lease_id other.holder_id holder (λ _. none)
        (change_scopes (leave other.lease_id) other.campaign_id other.provider_name (evict now l))
        (unfold change_scopes in Held-evict now l d.before held)
        (λ released. absurd (ground (arith, d.keeps))))

  Held-run :
      (ops : List (ℕ × Op)) (l : Leases)
      → All (IsDuring start ttl lease) ops
      → Held l
      → Held (run ttl limits ops l)
  unfolding run
  Held-run [] l during held = held
  Held-run ((now, op) ∷ ops) l during held =
      Held-run ops (step ttl limits now op l) during.1 (Held-step now op l during.0 held)

-- Once a holder has a lease, then until the time of that lease is up, and whatever any workers
-- acquire, renew or release in between, other than releasing this lease: no further lease of the
-- same holder is given, under any campaign or provider.
pub acquire-duplicate_lease :
    (ttl : ℕ) (limits : Limits) (worker : Uuid) (start : ℕ) (lease : Lease) (l : Leases)
    → (acquire ttl limits worker start lease l).1 ≡ none
    → (ops : List (ℕ × Op)) → All (IsDuring start ttl lease.lease_id) ops
    → (other : Uuid) (now : ℕ) (new : Lease) → now < start + ttl
    → new.holder_id ≡ lease.holder_id
    → (acquire ttl limits other now new
        (run ttl limits ops (acquire ttl limits worker start lease l).0)).1
      ≡ some duplicate_lease
acquire-duplicate_lease ttl limits worker start lease l taken ops during other now new before
      same_holder =
    let owned = acquire_taken ttl limits worker start lease l taken in
    acquire-Held ttl limits start lease.lease_id lease.holder_id other now new _ before same_holder
      (Held-run ttl limits start lease.lease_id lease.holder_id ops _ during
        (rw owned.1 (unfold Owns in (refl, omega arith))))
