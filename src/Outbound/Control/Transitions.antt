-- ===== src/Outbound/Control/Transitions.antt =====
-- Calls of the controls by any processes, one after the other.
use ai_calling_agent.Common.{
  ℕ, suc, ◌+◌, Bool, false, ◌&&◌, List, [], ◌∷◌, Option, ◌≡◌, if◌then◌else◌, length, keep, arith,
}
use ai_calling_agent.Common.Result.{Result, ok, err}
use ai_calling_agent.Common.Text.{Text}
use ai_calling_agent.Calling.Window.{Time}
use ai_calling_agent.Outbound.Control.{
  ControlKey, kill_switch, provider_halt, Controls, ControlError, same_key, is_engaged, engage,
  release,
}

-- A call by anyone: to engage, with an audit (as the provider halt does) or without one (as the kill
-- switch does), or to release. The first flag says whether the transaction is committed.
pub data ControlOp : Type 0 where
  engage_op : Bool → Time → ControlKey → Text → Option Text → Option Text → Bool → ControlOp
  release_op : Bool → Time → ControlKey → Text → ControlOp

abbrev answered_true : Result ControlError Bool → Bool
answered_true (ok b) = b
answered_true (err _) = false

unfoldable pub operate : ControlOp → Controls → Controls × Result ControlError Bool
operate (engage_op up now key actor reason category audited) c =
    engage up now key actor reason category audited c
operate (release_op up now key actor) c = release up now key actor c

-- The table after a list of calls, and how many of them were told that they engaged a key, or
-- released it.
unfoldable pub operate_all : List ControlOp → Controls → Controls
operate_all [] c = c
operate_all (op ∷ ops) c = operate_all ops (operate op c).0

abbrev engages : ControlKey → ControlOp → Bool
engages key (engage_op _ _ k _ _ _ _) = same_key k key
engages key (release_op _ _ _ _) = false

abbrev releases : ControlKey → ControlOp → Bool
releases key (engage_op _ _ _ _ _ _ _) = false
releases key (release_op _ _ k _) = same_key k key

unfoldable pub engaged_count : ControlKey → List ControlOp → Controls → ℕ
engaged_count key [] c = 0
engaged_count key (op ∷ ops) c =
    let rest = engaged_count key ops (operate op c).0 in
    if engages key op && answered_true (operate op c).1 then suc rest else rest

-- The call asks for an audit.
abbrev audits_it : ControlOp → Bool
audits_it (engage_op _ _ _ _ _ _ audited) = audited
audits_it (release_op _ _ _ _) = false

unfoldable pub audited_count : ControlKey → List ControlOp → Controls → ℕ
audited_count key [] c = 0
audited_count key (op ∷ ops) c =
    let rest = audited_count key ops (operate op c).0 in
    if engages key op && answered_true (operate op c).1 && audits_it op then suc rest else rest

unfoldable pub released_count : ControlKey → List ControlOp → Controls → ℕ
released_count key [] c = 0
released_count key (op ∷ ops) c =
    let rest = released_count key ops (operate op c).0 in
    if releases key op && answered_true (operate op c).1 then suc rest else rest

abbrev pub state_bit : ControlKey → Controls → ℕ
state_bit key c = if is_engaged (c.rows key) then 1 else 0

abbrev pub audit_count : ControlKey → Controls → ℕ
audit_count key c = length (keep (λ k. same_key k key) c.audits)

-- One call: the state of a key changes with the answer, and its audits with an engagement.
operate-balance :
    (key : ControlKey) (op : ControlOp) (c : Controls)
    → (state_bit key (operate op c).0
          + (if releases key op && answered_true (operate op c).1 then 1 else 0)
        ≡ state_bit key c + (if engages key op && answered_true (operate op c).1 then 1 else 0))
      × (audit_count key (operate op c).0
          ≡ audit_count key c
            + (if engages key op && answered_true (operate op c).1 && audits_it op then 1 else 0))
unfolding operate engage release
operate-balance kill_switch (engage_op up now kill_switch actor reason category audited) c =
    (ground arith, ground arith)
operate-balance kill_switch (engage_op up now provider_halt actor reason category audited) c =
    (ground arith, ground arith)
operate-balance provider_halt (engage_op up now kill_switch actor reason category audited) c =
    (ground arith, ground arith)
operate-balance provider_halt (engage_op up now provider_halt actor reason category audited) c =
    (ground arith, ground arith)
operate-balance kill_switch (release_op up now kill_switch actor) c = (ground arith, ground arith)
operate-balance kill_switch (release_op up now provider_halt actor) c = (ground arith, ground arith)
operate-balance provider_halt (release_op up now kill_switch actor) c = (ground arith, ground arith)
operate-balance provider_halt (release_op up now provider_halt actor) c =
    (ground arith, ground arith)

-- Of any calls by any processes, in whatever order, some of them failing and rolled back: those that were told that
-- they engaged a key and those that were told that they released it alternate, so that their numbers
-- differ by what the key's state was and is; and those of them that engaged it and brought an audit
-- have exactly one audit row each, and no other call has one.
pub operate_all-balance :
    (key : ControlKey) (ops : List ControlOp) (c : Controls)
    → (state_bit key (operate_all ops c) + released_count key ops c
        ≡ state_bit key c + engaged_count key ops c)
      × (audit_count key (operate_all ops c) ≡ audit_count key c + audited_count key ops c)
unfolding operate_all released_count engaged_count audited_count
operate_all-balance key [] c = (omega arith, omega arith)
operate_all-balance key (op ∷ ops) c =
    let here = operate-balance key op c in
    let later = operate_all-balance key ops (operate op c).0 in
    (ground (arith, here, later), ground (arith, here, later))
