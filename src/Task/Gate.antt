-- ===== src/Task/Gate.antt =====
-- worker.py: the checks at the head of `_process_task`, which raise PermissionError before the `try`.
pub mod Admits
use avtomatika_worker.Base.{
  String, Bool, true, false, not, ◌&&◌, Option, none, some, List, contains, ◌==◌, string_eq,
  if◌then◌else◌,
}
use avtomatika_worker.Worker.{is_truthy}

-- A task's `policy`, if it has one that is true: its `allowed_skills`, a list or None.
pub record Policy : Type 0 where
  pub allowed_skills : Option (List String)

-- What the checks read of rxon's `TaskPayload`.
pub record Signed : Type 0 where
  pub skill_name : String
  pub sig : Option String
  pub orchestrator_signature : Option String
  pub policy : Option Policy

pub data Gate : Type 0 where
  admitted : Gate
  bad_signature : Gate
  not_permitted : Gate

-- `task_payload.sig or getattr(task_payload, "orchestrator_signature", None)`
abbrev pub payload_sig : Signed → Option String
payload_sig t = if is_truthy t.sig then t.sig else t.orchestrator_signature

-- `if allowed_skills is not None and skill_name not in allowed_skills`
unfoldable pub permits : Option Policy → String → Bool
permits none name = true
permits (some p) name = elim p.allowed_skills [ none ↦ true | some names ↦ contains names name ]

-- Both checks. `secret` is the value of ORCHESTRATOR_SECRET_KEY, "" if it is not set, and `verify`
-- is rxon's `verify_signature` for the task, a signature and the secret.
unfoldable pub check_task : String → (Signed → String → String → Bool) → Signed → Gate
check_task secret verify t =
    let signed_badly : Bool = elim (payload_sig t) [
      | none ↦ false
      | some s ↦ not (s == "") && not (verify t s secret)
    ] in
    if not (secret == "") && signed_badly
    then bad_signature
    else if permits t.policy t.skill_name
    then admitted
    else not_permitted
