-- ===== src/Task/Gate/Admits.antt =====
-- Which tasks pass the checks.
use avtomatika_worker.Base.{
  String, ◌≡◌, ◌≢◌, Bool, true, false, none, some, List, arith, contains, string_eq, if◌then◌else◌,
}
use avtomatika_worker.Task.Gate.{
  Policy, Signed, admitted, bad_signature, not_permitted, payload_sig, permits, check_task,
}

module _ (secret : String) (verify : Signed → String → String → Bool) (t : Signed) where
  -- With a secret, a task whose signature is there and wrong is rejected, whatever its policy is.
  pub wrong_signature_rejected :
      (s : String)
      → secret ≢ ""
      → payload_sig t ≡ some s
      → s ≢ ""
      → verify t s secret ≡ false
      → check_task secret verify t ≡ bad_signature
  unfolding check_task
  wrong_signature_rejected s has_secret is_signed filled wrong = ground arith

  -- A task that passes the checks keeps to its policy: where the policy lists skills, the task's
  -- is among them.
  pub admitted_is_permitted :
      (p : Policy) (names : List String)
      → check_task secret verify t ≡ admitted
      → t.policy ≡ some p
      → p.allowed_skills ≡ some names
      → contains names t.skill_name ≡ true
  unfolding check_task permits
  admitted_is_permitted p names ok is_p is_names = ground arith

  -- A task without a signature passes or fails on its policy alone, whatever secret is configured.
  pub unsigned_passes_on_policy :
      t.sig ≡ none
      → t.orchestrator_signature ≡ none
      → check_task secret verify t
        ≡ (if permits t.policy t.skill_name then admitted else not_permitted)
  unfolding check_task
  unsigned_passes_on_policy no_sig no_orchestrator_sig = ground arith
