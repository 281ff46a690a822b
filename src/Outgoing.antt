-- ===== src/Outgoing.antt =====
-- worker.py: what skills and users send on their own: `OrchestratorClient.call_skill`
-- and `Worker.emit_event`.
use mathlib.Core.List.{append_assoc, append-nil}
use avtomatika_worker.Base.{
  ℕ, String, ◌<>◌, ◌≡◌, sym, ◌∙◌, true, Option, none, some, List, [], ◌∷◌, ◌++◌, map, leb,
  if◌then◌else◌,
}
use avtomatika_worker.Json.{Json, str, bool, obj, field, end}
use avtomatika_worker.Task.Call.{Try, ok, raise, other, ◌>>=◌}
use avtomatika_worker.Config.{Orchestrator}
use avtomatika_worker.Offload.{Effect, Called}

-- What an HTTP request gives; its body as text and as JSON, which may raise.
pub record HttpReply : Type 0 where
  pub status : ℕ
  pub text : Try String
  pub json : Try Json

-- The transport of a skill's client: HTTP, with its address and `post` over the address, the body and
-- the transport's headers; or another one.
pub record HttpTransport : Type 0 where
  pub base_url : String
  pub post : String → Json → Try HttpReply
  pub status_text : ℕ → String

abbrev pub mocked_answer : String → Json → Json
mocked_answer skill_name params = obj (
    field "status" (str "success") (
      field "data"
        (obj
          (field "mocked" (bool true) (field "skill" (str skill_name) (field "params" params end))))
        end))

abbrev pub answer_of : HttpTransport → HttpReply → Try Json
answer_of t r =
    if leb 400 r.status
    then r.text >>= (λ text.
      raise (other ("Orchestrator returned HTTP " <> t.status_text r.status <> ": " <> text)))
    else r.json

-- `call_skill`
unfoldable pub call_skill : Option HttpTransport → String → Json → Try Json
call_skill none skill_name params = ok (mocked_answer skill_name params)
call_skill (some t) skill_name params =
    t.post (t.base_url <> "/skills/call")
      (obj (field "skill_name" (str skill_name) (field "params" params end)))
    >>= answer_of t

-- `emit_event`: every client is asked, and what it raises is a value of `gather`.
unfoldable pub emit_event : {S : Type 0} → (ℕ → Effect S Unit) → List (Orchestrator × ℕ) → S → S
emit_event emit [] s = s
emit_event emit ((o, client) ∷ clients) s = emit_event emit clients (emit client s).0

-- A client that is asked is noted, whatever it raises.
abbrev pub noted : (ℕ → Called) → ℕ → Effect (List ℕ) Unit
noted reply client asked = (asked ++ (client ∷ []), reply client)

asked_after :
    (reply : ℕ → Called) (clients : List (Orchestrator × ℕ)) (asked : List ℕ)
    → emit_event (noted reply) clients asked ≡ asked ++ map (λ (o, client). client) clients
unfolding emit_event
asked_after reply [] asked = sym (append-nil asked)
asked_after reply ((o, client) ∷ clients) asked =
    asked_after reply clients (asked ++ (client ∷ []))
    ∙ append_assoc asked (client ∷ []) (map (λ (o, client). client) clients)

-- An event goes to every client once, in their order, whichever of them fail.
pub emit_event_asks_all :
    (reply : ℕ → Called) (clients : List (Orchestrator × ℕ))
    → emit_event (noted reply) clients [] ≡ map (λ (o, client). client) clients
emit_event_asks_all reply clients = asked_after reply clients []
