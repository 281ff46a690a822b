-- ===== src/Commands.antt =====
-- worker.py: the commands that a WebSocket brings (`_listen_to_single_transport`, `on_command`), and
-- `_manage_token_rotation`.
pub mod Tokens
use avtomatika_worker.Base.{
  ℕ, zero, suc, ◌*◌, String, Bool, true, false, Option, none, some, List, [], ◌∷◌, min, max, ◌==◌,
  string_eq, if◌then◌else◌,
}
use avtomatika_worker.Base.Dict
use avtomatika_worker.Base.Dict.{Dict}

-- rxon's command, as far as the listener reads it.
pub record Command : Type 0 where
  pub command : String
  pub task_id : String

-- `_active_tasks` and `_command_handlers`, whose values are named by numbers.
pub record Listener : Type 0 where
  pub active_tasks : Dict String ℕ
  pub command_handlers : Dict String ℕ

-- `on_command(name)(func)`
unfoldable pub on_command : String → ℕ → Listener → Listener
on_command command_name func l = record l {
  command_handlers = Dict.insert command_name func l.command_handlers;
}

-- What a command does: it cancels a task, calls a handler, or neither. An exception of a handler is
-- logged.
pub data Effect : Type 0 where
  cancels : ℕ → Effect
  calls : ℕ → Effect
  unknown_task : Effect
  unknown_command : Effect

unfoldable pub on_message : String → Command → Listener → Effect
on_message cancel_task c l =
    if c.command == cancel_task
    then elim (Dict.lookup c.task_id l.active_tasks) [ none ↦ unknown_task | some t ↦ cancels t ]
    else elim (Dict.lookup c.command l.command_handlers) [
      | none ↦ unknown_command
      | some f ↦ calls f
    ]

-- What `refresh_token` does for a client: it raises, gives nothing, or gives a token with the seconds
-- that it is good for.
pub data Refresh : Type 0 where
  failed : Refresh
  nothing : Refresh
  token : String → ℕ → Refresh

-- The loop over the clients, with WORKER_TOKEN and `min_expires_in`.
unfoldable pub refresh_all : List Refresh → String → ℕ → String × ℕ
refresh_all [] worker_token min_expires_in = (worker_token, min_expires_in)
refresh_all (failed ∷ rs) worker_token min_expires_in = refresh_all rs worker_token min_expires_in
refresh_all (nothing ∷ rs) worker_token min_expires_in = refresh_all rs worker_token min_expires_in
refresh_all (token t expires_in ∷ rs) worker_token min_expires_in =
    refresh_all rs t (min min_expires_in expires_in)

-- A round of the `while`: the new WORKER_TOKEN, and the sleep after it in milliseconds.
unfoldable pub rotate_tokens : List Refresh → String → String × ℕ
rotate_tokens rs worker_token =
    let (new_token, min_expires_in) = refresh_all rs worker_token 3600 in
    (new_token, max 60000 (min_expires_in * 800))
