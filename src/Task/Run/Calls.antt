-- ===== src/Task/Run/Calls.antt =====
-- What reaches the handler: the middlewares in their order, and the arguments by name.
use mathlib.Core.List.{foldr}
use avtomatika_worker.Base.{String, [], string_eq}
use avtomatika_worker.Base.Dict
use avtomatika_worker.Base.Dict.{Dict}
use avtomatika_worker.Json.{Json}
use avtomatika_worker.Task.Call.{call_kwargs}
use avtomatika_worker.Task.Run.{Setup, Callee, Chain, prepare_dependencies, available_context}

module _ {V X : Type 0} (s : Setup V X) (c : Callee V X) where
  -- The context that a handler's arguments come from.
  abbrev pub context_of : X → Dict String X
  context_of params = available_context s.values params (prepare_dependencies s.injected c.hints [])

  -- The middlewares around the call, the first one outermost.
  abbrev pub around : Dict String X → Chain X
  around context =
      foldr (λ mw rest. mw rest) (λ kwargs. c.call (call_kwargs X context c.parameters kwargs))
        s.middlewares
