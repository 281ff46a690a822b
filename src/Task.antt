-- ===== src/Task.antt =====
-- worker.py: `_process_task`. The children hold its parts: who may run (Gate), what the handler is
-- called with (Call), its run (Run), the events that it emits (Event), what becomes of its result or
-- exception (Outcome), and the whole (Process).
pub mod Gate
pub mod Call
pub mod Outcome
pub mod Event
pub mod Run
pub mod Process
