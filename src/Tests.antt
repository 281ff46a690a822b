-- ===== src/Tests.antt =====
-- Runs of the models at concrete inputs, and each theorem at an input that meets its hypotheses.
mod Load
mod Scheduler
mod Requests
mod Beats
mod Skills
mod Task
mod Session
mod Offload
mod Events
mod Start
mod Lifecycle
mod Clients
mod Registration
mod Config
mod Manager
mod Decorators
mod TaskFiles
mod Blob
mod Boot
mod CommandLine
