-- ===== src/Validators.antt =====
-- cmd/txsimulation/validators: the life of a simulated validator. `Managers` has the state and the
-- methods of its four managers, `Events` the search of the event log, `Process` the handler.
pub mod Events
pub mod Managers
pub mod Process
