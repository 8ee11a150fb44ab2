-- ===== src/Barrier/Arrival.antt =====
-- src/barrier.rs: what threads know of the queue of a barrier, as a linked list, while others push to
-- it. `Roles` has what a thread may rely on, `Knowledge` what follows from its phase; `Waits` and
-- `Counting` how the queue moves, `Steps`, `Pushing`, `Locked` and `Holding` how memory and roles do;
-- `Rules` carries the moves to the code, which `Linking`, `Completing` and `Waiting` go through;
-- `Rendezvous` and `Queued` have the results.
pub mod Roles
pub mod Knowledge
pub mod Waits
pub mod Counting
pub mod Steps
pub mod Pushing
pub mod Locked
pub mod Holding
pub mod Rules
pub mod Linking
pub mod Completing
pub mod Waiting
pub mod Rendezvous
pub mod Queued
