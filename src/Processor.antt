-- ===== src/Processor.antt =====
-- `JobProcessor` of src/versarr/application/services.py: one attempt at a job, and what the worker
-- does with its outcome. A call is a state transformer over the world that it changes; a raise keeps
-- what was written before it. What the attempt hears from the outside (the file system, the clock,
-- the tag reader, the provider) is a record of answers.
pub mod Monad
pub mod Inputs
pub mod Attempt
pub mod Worker
pub mod Effects
pub mod Outcomes
pub mod Settled
mod Tests
