-- ===== src/Worker.antt =====
-- app/worker/main.py: one message of the queue, and the loop's reaction to its end. The messages of a
-- batch, which run concurrently, are processed one after the other here.
pub mod Process
pub mod Redelivery
pub mod Deletion
pub mod Loop
pub mod Liveness
pub mod Rounds
