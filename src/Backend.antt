-- ===== src/Backend.antt =====
-- corRestBackendBuiltin.c: the built-in server. The engine below it (corHttp), the threads and the
-- coroutines are not of this repository: what they answer is an argument.
pub mod Start
pub mod Receive
pub mod Finish
