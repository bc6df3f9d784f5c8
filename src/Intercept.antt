-- ===== src/Intercept.antt =====
-- lib/memintercept.c, lib/memintercept-utils.c: the library in the profiled program.
pub mod Output
pub mod Written
pub mod Printf
pub mod Rendered
pub mod Calls
pub mod Agent
pub mod Numbers
pub mod Frames
pub mod Tests
