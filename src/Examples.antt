-- ===== src/Examples.antt =====
-- Concrete runs of the modelled code of engine/bjvm/vm, and the theorems at concrete inputs.
pub mod Monitors
pub mod Threads
pub mod Frames
pub mod Switches
pub mod Types
pub mod Tables
pub mod Coding
pub mod Classes
pub mod Parsing
pub mod Collections
pub mod Numbers
