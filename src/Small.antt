-- ===== src/Small.antt =====
-- The sketches of a few lines: an engine sound, the setup of serial CAN modules, the opening of a
-- contactor, the voltage on the dash, the printers of frames, the fixed heartbeats, and a difference.
pub mod Sound
pub mod Pitch
pub mod Baud
pub mod Scan
pub mod Contactor
pub mod Dash
pub mod Latest
pub mod Printer
pub mod Heartbeats
pub mod Difference
mod Tests
