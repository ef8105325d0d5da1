-- ===== src/Zero.antt =====
-- libraries/ZERO_MOTORCYCLE: the messages of the motorcycle's CAN bus (Network.h), the tests and
-- decoders of class Zero (ZERO.h, ZERO.cpp, unions.h), and its logger.
pub mod Network
pub mod Predicates
pub mod Decode
pub mod Logger
pub mod MessageTable
pub mod FrameLayout
pub mod CobIds
pub mod Old
pub mod SameLog
mod Tests
