-- ===== src/Framer.antt =====
-- util_lib/generic_framer: streams of bytes cut into frames.
pub mod Defs
pub mod Spec
pub mod Fill
pub mod Refine
pub mod Rounds
pub mod Theorems
pub mod Frames
pub mod Streams
pub mod Four
mod FourBounds
mod FourHeader
mod FourTests
mod Tests
pub mod Variants
