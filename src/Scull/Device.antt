-- ===== src/Scull/Device.antt =====
-- The bare device of kernel_modules/scull.c: quantum sets, trim, follow, read, write, llseek, open.
pub mod Defs
pub mod Io
pub mod Follow
pub mod Place
pub mod Cells
pub mod Wrote
pub mod Positions
pub mod Write
pub mod Shape
pub mod Read
pub mod RoundTrip
pub mod Late
pub mod Calls
pub mod Run
mod Tests
