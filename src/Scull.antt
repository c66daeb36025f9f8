-- ===== src/Scull.antt =====
-- kernel_modules/scull.c.
pub mod Params
pub mod Device
pub mod Ioctl
pub mod Pipe
pub mod Access
pub mod Module
