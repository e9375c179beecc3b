-- ===== src/Infrastructure.antt =====
-- ois/infrastructure: the services behind the kernel.
pub mod Fencing
pub mod Sources
