-- ===== src/Server/Hostexec.antt =====
-- server/hostexec: a launcher that runs servers as child processes. What the system does (the child,
-- its pipes, the signals, the spool on the disk) is an event or a parameter of the model; what the
-- launcher makes of it is the code.
pub mod Buffer
pub mod Process
pub mod System
pub mod Launcher
mod Tests
