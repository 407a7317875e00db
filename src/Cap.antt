-- ===== src/Cap.antt =====
-- Capabilities: the table of a process (kernel/cap/src/lib.rs, kernel/cap/cap.h), the policy files
-- (kernel/cap/cap_policy.c), what exec and spawn grant (kernel/syscall/sys_exec.c) and the calls that
-- pass capabilities on (kernel/syscall/sys_cap.c).
pub mod Kind
pub mod Table
pub mod Grant
pub mod Rights
pub mod Exec
pub mod Calls
pub mod Room
pub mod Authority
pub mod Spawn
pub mod Runtime
pub mod Names
pub mod Policy
pub mod Line
pub mod Parse
pub mod Text
pub mod Lines
pub mod Load
pub mod Image
pub mod Found
pub mod Executed
mod Tests
