-- ===== src/Shell.antt =====
-- common/main.c and common/command.c: the line that is typed, its macros and its arguments, and the
-- command that it names.
pub mod Readline
pub mod Parse
pub mod Macros
pub mod Run
pub mod Autoboot
pub mod Main
mod Tests
