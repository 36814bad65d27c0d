-- ===== src/Tests.antt =====
-- Each main theorem at a concrete input of the program, by component.
mod Commands
mod Logins
mod Sensors
mod Serials
mod Settings
mod Https
mod Hooks
mod Runtimes
mod Loops
mod Incoming
