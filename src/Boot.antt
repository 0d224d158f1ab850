-- ===== src/Boot.antt =====
-- main.rs: what the kernel does once its parts are initialised. `SelfTest` is the test of the
-- capability system, `Launch` the creation of the first tasks, `Exchange` the two tasks among them
-- that talk to each other, `Measure` the one that measures switches. `Privileges` proves what the first tasks may do; `Turns`, `Progress` and
-- `Arrival` prove what comes of the messages.
pub mod Measure
pub mod SelfTest
pub mod Launch
pub mod Exchange
pub mod Privileges
pub mod Turns
pub mod Progress
pub mod Arrival
