-- ===== src/Wasm.antt =====
-- wasm_runtime.rs: the functions that the kernel gives to WebAssembly guests, and the delivery of
-- messages to them. `Guest` holds the data, `Run` what comes of code of a guest, `Calls` the host functions, `Deliver` the delivery, `Load`
-- the loading of a guest, `Demo` the demonstration of src/demos/wasm_tests.rs that uses them; the
-- others prove.
pub mod Guest
pub mod Run
pub mod Calls
pub mod Deliver
pub mod Bounds
pub mod Publish
pub mod Sending
pub mod Limits
pub mod Taking
pub mod Rounds
pub mod Delivery
pub mod Endless
pub mod Load
pub mod Isolation
pub mod Hosted
pub mod Demo
pub mod DemoEnds
