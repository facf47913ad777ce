-- ===== src/Transport/Connection.antt =====
-- crates/xfer-transport/src/utp_connection.rs: the uTP connection. `State` has its data and stream
-- API, `Output` the encoding of outgoing packets, `Congestion` the timers and windows, `Receive` and
-- `Acknowledge` the two halves of an incoming packet, `Handle` the dispatch on its type, and `Tick`
-- the timer-driven half. The other modules hold the proofs: Frame, Progress and Life on the state over
-- whole runs, Reassembly and Reordering on received data, Sending, Releasing and Acknowledging on the
-- send queue, Control and Handshake on the packets between two ends.
pub mod State
pub mod Output
pub mod Congestion
pub mod Receive
pub mod Acknowledge
pub mod Handle
pub mod Tick
pub mod Frame
pub mod Progress
pub mod Life
pub mod Reassembly
pub mod Reordering
pub mod Sending
pub mod Releasing
pub mod Acknowledging
pub mod Control
pub mod Handshake
