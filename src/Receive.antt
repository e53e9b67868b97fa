-- ===== src/Receive.antt =====
-- Sources/CSMB/lib/socket.c: smb2_read_data, which takes a frame apart into the PDUs of a chain by
-- a machine of seven states (enum smb2_recv_state of Sources/CSMB/include/libsmb2-private.h). The
-- children hold the vectors that are read into, the decoding of a header, the end of a PDU, and
-- the loop.
pub mod State
pub mod Heading
pub mod Payload
pub mod Loop
pub mod Kept
pub mod Policy
pub mod Served
pub mod Delivered
pub mod Faults
mod Tests
