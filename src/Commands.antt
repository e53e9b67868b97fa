-- ===== src/Commands.antt =====
-- Sources/CSMB/lib/smb2-cmd-*.c: the bodies of the commands. Each file has the encoders and the
-- makers of PDUs, smb2_cmd_*_async, for a request and a reply, and the parsers smb2_process_*.
pub mod Fields
pub mod Lookup
pub mod Vectors
pub mod Close
pub mod Lock
pub mod ChangeNotify
pub mod OplockBreak
pub mod Read
pub mod Write
pub mod Echo
pub mod Logoff
pub mod TreeDisconnect
pub mod Flush
pub mod TreeConnect
pub mod ErrorReply
pub mod Dispatch
pub mod RoundTrips
pub mod Answers
pub mod LeaseBreaks
mod Tests
pub mod Questions
pub mod Asked
pub mod Understood
