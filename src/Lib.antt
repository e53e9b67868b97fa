-- ===== src/Lib.antt =====
-- The core of libsmb2 as this repository builds it: the C library under Sources/CSMB/lib.
--
-- The library speaks SMB 2 and 3 for a Swift application. A context holds the state of one session.
-- A command is a PDU: a chain of I/O vectors whose first holds the 64-byte header. The header's
-- encoder and decoder, and every marshaller, write and read integers by the accessors of an I/O
-- vector. The decoder selects a tree of the context's stack of connected trees; names go out as
-- UTF-16 and come in as UTF-16; the tokens of a session's set-up are wrapped in ASN.1 BER.
--
-- Files, and the code they model:
--   Common, Common/*    Boolean tests, lists by index, bits: no code.
--   Wire                struct smb2_iovec (Sources/CSMB/include/smb2/libsmb2.h), smb2_set_uint8
--                       to smb2_get_uint64 (Sources/CSMB/lib/pdu.c). Wire/Access has their laws.
--   Wire/Vectors        struct smb2_io_vectors (Sources/CSMB/include/libsmb2-private.h),
--                       smb2_add_iovector and smb2_free_iovector (Sources/CSMB/lib/init.c),
--                       smb2_pad_to_64bit (Sources/CSMB/lib/pdu.c).
--   Smb2, Smb2/*        struct smb2_header and the part of struct smb2_context that is used
--                       (Sources/CSMB/include/libsmb2-private.h), and constants.
--   Trees               smb2_select_tree_id, smb2_get_tree_id_for_pdu, smb2_set_tree_id_for_pdu,
--                       smb2_connect_tree_id, smb2_disconnect_tree_id (Sources/CSMB/lib/pdu.c).
--                       Trees/Stack compares them with the list of connected trees.
--   Header              smb2_encode_header, smb2_decode_header (Sources/CSMB/lib/pdu.c).
--   Unicode             Sources/CSMB/lib/unicode.c. Unicode/Scalars has UTF-8 and UTF-16 by the
--                       standard, over lists of scalars, which the other children compare it with.
--   Asn1, Asn1/Read, Asn1/Write
--                       Sources/CSMB/lib/asn1-ber.c: the context, the functions *_from_ber, the
--                       functions ber_from_*. The other children have their laws.
--   Pdu, Pdu/Queues, Pdu/Timeout
--                       smb2_allocate_pdu, smb2_add_compound_pdu, smb2_find_pdu, smb2_free_pdu,
--                       smb2_correlate_reply, smb2_timeout_pdus (Sources/CSMB/lib/pdu.c), the credit
--                       charge (Sources/CSMB/lib/socket.c) and the lists of
--                       Sources/CSMB/include/slist.h. A PDU's address is a number, a chain a list;
--                       a callback is taken not to change the queues. Pdu/Apart has the lemmas on
--                       addresses.
--   Socket              smb2_write_to_socket (Sources/CSMB/lib/socket.c). The calls of writev are a
--                       list of what the kernel does: it has room for some bytes, is full, or
--                       breaks; a call past the end of that list is one that would block. The array of
--                       vectors has SMB2_MAX_VECTORS entries, and a write past them is a result.
--                       Socket/Frame has the bytes of a frame, Socket/Flow what a client's states
--                       have in common, Socket/Step one round, Socket/Send and Socket/Drain all.
--   Signing             Sources/CSMB/lib/smb2-signing.c. The block cipher and the keyed digest are
--                       parameters, of which nothing is assumed.
--   Ccm                 Sources/CSMB/lib/aes128ccm.c, with the block cipher as a parameter.
--   Receive             smb2_read_data, smb2_read_from_socket, smb2_read_from_buf
--                       (Sources/CSMB/lib/socket.c) and smb3_decrypt_pdu (Sources/CSMB/lib/smb3-seal.c).
--                       Receive/State has the vectors that are read into, Receive/Heading the states
--                       up to a header, Receive/Payload those behind it, Receive/Loop the rounds. What
--                       the calls of readv meet is a list; the parsers of the bodies, the callbacks and
--                       memory are the fields of an Environment. The other children have the policy
--                       on signatures and the faults.
--   Seal                smb3_encrypt_pdu (Sources/CSMB/lib/smb3-seal.c); the bytes of random() are a
--                       parameter. Seal/Opened composes it with the receiver.
--   Commands            Sources/CSMB/lib/smb2-cmd-*.c: a file for each command with its encoders, its
--                       smb2_cmd_*_async and its smb2_process_*. Commands/Fields has what they share,
--                       Commands/Lookup and Commands/Vectors its laws, Commands/Dispatch
--                       smb2_process_*_payload_fixed (Sources/CSMB/lib/pdu.c). A payload that is parsed is
--                       a result.
--   Files               Sources/CSMB/lib/libsmb2.c: smb2_pread_async, smb2_pwrite_async, smb2_lseek,
--                       smb2_fsync_async, smb2_close_async and their callbacks. Files/Open has
--                       smb2_open_async and open_cb; the other children compare reading with the
--                       file and seeking with positions.
--   Directories         Sources/CSMB/lib/libsmb2.c: decode_dirents, query_cb, od_close_cb,
--                       smb2_seekdir, smb2_telldir, smb2_rewinddir, smb2_readdir, and
--                       smb2_decode_fileidfulldirectoryinformation
--                       (Sources/CSMB/lib/smb2-cmd-query-directory.c). The loop over the entries has
--                       fuel, and running out of it is an outcome of its own. Directories/Position has
--                       the states an application reaches, Directories/Chains where decoding ends.
--   Errors              nterror_to_errno (Sources/CSMB/lib/errors.c).
--   Timestamps          Sources/CSMB/lib/timestamps.c.
--
-- A C function is a function of the state that it is given to the results and the new state; a
-- status of 0 or -1 is a Status or an Option. A buffer is the list of its bytes. A value of a w-bit
-- type is a number below 2 ^ w, and what wraps is written out. Error messages, allocation and
-- freeing are left out, and a machine of little-endian order is assumed where a union shows it.
--
-- Loops with fuel: l1 shifts a byte, eight rounds leave 0 and the fuel is 9; validate_utf8_str and
-- smb2_utf8_to_utf16 take at least a byte or write at least a unit in a round, and their fuel is the
-- number of these; the search of the tree stack has at most 32 rounds; the counts of bytes in
-- asn1-ber.c have at most four or eight rounds; the loops of aes128ccm.c take at least a byte in a
-- round. A round of smb2_read_data uses up one call of readv, so that smb2_read_from_socket has as
-- many rounds as there are calls, and one more; a sealed text within another is shorter by a transform
-- header at least, and smb3_decrypt_pdu has the length of the frame as its fuel. The loop of
-- asn1-ber.c that counts the bytes of a negative number and the loop over the entries of a directory
-- have their fuel as an argument, and running out of it is an outcome of its own, `diverged` and
-- `unfinished`. One round is enough for the first where it ends, and for the second one more than the
-- reply has bytes, where no entry points 2 GiB ahead.
--
-- Not modelled: smb2_queue_pdu, connecting, the bodies of negotiate, session set-up, create, query
-- directory, query info, set info and ioctl, URLs, opening a directory, the operations on paths,
-- DCE/RPC, NTLM, SPNEGO; the digests and ciphers, which are copies of other projects; the texts of the
-- errors; the platform layer; the Swift adapter.
pub mod Asn1
pub mod Ccm
pub mod Commands
pub mod Common
pub mod Directories
pub mod Errors
pub mod Files
pub mod Header
pub mod Pdu
pub mod Receive
pub mod Seal
pub mod Signing
pub mod Smb2
pub mod Socket
pub mod Timestamps
pub mod Trees
pub mod Unicode
pub mod Wire
