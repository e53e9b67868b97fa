-- ===== src/Header.antt =====
-- Sources/CSMB/lib/pdu.c: smb2_encode_header and smb2_decode_header.
pub mod RoundTrip
mod Buffer
mod Tests
use photo_transfer_nativesmb.Common.{
  ℕ, zero, suc, ◌+◌, ◌-◌, ◌*◌, ◌%◌, ◌^◌, List, [], ◌∷◌, Bool, true, false, ◌&&◌, get_or, set,
  replicate, ltb, ◌==◌, not, if◌then◌else◌, Option, none, some, bit_and,
}
use photo_transfer_nativesmb.Wire.{
  put_bytes, get_bytes, Iovec, Status, ok, fail, set_uint16, set_uint32, set_uint64, get_uint16,
  get_uint32, get_uint64,
}
use photo_transfer_nativesmb.Smb2.Command
use photo_transfer_nativesmb.Smb2.Flags
use photo_transfer_nativesmb.Smb2.{Header, Context, header_size, process_id, tree_id}
use photo_transfer_nativesmb.Trees.{is_treeless, select_tree_id}

-- `!memcmp(xs, ys, n)` for two lists of `n` bytes.
unfoldable pub same_bytes : List ℕ → List ℕ → Bool
same_bytes [] [] = true
same_bytes (x ∷ xs) (y ∷ ys) = x == y && same_bytes xs ys
same_bytes _ _ = false

abbrev pub smb2_sign : List ℕ
smb2_sign = 0xFE ∷ b'S' ∷ b'M' ∷ b'B' ∷ []

abbrev pub smb1_sign : List ℕ
smb1_sign = 0xFF ∷ b'S' ∷ b'M' ∷ b'B' ∷ []

-- A client numbers the message, and reserves an id for each further credit that it charges.
unfoldable pub take_message_id : Context → Header → Context × Header
take_message_id c h =
    let next = (c.message_id + 1) % 2 ^ 64 in
    let past = if ltb 1 h.credit_charge then (next + (h.credit_charge - 1)) % 2 ^ 64 else next in
    if c.is_server
    then (c, h)
    else (record c { message_id = past }, record h { message_id = c.message_id })

-- The writes of `smb2_encode_header` in order; the statuses of the setters are dropped as there.
unfoldable pub write_header : Iovec → Header → Iovec
unfolding put_bytes set_uint16 set_uint32 set_uint64
write_header iov h =
    let iov = record iov { buf = put_bytes iov.buf 0 h.protocol_id } in
    let (s, iov) = set_uint16 iov 4 h.struct_size in
    let (s, iov) = set_uint16 iov 6 h.credit_charge in
    let (s, iov) = set_uint32 iov 8 h.status in
    let (s, iov) = set_uint16 iov 12 h.command in
    let (s, iov) = set_uint16 iov 14 h.credit_request_response in
    let (s, iov) = set_uint32 iov 16 h.flags in
    let (s, iov) = set_uint32 iov 20 h.next_command in
    let (s, iov) = set_uint64 iov 24 h.message_id in
    let iov =
      if not (bit_and h.flags Flags.async_command == 0)
      then (set_uint64 iov 32 h.async_sync).1
      else (set_uint32 (set_uint32 iov 32 (process_id h)).1 36 (tree_id h)).1 in
    let (s, iov) = set_uint64 iov 40 h.session_id in
    record iov { buf = put_bytes iov.buf 48 h.signature }

unfoldable pub encode_header : Context → Iovec → Header → Context × Iovec × Header
unfolding take_message_id write_header
encode_header c iov h = let (c', h') = take_message_id c h in (c', write_header iov h', h')

-- `*value` keeps what it held where a getter fails.
abbrev pub or_old : Option ℕ → ℕ → ℕ
or_old none old = old
or_old (some v) old = v

-- The reads of `smb2_decode_header` up to the message id, and its last two.
unfoldable pub read_header : Iovec → Header → Header
unfolding get_bytes get_uint16 get_uint32 get_uint64
read_header iov old =
    let flags = or_old (get_uint32 iov 16) old.flags in
    let pid = or_old (get_uint32 iov 32) (process_id old) in
    let tid = or_old (get_uint32 iov 36) (tree_id old) in
    record {
      protocol_id = get_bytes 4 iov.buf 0;
      struct_size = or_old (get_uint16 iov 4) old.struct_size;
      credit_charge = or_old (get_uint16 iov 6) old.credit_charge;
      status = or_old (get_uint32 iov 8) old.status;
      command = or_old (get_uint16 iov 12) old.command;
      credit_request_response = or_old (get_uint16 iov 14) old.credit_request_response;
      flags = flags;
      next_command = or_old (get_uint32 iov 20) old.next_command;
      message_id = or_old (get_uint64 iov 24) old.message_id;
      async_sync =
          if not (bit_and flags Flags.async_command == 0)
          then or_old (get_uint64 iov 32) old.async_sync
          else pid + tid * 2 ^ 32;
      session_id = or_old (get_uint64 iov 40) old.session_id;
      signature = get_bytes 16 iov.buf 48;
    }

-- `memset(hdr, 0, sizeof *hdr)` and the command of an SMB1 negotiate.
unfoldable pub smb1_header : Header
smb1_header = record {
  protocol_id = replicate 4 0;
  struct_size = 0;
  credit_charge = 0;
  status = 0;
  command = Command.smb1_negotiate;
  credit_request_response = 0;
  flags = 0;
  next_command = 0;
  message_id = 0;
  async_sync = 0;
  session_id = 0;
  signature = replicate 16 0;
}

-- What a decoded header changes in the context: a request that is sent on a tree selects it (the
-- status is dropped), and a server remembers the message id.
unfoldable pub note_header : Context → Header → Context
unfolding is_treeless select_tree_id
note_header c h =
    let c' =
      if bit_and h.flags Flags.async_command == 0
        && bit_and h.flags Flags.server_to_redir == 0
        && not (is_treeless h.command)
      then (select_tree_id c (tree_id h)).1
      else c in
    if c'.is_server then record c' { message_id = h.message_id } else c'

unfoldable pub decode_header : Context → Iovec → Header → Status × Context × Header
unfolding same_bytes get_bytes read_header smb1_header note_header
decode_header c iov old =
    let h = read_header iov old in
    if ltb iov.len header_size
    then (fail, c, old)
    else (if same_bytes (get_bytes 4 iov.buf 0) smb1_sign
        then (if get_or iov.buf 4 0 == Command.smb1_negotiate
            then (ok, c, smb1_header)
            else (fail, c, old))
        else (if same_bytes (get_bytes 4 iov.buf 0) smb2_sign
            then (ok, note_header c h, h)
            else (fail, c, old)))
