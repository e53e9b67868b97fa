-- ===== src/Header/RoundTrip.antt =====
-- A header that smb2_encode_header wrote is decoded by smb2_decode_header to the same header.
use photo_transfer_nativesmb.Common.{ℕ, ◌<◌, ◌^◌, ◌≡◌, ◌≢◌, bit_and, arith, length, get_or}
use native.Mathlib.Decide.{ℕ_discrete}
use photo_transfer_nativesmb.Wire.{get_le, put_le, Iovec, ok, get_bytes}
use photo_transfer_nativesmb.Smb2.{Header, Context, header_size}
use photo_transfer_nativesmb.Smb2.Flags
use photo_transfer_nativesmb.Header.Buffer.{tabulate, tabulate-get_or}
use photo_transfer_nativesmb.Header.{
  write_header, read_header, encode_header, decode_header, take_message_id, note_header, smb2_sign,
  same_bytes,
}

-- Every field fits its width, and the protocol id is that of SMB2.
pub record IsWire (h : Header) : Type 0 where
  pub magic : h.protocol_id ≡ smb2_sign
  pub struct_size : h.struct_size < 2 ^ 16
  pub credit_charge : h.credit_charge < 2 ^ 16
  pub status : h.status < 2 ^ 32
  pub command : h.command < 2 ^ 16
  pub credit_request_response : h.credit_request_response < 2 ^ 16
  pub flags : h.flags < 2 ^ 32
  pub next_command : h.next_command < 2 ^ 32
  pub message_id : h.message_id < 2 ^ 64
  pub async_sync : h.async_sync < 2 ^ 64
  pub session_id : h.session_id < 2 ^ 64
  pub signature : length h.signature ≡ 16

module _ (f g : ℕ → ℕ) (h old : Header) (w : IsWire h) (s : h.signature ≡ tabulate 16 g) where
  abbrev iov0 : Iovec
  unfolding tabulate
  iov0 = record { buf = tabulate 64 f; len = 64 }

  read-write_sync :
      bit_and h.flags Flags.async_command ≡ 0 → read_header (write_header iov0 h) old ≡ h
  unfolding write_header read_header tabulate put_le get_le
  read-write_sync fl = ground arith

  read-write_async :
      bit_and h.flags Flags.async_command ≢ 0 → read_header (write_header iov0 h) old ≡ h
  unfolding write_header read_header tabulate put_le get_le
  read-write_async fl = ground arith

  -- The first four bytes are the protocol id, and the length is the header's.
  write_header_front :
      (get_bytes 4 (write_header iov0 h).buf 0 ≡ smb2_sign) × ((write_header iov0 h).len ≡ 64)
  unfolding write_header read_header tabulate put_le get_le
  write_header_front = elim (ℕ_discrete (bit_and h.flags Flags.async_command) 0) [
    | yes e ↦ ground arith
    | no e ↦ ground arith
  ]

-- A 64-byte vector.
pub record IsHeaderSized (iov : Iovec) : Type 0 where
  pub len : iov.len ≡ header_size
  pub size : length iov.buf ≡ header_size

read-write :
    (iov : Iovec) (h old : Header)
    → IsHeaderSized iov
    → IsWire h
    → (read_header (write_header iov h) old ≡ h)
      × (get_bytes 4 (write_header iov h).buf 0 ≡ smb2_sign)
      × ((write_header iov h).len ≡ 64)
unfolding tabulate
read-write iov h old v w = rw canon (whole, front.0, front.1)
  where
    f : ℕ → ℕ
    f i = get_or iov.buf i 0

    g : ℕ → ℕ
    g i = get_or h.signature i 0

    sig : h.signature ≡ tabulate 16 g
    sig = tabulate-get_or h.signature 16 w.signature

    canon : iov ≡ iov0 f g h old w sig
    canon i = record { buf = tabulate-get_or iov.buf 64 v.size i; len = v.len i }

    whole : read_header (write_header (iov0 f g h old w sig) h) old ≡ h
    whole = elim (ℕ_discrete (bit_and h.flags Flags.async_command) 0) [
      | yes e ↦ read-write_sync f g h old w sig e
      | no e ↦ read-write_async f g h old w sig e
    ]

    front :
        (get_bytes 4 (write_header (iov0 f g h old w sig) h).buf 0 ≡ smb2_sign)
        × ((write_header (iov0 f g h old w sig) h).len ≡ 64)
    front = write_header_front f g h old w sig

take_message_id-IsWire :
    (c : Context) (h : Header) → c.message_id < 2 ^ 64 → IsWire h → IsWire (take_message_id c h).1
unfolding take_message_id
take_message_id-IsWire c h m w = ground arith

-- A header whose fields fit their widths is written by `smb2_encode_header` into a 64-byte vector,
-- whatever that held, so that `smb2_decode_header` succeeds on it and returns the header with the
-- message id that was assigned; the receiving context notes that header, and the receiver's old
-- header does not show through.
pub decode_header-encode_header :
    (c c' : Context) (iov : Iovec) (h old : Header)
    → c.message_id < 2 ^ 64
    → IsHeaderSized iov
    → IsWire h
    → let (d, iov', h') = encode_header c iov h in
      decode_header c' iov' old ≡ (ok, note_header c' h', h')
unfolding encode_header decode_header same_bytes
decode_header-encode_header c c' iov h old m v w =
    ground (arith, read-write iov (take_message_id c h).1 old v (take_message_id-IsWire c h m w))
