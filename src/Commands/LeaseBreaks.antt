-- ===== src/Commands/LeaseBreaks.antt =====
-- Sources/CSMB/lib/smb2-cmd-oplock-break.c: what a server reads of a client's acknowledgements.
use photo_transfer_nativesmb.Common.{
  ℕ, zero, suc, ◌+◌, ◌*◌, ◌<◌, ◌≤◌, ◌^◌, ◌≡◌, refl, sym, ap, ◌∙◌, List, [], ◌∷◌, length, some,
  arith, get_or, true, replicate,
}
use mathlib.Core.Path.{ap₂}
use photo_transfer_nativesmb.Wire.{Iovec, get_bytes, get_uint, get_le}
use photo_transfer_nativesmb.Socket.{drop}
use photo_transfer_nativesmb.Commands.Fields.{Field, body, read_field}
use photo_transfer_nativesmb.Commands.Lookup.{
  is_clear, write_fields_len, uint_at, cut, read_field-body, get_bytes-body, read_field_clear,
}
use photo_transfer_nativesmb.Commands.OplockBreak.{
  LeaseBreak, lease_acknowledge, lease_break_ack_fields, process_oplock_break_request_fixed,
  process_oplock_break_request_variable, read_lease,
}

-- The bytes behind the first two, as the vector for the variable part has them.
abbrev pub behind_size : ℕ → Iovec → Iovec
behind_size len io = record { buf = drop 2 io.buf; len = len }

get_or-drop : (b : List ℕ) (i : ℕ) → get_or (drop 2 b) i 0 ≡ get_or b (i + 2) 0
unfolding drop
get_or-drop [] i = refl
get_or-drop (x ∷ []) i = ap (λ (k : ℕ). get_or (x ∷ []) k 0) (two i)
  where
    two : (i : ℕ) → suc (suc i) ≡ i + 2
    two i = omega arith
get_or-drop (x ∷ y ∷ b) i = ap (λ (k : ℕ). get_or (x ∷ y ∷ b) k 0) (two i)
  where
    two : (i : ℕ) → suc (suc i) ≡ i + 2
    two i = omega arith

get_le-drop : (n : ℕ) (b : List ℕ) (i : ℕ) → get_le n (drop 2 b) i ≡ get_le n b (i + 2)
unfolding get_le
get_le-drop zero b i = refl
get_le-drop (suc n) b i =
    ap₂ (λ (x y : ℕ). x + 256 * y) (get_or-drop b i)
      (get_le-drop n b (i + 1) ∙ ap (λ (k : ℕ). get_le n b k) (omega arith))

get_bytes-drop : (n : ℕ) (b : List ℕ) (i : ℕ) → get_bytes n (drop 2 b) i ≡ get_bytes n b (i + 2)
unfolding get_bytes
get_bytes-drop zero b i = refl
get_bytes-drop (suc n) b i =
    ap₂ ◌∷◌ (get_or-drop b i)
      (get_bytes-drop n b (i + 1) ∙ ap (λ (k : ℕ). get_bytes n b k) (omega arith))

read_field-behind :
    (n len : ℕ) (io : Iovec) (i : ℕ)
    → io.len ≡ len + 2
    → i + n ≤ len
    → read_field n (behind_size len io) i ≡ read_field n io (i + 2)
unfolding read_field get_uint
read_field-behind n len io i e h = ground (arith, e, get_le-drop n io.buf i)

body_len : (len : ℕ) (fs : List Field) → (body len fs).len ≡ len
unfolding body
body_len len fs = (write_fields_len (record { buf = replicate len 0; len = len }) fs).0

-- `cut 36` of a body of 36 bytes is the body.
cut-body : (fs : List Field) → cut 36 (body 36 fs) ≡ body 36 fs
cut-body fs = ap (λ (k : ℕ). record { buf = (body 36 fs).buf; len = k }) (sym (body_len 36 fs))

read_36 :
    (fs : List Field) (n off v : ℕ)
    → off + n ≤ 36
    → v < 256 ^ n
    → uint_at fs n off ≡ some v
    → read_field n (body 36 fs) off ≡ v
read_36 fs n off v fits small h =
    sym (ap (λ (io : Iovec). read_field n io off) (cut-body fs))
    ∙ read_field-body 36 36 fs (omega arith) n off v fits small h

read_zero :
    (fs : List Field) (n off : ℕ) → is_clear fs n off ≡ true → read_field n (body 36 fs) off ≡ 0
read_zero fs n off h =
    sym (ap (λ (io : Iovec). read_field n io off) (cut-body fs)) ∙ read_field_clear 36 36 fs n off h

-- The widths of an acknowledgement.
pub record IsLeaseBreak (req : LeaseBreak) : Type 0 where
  pub lease_key : length req.lease_key ≡ 16
  pub lease_duration : req.lease_duration < 256 ^ 4

-- An acknowledgement of a broken lease with a key of 16 bytes and a duration below 2^32 is read by
-- the server with the duration as the flags, and with 0 as the state and the duration.
pub lease_break_ack_lost :
    (req : LeaseBreak)
    → IsLeaseBreak req
    → let io = body 36 (lease_break_ack_fields req) in
      (process_oplock_break_request_fixed (cut 2 io) ≡ some (36, 34))
      × (process_oplock_break_request_variable 36 (behind_size 34 io)
          ≡ some (
              lease_acknowledge (record {
                flags = req.lease_duration;
                lease_key = req.lease_key;
                lease_state = 0;
                lease_duration = 0;
              })))
unfolding process_oplock_break_request_fixed process_oplock_break_request_variable read_lease
lease_break_ack_lost req w =
    let fs = lease_break_ack_fields req in
    let io = body 36 fs in
    let len : io.len ≡ 36 = body_len 36 fs in
    (
      ground (arith, read_field-body 2 36 fs (omega arith) 2 0 36 (omega arith) (omega arith) refl),
      ground (
        arith,
        read_field-behind 4 34 io 2 len (omega arith),
        read_field-behind 4 34 io 22 len (omega arith),
        read_field-behind 8 34 io 26 len (omega arith),
        get_bytes-drop 16 io.buf 6,
        get_bytes-body 36 36 fs (omega arith) 16 8 req.lease_key (omega arith) refl w.lease_key,
        read_36 fs 4 4 req.lease_duration (omega arith) w.lease_duration refl,
        read_zero fs 4 24 refl,
        read_zero fs 8 28 refl,
      ),
    )
