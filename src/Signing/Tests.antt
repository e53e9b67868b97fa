-- ===== src/Signing/Tests.antt =====
-- A run of the signing with functions in place of the cipher and the digest.
use photo_transfer_nativesmb.Common.{
  ℕ, ◌≡◌, refl, List, [], ◌∷◌, ◌++◌, replicate, some, arith, false,
}
use photo_transfer_nativesmb.Wire.{Iovec, ok, get_uint32, get_bytes}
use photo_transfer_nativesmb.Smb2.{Pdu, Context}
use photo_transfer_nativesmb.Smb2.Command
use photo_transfer_nativesmb.Header.{smb2_sign}
use photo_transfer_nativesmb.Signing.{Keys, add_signature, calc_signature}
use photo_transfer_nativesmb.Signing.Mac.{add_signature-calc_signature}

-- The block as it is, and the key in front of the text.
abbrev plain : List ℕ → List ℕ → List ℕ
plain key block = block

abbrev prefixed : List ℕ → List ℕ → List ℕ
prefixed key text = key ++ text

abbrev client : Context
client = record {
  is_server = false;
  dialect = 0x0210;
  credits = 3;
  seal = false;
  sign = false;
  timeout = 0;
  message_id = 4;
  session_id = 77;
  async_id = 0;
  tree_ids = replicate 32 5;
  tree_id_top = 1;
  tree_id_cur = 1;
}

abbrev keys : Keys
keys = record { session_key_size = 16; signing_key = replicate 16 9 }

abbrev blank : Iovec
blank = record { buf = replicate 64 1; len = 64 }

abbrev body : Iovec
body = record { buf = 7 ∷ 8 ∷ []; len = 2 }

abbrev request : Pdu
request = record {
  ref = 1;
  header = record {
    protocol_id = smb2_sign;
    struct_size = 64;
    credit_charge = 1;
    status = 0;
    command = Command.read;
    credit_request_response = 100;
    flags = 0;
    next_command = 0;
    message_id = 4;
    async_sync = 0xfeff;
    session_id = 77;
    signature = replicate 16 0;
  };
  prev_compound_mid = 0;
  out = record { num_done = 0; total_size = 66; iov = blank ∷ body ∷ [] };
  seal = false;
  crypt = [];
  timeout = 0;
}

add_signature-calc_signature_example :
    let (s, p') = add_signature plain prefixed client keys request in
    (iov0' : Iovec) × (s ≡ ok)
    × (p'.out.iov ≡ iov0' ∷ body ∷ [])
    × (p'.header.flags ≡ 8)
    × (get_uint32 iov0' 16 ≡ some p'.header.flags)
    × (get_bytes 16 iov0'.buf 48 ≡ p'.header.signature)
    × ((calc_signature plain prefixed client keys p'.out.iov).0 ≡ p'.header.signature)
add_signature-calc_signature_example =
    add_signature-calc_signature plain prefixed client keys request blank body [] refl refl
      (omega arith) (omega arith) (omega arith) (omega arith) (omega arith)
