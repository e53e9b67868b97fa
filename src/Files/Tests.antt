-- ===== src/Files/Tests.antt =====
-- Files: the theorems at concrete inputs.
use photo_transfer_nativesmb.Common.{
  ℕ, ◌≡◌, refl, List, [], ◌∷◌, false, true, replicate, arith, ltb, if◌then◌else◌, ◌*◌, inr, lt→ltb,
}
use photo_transfer_nativesmb.Smb2.{Context}
use photo_transfer_nativesmb.Smb2.NtStatus
use photo_transfer_nativesmb.Socket.{drop}
use photo_transfer_nativesmb.Commands.Fields.{Limits}
use photo_transfer_nativesmb.Commands.Read.{ReadRequest}
use photo_transfer_nativesmb.Commands.Dispatch.{Reply, read_reply, error_reply}
use photo_transfer_nativesmb.Files.{FileHandle, limit_count, lseek, seek_end}
use photo_transfer_nativesmb.Files.Open.{OpenFlags, wronly}
use photo_transfer_nativesmb.Files.Counts.{IsLimited, limit_count-IsLimited, limit_count_nothing}
use photo_transfer_nativesmb.Files.Seek.{back, word_of, moved, move, lseek-move}
use photo_transfer_nativesmb.Files.ReadAll.{piece, IsServed, read_on, read_on_all}

abbrev client : Context
client = record {
  is_server = false;
  dialect = 0x0302;
  credits = 2;
  seal = false;
  sign = false;
  timeout = 0;
  message_id = 5;
  session_id = 77;
  async_id = 6;
  tree_ids = 0xdeadbeef ∷ 5 ∷ replicate 30 0;
  tree_id_top = 1;
  tree_id_cur = 1;
}

limit_count-IsLimited_example : IsLimited 1000000 client 500000 (limit_count 1000000 client 500000)
limit_count-IsLimited_example =
    limit_count-IsLimited 1000000 client 500000 (omega arith) (omega arith) (omega arith)
      (omega arith)

limit_count_nothing_example :
    limit_count 1000000 client 0 ≡ (if ltb 2 1008 then 2 else 1008) * 65536
limit_count_nothing_example = limit_count_nothing 1000000 client (omega arith)

abbrev handle : FileHandle
handle = record { file_id = replicate 16 7; offset = 1; end_of_file = 4 }

lseek-move_example :
    lseek handle (word_of (back 6)) seek_end ≡ moved seek_end handle (move 4 (back 6))
lseek-move_example =
    lseek-move handle seek_end (back 6) tt (omega arith) (omega arith) (omega arith, omega arith)

abbrev creating : OpenFlags
creating = record {
  access = wronly;
  creat = true;
  excl = true;
  trunc = false;
  directory = false;
  sync = true;
}

-- A server that gives a byte at a time.
abbrev content : List ℕ
content = 10 ∷ 20 ∷ 30 ∷ 40 ∷ []

abbrev serve : ReadRequest → ℕ × Reply
serve req =
    if ltb req.offset 4
    then (NtStatus.success, read_reply (piece content req.offset 1))
    else (NtStatus.end_of_file, error_reply (record { error_context_count = 0; byte_count = 0 }))

content-IsServed : IsServed content serve
content-IsServed = record {
  inside = λ req h o.
      let e : ltb req.offset 4 ≡ true = lt→ltb _ _ o in
      record {
        size = 1;
        some_bytes = omega arith;
        wanted = omega (arith, h);
        there = omega (arith, o);
        reply = rw e refl;
      };
  outside = λ req h o.
      let e : ltb req.offset 4 ≡ false = ground (arith, o) in
      record {
        error = record { error_context_count = 0; byte_count = 0 };
        plain = refl;
        reply = rw e refl;
      };
}

abbrev sizes : Limits
sizes = record { supports_multi_credit = true; passthrough = false; max_read_size = 1000000 }

read_on_all_example :
    read_on serve sizes 65536 (client ∷ client ∷ client ∷ client ∷ []) handle
    ≡ record { bytes = 20 ∷ 30 ∷ 40 ∷ []; handle = record handle { offset = 4 }; ended = true }
unfolding drop
read_on_all_example =
    read_on_all content serve sizes 65536 content-IsServed (omega arith) (omega arith) (omega arith)
      (omega arith) (omega arith) (client ∷ client ∷ client ∷ client ∷ []) handle
      (inr (omega arith), (inr (omega arith), (inr (omega arith), (inr (omega arith), tt))))
      (omega arith) (omega arith)
