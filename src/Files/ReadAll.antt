-- ===== src/Files/ReadAll.antt =====
-- A file that is read piece by piece, each time from where the last read has left the handle.
use photo_transfer_nativesmb.Common.{
  ℕ, zero, suc, ◌+◌, ◌<◌, ◌≤◌, ◌^◌, ◌≡◌, refl, sym, ap, ◌∙◌, List, [], ◌∷◌, ◌++◌, length, Bool,
  true, false, ltb, none, some, arith, inl, inr, Bool_cases, ltb→lt, ◌%◌,
}
use photo_transfer_nativesmb.Smb2.{Context}
use photo_transfer_nativesmb.Smb2.NtStatus
use photo_transfer_nativesmb.Socket.{take, drop}
use photo_transfer_nativesmb.Socket.Frame.{take-drop, drop-drop, drop-length}
use photo_transfer_nativesmb.Errors.{nterror_to_errno}
use photo_transfer_nativesmb.Commands.Fields.{Limits}
use photo_transfer_nativesmb.Commands.Read.{ReadRequest, ReadReply, limit_read}
use photo_transfer_nativesmb.Commands.ErrorReply.{ErrorReply}
use photo_transfer_nativesmb.Commands.Dispatch.{Reply, read_reply, error_reply}
use photo_transfer_nativesmb.Files.{
  FileHandle, Called, done, failed, pread_request, read_cb, data_length,
}
use photo_transfer_nativesmb.Files.Counts.{HasCredits, limit_count-IsLimited}

-- The request that is sent for a read at the handle's offset.
abbrev pub asked : Limits → Context → FileHandle → ℕ → ReadRequest
asked limits c fh count = limit_read limits (pread_request limits c fh true count fh.offset)

-- The bytes that a reply brings.
abbrev pub brought : Reply → List ℕ
brought (read_reply rep) = elim rep.payload [ none ↦ [] | some xs ↦ xs ]
brought _ = []

pub record Progress : Type 0 where
  pub bytes : List ℕ
  pub handle : FileHandle
  pub ended : Bool

-- What an application does with the status of a read: it goes on until it is 0.
abbrev pub go_on : Called → FileHandle → List ℕ → Progress → Progress
go_on (done zero) fh xs rest = record { bytes = []; handle = fh; ended = true }
go_on (done (suc n)) fh xs rest = record rest { bytes = xs ++ rest.bytes }
go_on (failed _) fh xs rest = record { bytes = []; handle = fh; ended = false }

-- A read for each state of the context, in their order. `serve` is what the server answers.
abbrev pub read_on : (ReadRequest → ℕ × Reply) → Limits → ℕ → List Context → FileHandle → Progress
read_on serve limits count [] fh = record { bytes = []; handle = fh; ended = false }
read_on serve limits count (c ∷ cs) fh =
    let (status, rep) = serve (asked limits c fh count) in
    let (fh', called) = read_cb fh fh.offset status rep in
    let rest = read_on serve limits count cs fh' in go_on called fh' (brought rep) rest

-- A reply of `k` bytes of the file from an offset.
abbrev pub piece : List ℕ → ℕ → ℕ → ReadReply
piece content offset k = record {
  data_offset = 80;
  data_length = k;
  data_remaining = 0;
  payload = some (take k (drop offset content));
}

pub record IsPiece (content : List ℕ) (req : ReadRequest) (served : ℕ × Reply) : Type 0 where
  pub size : ℕ
  pub some_bytes : 0 < size
  pub wanted : size ≤ req.length
  pub there : req.offset + size ≤ length content
  pub reply : served ≡ (NtStatus.success, read_reply (piece content req.offset size))

pub record IsEnd (served : ℕ × Reply) : Type 0 where
  pub error : ErrorReply
  pub plain : error.byte_count ≡ 0
  pub reply : served ≡ (NtStatus.end_of_file, error_reply error)

-- A server with that file answers a read for some bytes with some of them, if there are some at the
-- offset, and with the end of the file otherwise.
pub record IsServed (content : List ℕ) (serve : ReadRequest → ℕ × Reply) : Type 0 where
  pub inside :
      (req : ReadRequest)
      → 0 < req.length
      → req.offset < length content
      → IsPiece content req (serve req)
  pub outside :
      (req : ReadRequest) → 0 < req.length → length content ≤ req.offset → IsEnd (serve req)

abbrev pub AllHaveCredits : List Context → Type 0
AllHaveCredits [] = Unit {0}
AllHaveCredits (c ∷ cs) = HasCredits c × AllHaveCredits cs

asked_length :
    (limits : Limits) (c : Context) (fh : FileHandle) (count : ℕ)
    → 0 < count
    → count < 2 ^ 32
    → 0 < limits.max_read_size
    → limits.max_read_size < 2 ^ 32
    → HasCredits c
    → 0 < (asked limits c fh count).length
unfolding limit_read pread_request
asked_length limits c fh count h1 h2 h3 h4 r =
    let l = limit_count-IsLimited limits.max_read_size c count h1 h2 h3 h4 in
    ground (arith, l.progress r)

asked_offset :
    (limits : Limits) (c : Context) (fh : FileHandle) (count : ℕ)
    → (asked limits c fh count).offset ≡ fh.offset
unfolding limit_read pread_request
asked_offset limits c fh count = ground arith

module _ (content : List ℕ) (serve : ReadRequest → ℕ × Reply) (limits : Limits) (count : ℕ)
    (served : IsServed content serve) (h1 : 0 < count) (h2 : count < 2 ^ 32)
    (h3 : 0 < limits.max_read_size) (h4 : limits.max_read_size < 2 ^ 32)
    (small : length content < 2 ^ 63) where
  -- The handle of a file that has been read to its end.
  abbrev pub at_end : FileHandle → FileHandle
  at_end fh = record fh { offset = length content }

  abbrev gathered : FileHandle → List ℕ → Progress
  gathered fh xs = record { bytes = xs; handle = at_end fh; ended = true }

  abbrev all_read : FileHandle → Progress
  all_read fh = gathered fh (drop fh.offset content)

  -- A read inside the file.
  read_piece :
      (c : Context) (cs : List Context) (fh : FileHandle)
      → HasCredits c
      → fh.offset < length content
      → (k : ℕ) × (0 < k)
        × (fh.offset + k ≤ length content)
        × (read_on serve limits count (c ∷ cs) fh
            ≡ go_on
                (done k)
                (record fh { offset = fh.offset + k })
                (take k (drop fh.offset content))
                (read_on serve limits count cs (record fh { offset = fh.offset + k })))
  unfolding read_cb data_length
  read_piece c cs fh r o =
      let off = asked_offset limits c fh count in
      let p =
        served.inside (asked limits c fh count) (asked_length limits c fh count h1 h2 h3 h4 r)
          (omega (arith, o, off)) in
      let fits : (fh.offset + p.size) % 2 ^ 64 ≡ fh.offset + p.size =
        omega (arith, p.there, off, small) in
      (p.size, p.some_bytes, omega (arith, p.there, off), rw (p.reply, off, fits) refl)

  -- A read at the end of the file.
  read_end :
      (c : Context) (cs : List Context) (fh : FileHandle)
      → HasCredits c
      → length content ≤ fh.offset
      → read_on serve limits count (c ∷ cs) fh ≡ record { bytes = []; handle = fh; ended = true }
  unfolding read_cb data_length nterror_to_errno
  read_end c cs fh r o =
      let off = asked_offset limits c fh count in
      let p =
        served.outside (asked limits c fh count) (asked_length limits c fh count h1 h2 h3 h4 r)
          (omega (arith, o, off)) in
      rw (p.reply, p.plain) refl

  pieces_joined :
      (off k : ℕ) → take k (drop off content) ++ drop (off + k) content ≡ drop off content
  pieces_joined off k =
      ap (λ (xs : List ℕ). take k (drop off content) ++ xs) (sym (drop-drop off k content))
      ∙ take-drop k (drop off content)

  go_on_some :
      (k : ℕ) (fh : FileHandle) (xs : List ℕ) (rest : Progress)
      → 0 < k
      → go_on (done k) fh xs rest ≡ record rest { bytes = xs ++ rest.bytes }
  go_on_some zero fh xs rest h = absurd (omega (arith, h))
  go_on_some (suc k) fh xs rest h = refl

  -- A client that reads from where a handle is, for some bytes at a time, until a read brings none,
  -- gets the rest of the file and has its handle at the end, if the server allows reads of some bytes
  -- and answers each with some of the bytes there are, as few as it likes, and there are credits
  -- whenever the client reads. It reads once more at most than there are bytes. The file has less than
  -- 2^63 bytes, and a read is for less than 2^32.
  pub read_on_all :
      (cs : List Context) (fh : FileHandle)
      → AllHaveCredits cs
      → fh.offset ≤ length content
      → length content < fh.offset + length cs
      → read_on serve limits count cs fh ≡ all_read fh
  read_on_all [] fh ready o enough = absurd (omega (arith, o, enough))
  read_on_all (c ∷ cs) fh (r, ready) o enough = elim (Bool_cases (ltb fh.offset (length content))) [
    | inl e ↦
        let (k, positive, within, step) = read_piece c cs fh r (ltb→lt _ _ e) in
        let after : FileHandle = record fh { offset = fh.offset + k } in
        let rest = read_on_all cs after ready within (omega (arith, enough, positive)) in
        step
        ∙ ap (λ (q : Progress). go_on (done k) after (take k (drop fh.offset content)) q) rest
        ∙ go_on_some k after (take k (drop fh.offset content)) (all_read after) positive
        ∙ ap (λ (xs : List ℕ). gathered fh xs) (pieces_joined fh.offset k)
    | inr e ↦
        let past : fh.offset ≡ length content = ground (arith, e, o) in
        let nothing : drop fh.offset content ≡ [] =
          ap (λ (n : ℕ). drop n content) past ∙ drop-length content in
        read_end c cs fh r (omega (arith, past)) ∙ rw nothing (ground (arith, past))
  ]
