-- ===== src/Asn1/Strings.antt =====
-- Octet strings: what asn1ber_ber_from_bytes writes, asn1ber_bytes_from_ber reads, inside the
-- buffer that it is given.
use photo_transfer_nativesmb.Common.{
  ℕ, zero, suc, ◌+◌, ◌-◌, ◌^◌, ◌≤◌, ◌<◌, ◌≡◌, refl, sym, ap, ◌∙◌, List, [], ◌∷◌, ◌++◌, length,
  length-append, arith, none, ltb, ◌==◌, if◌then◌else◌, true, Bool,
}
use mathlib.Core.Path.{subst}
use mathlib.Core.List.{append-nil}
use native.Mathlib.Nat.{mod-eq_of_lt}
use photo_transfer_nativesmb.Asn1.{
  Ber, done, M, ◌>>=◌, ◌>>◌, return, out_byte, next_byte, no_error, too_big, fail_with,
}
use photo_transfer_nativesmb.Asn1.Read.{
  length_from_ber, expect_type, take_bytes, bytes_value, bytes_from_ber,
}
use photo_transfer_nativesmb.Asn1.Write.{
  ber_from_length, ber_from_typelen, out_bytes, ber_from_bytes,
}
use photo_transfer_nativesmb.Asn1.Input.{remaining, advance, advance-add, next_byte-cons}
use photo_transfer_nativesmb.Asn1.Output.{
  HasRoom, appended, Emits, Emits-return, Emits-bind, Emits-then, bind_inv, Emits-out_byte,
  get_bytes-put_bytes,
}
use photo_transfer_nativesmb.Asn1.Lengths.{
  length_bytes, Emits-ber_from_length, length_from_ber-length_bytes,
}

-- A context that reads what was written between `a` and `a'`.
unfoldable pub reader : Ber → Ber → Ber
reader a a' = record {
  src = a'.dst;
  src_count = a'.dst_head;
  src_tail = a.dst_head;
  dst = none;
  dst_size = 0;
  dst_head = 0;
  last_error = no_error;
}

pub remaining-reader :
    (a : Ber) (d bs : List ℕ)
    → HasRoom a d (length bs)
    → remaining (reader a (appended a d bs)) ≡ bs
unfolding reader remaining
remaining-reader a d bs r =
    let e : a.dst_head + length bs - a.dst_head ≡ length bs = omega arith in
    rw e (get_bytes-put_bytes d a.dst_head bs (omega (arith, r.fits, r.backed)))

Emits-out_bytes : (bs : List ℕ) → Emits (out_bytes bs) tt bs
unfolding out_bytes
Emits-out_bytes [] = Emits-return tt
Emits-out_bytes (b ∷ bs) =
    Emits-then (out_byte b) (out_bytes bs) tt (b ∷ []) bs (Emits-out_byte b) (Emits-out_bytes bs)

-- A tag and a length.
pub Emits-ber_from_typelen :
    (t len : ℕ)
    → t < 256
    → len < 2 ^ 32
    → Emits (ber_from_typelen t len) (length (length_bytes len) + 1) (t ∷ length_bytes len)
unfolding ber_from_typelen
Emits-ber_from_typelen t len ht hl = rw (mod-eq_of_lt {n = t} {m = 256} ht) (
    subst
      (λ bs.
        Emits (out_byte t >> (ber_from_length len >>= λ n. return (n + 1)))
          (length (length_bytes len) + 1) (t ∷ bs))
      (append-nil (length_bytes len))
      (Emits-then (out_byte t) (ber_from_length len >>= λ n. return (n + 1))
        (length (length_bytes len) + 1) (t ∷ []) (length_bytes len ++ []) (Emits-out_byte t)
        (Emits-bind (ber_from_length len) (λ n. return (n + 1)) (length (length_bytes len))
          (length (length_bytes len) + 1) (length_bytes len) [] (Emits-ber_from_length len hl)
          (Emits-return (length (length_bytes len) + 1)))))

-- `asn1ber_ber_from_bytes` writes the tag, the length and the bytes.
pub Emits-ber_from_bytes :
    (t : ℕ) (bs : List ℕ)
    → t < 256
    → length bs < 2 ^ 32
    → Emits (ber_from_bytes t bs) tt ((t ∷ length_bytes (length bs)) ++ bs)
unfolding ber_from_bytes
Emits-ber_from_bytes t bs ht hl =
    Emits-bind (ber_from_typelen t (length bs)) (λ _. out_bytes bs)
      (length (length_bytes (length bs)) + 1) tt (t ∷ length_bytes (length bs)) bs
      (Emits-ber_from_typelen t (length bs) ht hl) (Emits-out_bytes bs)

take_bytes-remaining :
    (bs r : List ℕ) (a : Ber)
    → remaining a ≡ bs ++ r
    → (take_bytes (length bs) a ≡ (done bs, advance a (length bs)))
      × (remaining (advance a (length bs)) ≡ r)
unfolding take_bytes
take_bytes-remaining [] r a e =
    let e0 : advance a 0 ≡ a = ap (λ t. record a { src_tail = t }) (omega arith) in (rw e0, rw e0 e)
take_bytes-remaining (b ∷ bs) r a e =
    let (step, left) = next_byte-cons a b (bs ++ r) e in
    let (more, rest) = take_bytes-remaining bs r (advance a 1) left in
    ground (arith, advance-add a (length bs))

pub expect_type-cons :
    (good : ℕ → Bool) (t : ℕ) (r : List ℕ) (a : Ber)
    → good t ≡ true
    → remaining a ≡ t ∷ r
    → (expect_type good a ≡ (done tt, advance a 1)) × (remaining (advance a 1) ≡ r)
unfolding expect_type
expect_type-cons good t r a h e = let (step, left) = next_byte-cons a t r e in ground (arith)

advance_twice : (a : Ber) (m n : ℕ) → advance (advance a m) n ≡ advance a (m + n)
advance_twice a m n = ap (λ t. record a { src_tail = t }) (omega arith)

-- What is stored of the bytes `bs`, with the NUL behind them where there is room.
abbrev pub stored : ℕ → List ℕ → List ℕ
stored maxlen bs =
    if length bs == 0 then 0 ∷ [] else (if ltb (length bs) maxlen then bs ++ (0 ∷ []) else bs)

-- `asn1ber_bytes_from_ber` reads the octet string that stands in front of the input, if it is not
-- longer than the buffer, with all its bytes and its length, and leaves what follows.
pub bytes_from_ber-cons :
    (maxlen : ℕ) (bs r : List ℕ) (a : Ber)
    → length bs ≤ maxlen
    → length bs < 2 ^ 32
    → remaining a ≡ 0x04 ∷ (length_bytes (length bs) ++ (bs ++ r))
    → (a' : Ber) × (bytes_from_ber maxlen a ≡ (done (stored maxlen bs, length bs), a'))
      × (remaining a' ≡ r)
unfolding bytes_from_ber bytes_value
bytes_from_ber-cons maxlen bs r a h hl e =
    let (t, left) = expect_type-cons (λ t. t == 0x04) 0x04 _ a refl e in
    let (l, left') = length_from_ber-length_bytes (length bs) (bs ++ r) (advance a 1) hl left in
    let n = length (length_bytes (length bs)) in
    let (v, left'') = take_bytes-remaining bs r (advance (advance a 1) n) left' in
    let zero_more : advance (advance (advance a 1) n) 0 ≡ advance (advance a 1) n =
      ap (λ t. record a { src_tail = t }) (omega arith) in
    (advance (advance (advance a 1) n) (length bs), ground arith, left'')

-- An octet string that `asn1ber_ber_from_bytes` wrote, with room for all of it, is read back by
-- `asn1ber_bytes_from_ber` from what was written: the same bytes and length, with nothing left.
pub bytes_from_ber-ber_from_bytes :
    (maxlen : ℕ) (bs : List ℕ) (a : Ber) (d : List ℕ)
    → length bs ≤ maxlen
    → length bs < 2 ^ 32
    → HasRoom a d (length ((0x04 ∷ length_bytes (length bs)) ++ bs))
    → (a' r : Ber) × (ber_from_bytes 0x04 bs a ≡ (done tt, a'))
      × (bytes_from_ber maxlen (reader a a') ≡ (done (stored maxlen bs, length bs), r))
      × (remaining r ≡ [])
bytes_from_ber-ber_from_bytes maxlen bs a d h hl room =
    let all = 0x04 ∷ (length_bytes (length bs) ++ bs) in
    let input : remaining (reader a (appended a d all))
        ≡ 0x04 ∷ (length_bytes (length bs) ++ (bs ++ [])) =
      remaining-reader a d all room
      ∙ ap (λ x. 0x04 ∷ (length_bytes (length bs) ++ x)) (sym (append-nil bs)) in
    let (r, read, left) =
      bytes_from_ber-cons maxlen bs [] (reader a (appended a d all)) h hl input in
    (appended a d all, r, Emits-ber_from_bytes 0x04 bs (omega arith) hl a d room, read, left)

length-take_bytes :
    (n : ℕ) (a a' : Ber) (bs : List ℕ) → take_bytes n a ≡ (done bs, a') → length bs ≡ n
unfolding take_bytes
length-take_bytes zero a a' bs e = ground arith
length-take_bytes (suc n) a a' bs e =
    let (b, a1, _, e1) =
      bind_inv next_byte (λ b. take_bytes n >>= λ rest. return (b ∷ rest)) a bs a' e in
    let (rest, a2, e2, e3) = bind_inv (take_bytes n) (λ rest. return (b ∷ rest)) a1 bs a' e1 in
    ground (arith, length-take_bytes n a1 a2 rest e2)

bytes_value_fits :
    (maxlen vallen n : ℕ) (a a' : Ber) (out : List ℕ)
    → vallen ≤ maxlen
    → bytes_value maxlen vallen a ≡ (done (out, n), a')
    → (length out ≤ maxlen) × (n ≤ maxlen) × (n ≤ length out)
unfolding bytes_value
bytes_value_fits maxlen vallen n a a' out h e =
    let (bs, a1, e1, e2) =
      bind_inv (take_bytes vallen)
        (λ bs. return ((if ltb vallen maxlen then bs ++ (0 ∷ []) else bs), vallen)) a (out, n) a'
        e in
    ground (arith, length-take_bytes vallen a a1 bs e1, length-append bs (0 ∷ []))

-- Whatever the input, what `asn1ber_bytes_from_ber` stores fits a buffer of `maxlen` bytes, if that
-- is not empty, and the length that it reports is within the stored bytes.
pub bytes_from_ber_fits :
    (maxlen n : ℕ) (a a' : Ber) (out : List ℕ)
    → 0 < maxlen
    → bytes_from_ber maxlen a ≡ (done (out, n), a')
    → (length out ≤ maxlen) × (n ≤ maxlen) × (n ≤ length out)
unfolding bytes_from_ber
bytes_from_ber_fits maxlen n a a' out h e =
    let after : ℕ → M (List ℕ × ℕ) = λ vallen.
      if ltb maxlen vallen
      then fail_with too_big
      else (if vallen == 0 then return (0 ∷ [], 0) else bytes_value maxlen vallen) in
    let (_, a1, _, e1) =
      bind_inv (expect_type (λ t. t == 0x04)) (λ _. length_from_ber >>= after) a (out, n) a' e in
    let (len, a2, _, e2) = bind_inv length_from_ber after a1 (out, n) a' e1 in
    ground (arith, bytes_value_fits maxlen len n a2 a' out)
