-- ===== src/Commands/Vectors.antt =====
-- Where a body stands in its PDU: right behind the header's vector.
use photo_transfer_nativesmb.Common.{
  zero, suc, ℕ, ◌-◌, ◌%◌, ◌^◌, bit_and, ◌≡◌, refl, sym, ap, ◌∙◌, List, [], ◌∷◌, ◌++◌, Option, none,
  some, arith, inl, inr, get_elem?, if◌then◌else◌, replicate, ◌⊎◌,
}
use mathlib.Core.List.{append_assoc, append-nil}
use photo_transfer_nativesmb.Wire.{Iovec, ok, fail}
use photo_transfer_nativesmb.Wire.Vectors.{IoVectors, add_iovector, pad_to_64bit, sum_len}
use photo_transfer_nativesmb.Smb2.{Pdu, Context}
use photo_transfer_nativesmb.Pdu.{allocate_pdu}
use photo_transfer_nativesmb.Commands.Fields.{
  Field, body, add_body, ◌then◌, no_more, refuse, with_body, command_pdu,
}

-- What is added stands behind the vectors there were.
pub record IsBehind (out : IoVectors) (io : List Iovec) (out' : IoVectors) : Type 0 where
  pub rest : List Iovec
  pub vectors : out'.iov ≡ out.iov ++ (io ++ rest)

abbrev pub Adds : List Iovec → (IoVectors → Option IoVectors) → Type 0
Adds io f = (out out' : IoVectors) → f out ≡ some out' → IsBehind out io out'

pub add_iovector-Adds : (io : Iovec) → Adds (io ∷ []) (λ out. add_iovector out io)
unfolding add_iovector
add_iovector-Adds io out out' h = record { rest = []; vectors = ground (arith, h) }

pub no_more-Adds : Adds [] no_more
no_more-Adds out out' h = record { rest = []; vectors = ground (arith, h, append-nil out.iov) }

pub refuse-Adds : Adds [] refuse
refuse-Adds out out' h = cc

pub any-Adds : (io : List Iovec) (f : IoVectors → Option IoVectors) → Adds io f → Adds [] f
any-Adds io f h out out' e =
    let b = h out out' e in record { rest = io ++ b.rest; vectors = b.vectors }

pub then-Adds :
    (io : List Iovec) (f g : IoVectors → Option IoVectors)
    → Adds io f
    → Adds [] g
    → Adds io (f then g)
then-Adds io f g hf hg out out'' e = after (f out) refl e
  where
    after :
        (o : Option IoVectors)
        → f out ≡ o
        → (elim o [ none ↦ none | some out' ↦ g out' ]) ≡ some out''
        → IsBehind out io out''
    after none eo e = cc
    after (some out') eo e =
        let b = hf out out' eo in
        let d = hg out' out'' e in
        record {
          rest = b.rest ++ d.rest;
          vectors =
              d.vectors
              ∙ ap (λ (q : List Iovec). q ++ d.rest) b.vectors
              ∙ append_assoc out.iov (io ++ b.rest) d.rest
              ∙ ap (λ (q : List Iovec). out.iov ++ q) (append_assoc io b.rest d.rest);
        }

padding : IoVectors → Iovec
padding out = record { buf = replicate 7 0; len = 8 - bit_and (sum_len out.iov % 2 ^ 32) 7 }

pad_to_64bit_cases :
    (out : IoVectors)
    → ((pad_to_64bit out).1.iov ≡ out.iov)
      ⊎ ((pad_to_64bit out).1.iov ≡ out.iov ++ (padding out ∷ []))
unfolding pad_to_64bit add_iovector padding
pad_to_64bit_cases out = ground arith

pad_to_64bit-IsBehind : (out : IoVectors) → IsBehind out [] (pad_to_64bit out).1
pad_to_64bit-IsBehind out = elim (pad_to_64bit_cases out) [
  | inl e ↦ record { rest = []; vectors = e ∙ sym (append-nil out.iov) }
  | inr e ↦ record { rest = padding out ∷ []; vectors = e }
]

pub with_body-vectors :
    (io : Iovec) (encode : IoVectors → Option IoVectors)
    → Adds (io ∷ []) encode
    → (p q : Pdu) → with_body encode p ≡ some q
    → (rest : List Iovec) × (q.out.iov ≡ p.out.iov ++ (io ∷ rest))
unfolding with_body
with_body-vectors io encode h p q e = after (encode p.out) refl e
  where
    after :
        (o : Option IoVectors)
        → encode p.out ≡ o
        → (elim o [
          | none ↦ none
          | some out ↦
              let (s, out') = pad_to_64bit out in
              elim s [ fail ↦ none | ok ↦ some (record p { out = out' }) ]
        ])
          ≡ some q
        → (rest : List Iovec) × (q.out.iov ≡ p.out.iov ++ (io ∷ rest))
    after none eo e = cc
    after (some out) eo e =
        let b = h p.out out eo in
        let d = pad_to_64bit-IsBehind out in
        let same : q.out ≡ (pad_to_64bit out).1 = ground (arith, e) in
        (
          b.rest ++ d.rest,
          ap (λ (o : IoVectors). o.iov) same
              ∙ d.vectors
              ∙ ap (λ (v : List Iovec). v ++ d.rest) b.vectors
              ∙ append_assoc p.out.iov (io ∷ b.rest) d.rest,
        )

-- The body of a command that was made.
pub command_pdu-body :
    (c : Context) (ref now command : ℕ) (io : Iovec) (encode : IoVectors → Option IoVectors)
    (q : Pdu)
    → Adds (io ∷ []) encode
    → command_pdu c ref now command encode ≡ some q
    → get_elem? q.out.iov 1 ≡ some io
unfolding command_pdu allocate_pdu add_iovector
command_pdu-body c ref now command io encode q h e =
    let made = with_body-vectors io encode h _ q e in ap (λ (v : List Iovec). get_elem? v 1) made.1

pub add_body-Adds : (len : ℕ) (fs : List Field) → Adds (body len fs ∷ []) (add_body len fs)
unfolding add_body
add_body-Adds len fs = add_iovector-Adds (body len fs)

pub tail-Adds :
    (len : ℕ) (fs : List Field) (g : IoVectors → Option IoVectors)
    → Adds [] g
    → Adds (body len fs ∷ []) (add_body len fs then g)
tail-Adds len fs g h = then-Adds (body len fs ∷ []) (add_body len fs) g (add_body-Adds len fs) h

get_elem?-append :
    (xs ys : List Iovec) (i : ℕ) (io : Iovec)
    → get_elem? xs i ≡ some io
    → get_elem? (xs ++ ys) i ≡ some io
get_elem?-append [] ys i io e = cc
get_elem?-append (x ∷ xs) ys zero io e = e
get_elem?-append (x ∷ xs) ys (suc i) io e = get_elem?-append xs ys i io e

-- A vector more leaves the body where it is.
pub add_iovector-body :
    (out out' : IoVectors) (io more : Iovec)
    → get_elem? out.iov 1 ≡ some io
    → add_iovector out more ≡ some out'
    → get_elem? out'.iov 1 ≡ some io
add_iovector-body out out' io more h e =
    let b = add_iovector-Adds more out out' e in
    ap (λ (v : List Iovec). get_elem? v 1) b.vectors
    ∙ get_elem?-append out.iov (more ∷ b.rest) 1 io h
