-- ===== src/Asn1.antt =====
-- Sources/CSMB/lib/asn1-ber.c: the reader and writer of ASN.1 BER that the SPNEGO wrapper uses.
-- This file has the context, the byte operations and the way of chaining calls.
pub mod Read
pub mod Write
pub mod Input
pub mod Output
pub mod Lengths
pub mod Strings
pub mod Integers
pub mod Signed
mod Tests
use photo_transfer_nativesmb.Common.{
  ℕ, zero, suc, ◌+◌, List, get_or, set, Bool, ltb, if◌then◌else◌, Option, none, some,
}

-- `last_error`
pub data Error : Type 0 where
  no_error too_big invalid : Error

-- `struct asn1ber_context`; a null pointer is `none`. The counts are not negative.
pub record Ber : Type 0 where
  pub src : Option (List ℕ)
  pub src_count : ℕ
  pub src_tail : ℕ
  pub dst : Option (List ℕ)
  pub dst_size : ℕ
  pub dst_head : ℕ
  pub last_error : Error

-- What a call returns: 0 with the values that it stored, another number, or nothing at all, where a
-- loop of the code does not end. The context is changed in the second case too.
pub data Outcome {ℓ} (A : Type ℓ) : Type ℓ where
  done : A → Outcome A
  failed : Outcome A
  diverged : Outcome A

abbrev pub M : Type 0 → Type 0
M A = Ber → Outcome A × Ber

-- `if (result) return result;`
infixl 5 ◌>>=◌ ◌>>◌
abbrev pub ◌>>=◌ : {A B : Type 0} → M A → (A → M B) → M B
◌>>=◌ m f a =
    let (o, a') = m a in
    elim o [ done x ↦ f x a' | failed ↦ (failed, a') | diverged ↦ (diverged, a') ]

abbrev pub ◌>>◌ : {B : Type 0} → M (Unit {0}) → M B → M B
m >> k = m >>= λ _. k

abbrev pub return : {A : Type 0} → A → M A
return x a = (done x, a)

abbrev pub fail : {A : Type 0} → M A
fail a = (failed, a)

-- `actx->last_error = e; return -1;`
abbrev pub fail_with : {A : Type 0} → Error → M A
fail_with e a = (failed, record a { last_error = e })

-- `asn1ber_next_byte`; a read outside the buffer is 0 here, and does not occur.
unfoldable pub next_byte : M ℕ
next_byte a = elim a.src [
  | none ↦ (failed, a)
  | some src ↦
      if ltb a.src_tail a.src_count
      then (done (get_or src a.src_tail 0), record a { src_tail = a.src_tail + 1 })
      else (failed, a)
]

unfoldable pub out_byte : ℕ → M (Unit {0})
out_byte b a = elim a.dst [
  | none ↦ (failed, a)
  | some dst ↦
      if ltb a.dst_head a.dst_size
      then (done tt, record a { dst = some (set dst a.dst_head b); dst_head = a.dst_head + 1 })
      else (failed, a)
]

unfoldable pub save_out_state : M ℕ
save_out_state a = elim a.dst [
  | none ↦ (failed, a)
  | some dst ↦ if ltb a.dst_head a.dst_size then (done a.dst_head, a) else (failed, a)
]
