-- ===== src/Directories/Chains.antt =====
-- The chain of entries in a reply: where decoding it ends, and where it does not.
use photo_transfer_nativesmb.Common.{
  ℕ, zero, suc, ◌+◌, ◌-◌, ◌<◌, ◌≤◌, ◌^◌, ◌%◌, ◌≡◌, refl, ap, ◌∙◌, List, [], ◌∷◌, Bool, true, false,
  leb, ◌==◌, Option, some, arith, inl, inr, Bool_cases,
}
use mathlib.Core.Path.{subst}
use photo_transfer_nativesmb.Wire.{Iovec}
use photo_transfer_nativesmb.Directories.{
  FullInformation, Dirent, Decoded, unfinished, behind, decode_full_information, keep, decode_at,
  decode_dirents, dirent_of,
}

abbrev pub is_unfinished : Decoded → Bool
is_unfinished unfinished = true
is_unfinished _ = false

-- The offsets at which decoding a reply stands, each with what the structure holds then: it begins at
-- 0 with `fs`, and goes on behind each entry that has a next one.
pub data Visited (vec : Iovec) (fs : FullInformation) : ℕ → FullInformation → Type 0 where
  from_start : Visited vec fs 0 fs
  behind_entry :
      (offset : ℕ) (gs : FullInformation)
      → Visited vec fs offset gs
      → offset < vec.len
      → 0 < (decode_at vec offset gs).next_entry_offset
      → Visited vec fs
          ((offset + (decode_at vec offset gs).next_entry_offset) % 2 ^ 32)
          (decode_at vec offset gs)

-- No entry of the chain points 2 GiB ahead or more.
abbrev pub IsForward : Iovec → FullInformation → Type 0
IsForward vec fs =
    (offset : ℕ) (gs : FullInformation)
    → Visited vec fs offset gs
    → offset < vec.len
    → (decode_at vec offset gs).next_entry_offset < 2 ^ 31

module _ (vec : Iovec) where
  decode_at_sound :
      (offset : ℕ) (fs a : FullInformation)
      → decode_full_information (behind vec offset) ≡ some a
      → decode_at vec offset fs ≡ a
  unfolding decode_at
  decode_at_sound offset fs a e = ap (λ (o : Option FullInformation). keep fs o) e

  decode_chain_ends :
      (fs : FullInformation)
      → vec.len < 2 ^ 31
      → IsForward vec fs
      → (fuel : ℕ) (offset : ℕ) (gs : FullInformation) (entries : List Dirent)
      → Visited vec fs offset gs
      → vec.len ≤ offset + fuel
      → is_unfinished (decode_dirents (suc fuel) vec gs offset entries) ≡ false
  unfolding decode_dirents
  decode_chain_ends fs small f zero offset gs entries v enough =
      let e : leb vec.len offset ≡ true = ground (arith, enough) in rw e refl
  decode_chain_ends fs small f (suc fuel) offset gs entries v enough =
      let hs = decode_at vec offset gs in
      elim (Bool_cases (leb vec.len offset)) [
        | inl e ↦ rw e refl
        | inr e ↦ elim (Bool_cases (hs.next_entry_offset == 0)) [
          | inl z ↦ rw (e, z) refl
          | inr z ↦
              let inside : offset < vec.len = ground (arith, e) in
              let positive : 0 < hs.next_entry_offset = ground (arith, z) in
              let forward = f offset gs v inside in
              let same : (offset + hs.next_entry_offset) % 2 ^ 32 ≡ offset + hs.next_entry_offset =
                omega (arith, inside, small, forward) in
              let there =
                subst (λ o. Visited vec fs o hs) same (behind_entry offset gs v inside positive) in
              rw (e, z, same)
                (decode_chain_ends fs small f fuel (offset + hs.next_entry_offset) hs
                  (dirent_of hs ∷ entries) there (omega (arith, enough, positive)))
        ]
      ]

  -- Decoding a reply ends, within one round more than it has bytes, if it has less than 2 GiB and no
  -- entry that decoding comes to points 2 GiB ahead or more, nor what the structure keeps where one is
  -- refused. Whether the entries are sound does not
  -- matter.
  pub decode_dirents_ends :
      (fs : FullInformation)
      → vec.len < 2 ^ 31
      → IsForward vec fs
      → is_unfinished (decode_dirents (suc vec.len) vec fs 0 []) ≡ false
  decode_dirents_ends fs small f =
      decode_chain_ends fs small f vec.len 0 fs [] from_start (omega arith)

  -- A round at an entry that is sound and not the last.
  decode_round :
      (fuel : ℕ) (fs a : FullInformation) (offset : ℕ) (entries : List Dirent)
      → offset < vec.len
      → decode_full_information (behind vec offset) ≡ some a
      → 0 < a.next_entry_offset
      → decode_dirents (suc fuel) vec fs offset entries
        ≡ decode_dirents fuel vec a
            ((offset + a.next_entry_offset) % 2 ^ 32)
            (dirent_of a ∷ entries)
  unfolding decode_dirents
  decode_round fuel fs a offset entries h e positive =
      let at : decode_at vec offset fs ≡ a = decode_at_sound offset fs a e in
      let inside : leb vec.len offset ≡ false = ground (arith, h) in
      let more : (a.next_entry_offset == 0) ≡ false = ground (arith, positive) in
      rw (inside, at, more) refl

  module _ (n : ℕ) (a b : FullInformation) (positive : 0 < n) (inside : n < vec.len)
      (low : n < 2 ^ 32) (first : decode_full_information (behind vec 0) ≡ some a)
      (second : decode_full_information (behind vec n) ≡ some b) (there : a.next_entry_offset ≡ n)
      (back : b.next_entry_offset ≡ 2 ^ 32 - n) where
    no_round :
        (fs : FullInformation) (offset : ℕ) (entries : List Dirent)
        → decode_dirents 0 vec fs offset entries ≡ unfinished
    unfolding decode_dirents
    no_round fs offset entries = refl

    round_trip :
        (fuel : ℕ) (fs : FullInformation) (entries : List Dirent)
        → (decode_dirents fuel vec fs 0 entries ≡ unfinished)
          × ((gs : FullInformation) (more : List Dirent)
              → decode_dirents fuel vec gs n more ≡ unfinished)
    round_trip zero fs entries = (no_round fs 0 entries, λ gs more. no_round gs n more)
    round_trip (suc fuel) fs entries =
        let to : (0 + a.next_entry_offset) % 2 ^ 32 ≡ n = omega (arith, there, low) in
        let from : (n + b.next_entry_offset) % 2 ^ 32 ≡ 0 = omega (arith, back, low) in
        (
          decode_round fuel fs a 0 entries (omega (arith, inside)) first
                (omega (arith, there, positive))
              ∙ ap (λ (k : ℕ). decode_dirents fuel vec a k (dirent_of a ∷ entries)) to
              ∙ (round_trip fuel fs entries).1 a (dirent_of a ∷ entries),
          λ gs more.
              decode_round fuel gs b n more inside second (omega (arith, back, low))
              ∙ ap (λ (k : ℕ). decode_dirents fuel vec b k (dirent_of b ∷ more)) from
              ∙ (round_trip fuel b (dirent_of b ∷ more)).0,
        )

    -- Decoding a reply does not end, whatever the number of rounds, where its first entry points to a
    -- sound one and that one points back to the first, by an offset that wraps at 32 bits.
    pub decode_dirents_diverges :
        (fuel : ℕ) (fs : FullInformation) (entries : List Dirent)
        → decode_dirents fuel vec fs 0 entries ≡ unfinished
    decode_dirents_diverges fuel fs entries = (round_trip fuel fs entries).0
