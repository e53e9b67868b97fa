-- ===== src/Directories/Position.antt =====
-- The place of a directory in its list of entries.
use photo_transfer_nativesmb.Common.{
  ℕ, zero, suc, ◌+◌, ◌-◌, ◌<◌, ◌≤◌, ◌^◌, ◌%◌, ◌≡◌, refl, ap, sym, ◌∙◌, List, [], ◌∷◌, length, ◌==◌,
  arith, inl, inr, Bool_cases,
}
use photo_transfer_nativesmb.Directories.{
  Dirent, Directory, seek_loop, seekdir, telldir, rewinddir, readdir,
}

-- A list from an entry on.
unfoldable pub suffix : ℕ → List Dirent → List Dirent
suffix zero es = es
suffix (suc n) [] = []
suffix (suc n) (e ∷ es) = suffix n es

pub record IsAt (dir : Directory) : Type 0 where
  pub within : dir.index ≤ length dir.entries
  pub place : dir.current ≡ suffix dir.index dir.entries

-- The states of a directory of those entries that an application can reach.
pub data Reached (es : List Dirent) : Directory → Type 0 where
  opened : Reached es (record { entries = es; current = es; index = 0 })
  by_read : {dir : Directory} → Reached es dir → Reached es (readdir dir).1
  by_seek :
      {dir : Directory} → (loc : ℕ) → loc < 2 ^ 64 → Reached es dir → Reached es (seekdir dir loc)
  by_rewind : {dir : Directory} → Reached es dir → Reached es (rewinddir dir)

record IsSought (es : List Dirent) (loc from : ℕ) (result : List Dirent × ℕ) : Type 0 where
  pub steps : ℕ
  pub within : steps ≤ length es
  pub place : result.0 ≡ suffix steps es
  pub index : result.1 ≡ from + steps
  pub exact : loc ≤ length es → steps ≡ loc

seek_loop-IsSought :
    (es : List Dirent) (loc from : ℕ)
    → loc < 2 ^ 64
    → from + length es < 2 ^ 31
    → IsSought es loc from (seek_loop es loc from)
unfolding seek_loop suffix
seek_loop-IsSought [] loc from h small = record {
  steps = 0;
  within = omega arith;
  place = refl;
  index = omega arith;
  exact = λ l. omega (arith, l);
}
seek_loop-IsSought (e ∷ es) loc from h small = elim (Bool_cases (loc == 0)) [
  | inl z ↦ rw z (record {
    steps = 0;
    within = omega arith;
    place = refl;
    index = omega arith;
    exact = λ l. ground (arith, z);
  })
  | inr z ↦
      let r =
        seek_loop-IsSought es ((loc + 2 ^ 64 - 1) % 2 ^ 64) ((from + 1) % 2 ^ 32) (omega arith)
          (omega (arith, small)) in
      rw z (record {
        steps = suc r.steps;
        within = omega (arith, r.within);
        place = r.place;
        index = omega (arith, r.index, small);
        exact = λ l. ground (arith, z, l, h, r.exact);
      })
]

suffix_next :
    (i : ℕ) (es : List Dirent) (e : Dirent) (rest : List Dirent)
    → e ∷ rest ≡ suffix i es
    → (i < length es) × (rest ≡ suffix (suc i) es)
unfolding suffix
suffix_next zero [] e rest h = cc
suffix_next zero (x ∷ es) e rest h = (omega arith, ground (arith, h))
suffix_next (suc i) [] e rest h = cc
suffix_next (suc i) (x ∷ es) e rest h =
    let (l, p) = suffix_next i es e rest h in (omega (arith, l), p)

read-IsAt :
    (es cur : List Dirent) (i : ℕ)
    → i ≤ length es
    → length es < 2 ^ 31
    → cur ≡ suffix i es
    → IsAt (readdir (record { entries = es; current = cur; index = i })).1
unfolding readdir
read-IsAt es [] i l small h = record { within = l; place = h }
read-IsAt es (e ∷ rest) i l small h =
    let (l', p) = suffix_next i es e rest h in
    let next : (i + 1) % 2 ^ 32 ≡ suc i = omega (arith, l', small) in
    rw next (record { within = omega (arith, l'); place = p })

read-entries :
    (es cur : List Dirent) (i : ℕ)
    → (readdir (record { entries = es; current = cur; index = i })).1.entries ≡ es
unfolding readdir
read-entries es [] i = refl
read-entries es (e ∷ rest) i = refl

module _ (es : List Dirent) (small : length es < 2 ^ 31) where
  Reached-entries : (dir : Directory) → Reached es dir → dir.entries ≡ es
  unfolding seekdir rewinddir
  Reached-entries _ opened = refl
  Reached-entries _ (by_read {dir} r) =
      read-entries dir.entries dir.current dir.index ∙ Reached-entries dir r
  Reached-entries _ (by_seek {dir} loc h r) = Reached-entries dir r
  Reached-entries _ (by_rewind {dir} r) = Reached-entries dir r

  Reached-small : (dir : Directory) → Reached es dir → length dir.entries < 2 ^ 31
  Reached-small dir r = rw (Reached-entries dir r) small

  Reached-IsAt : (dir : Directory) → Reached es dir → IsAt dir
  unfolding seekdir rewinddir suffix
  Reached-IsAt _ opened = record { within = omega arith; place = refl }
  Reached-IsAt _ (by_read {dir} r) =
      let a = Reached-IsAt dir r in
      read-IsAt dir.entries dir.current dir.index (a.within) (Reached-small dir r) (a.place)
  Reached-IsAt _ (by_seek {dir} loc h r) =
      let s = seek_loop-IsSought dir.entries loc 0 h (omega (arith, Reached-small dir r)) in
      let e : (seek_loop dir.entries loc 0).1 ≡ s.steps = omega (arith, s.index) in
      rw e (record { within = s.within; place = s.place })
  Reached-IsAt _ (by_rewind {dir} r) = record { within = omega arith; place = refl }

  -- The position that `smb2_telldir` gives of a directory, in whatever state reading, seeking and
  -- rewinding have left it, is one from which `smb2_seekdir` brings it back to that state: the
  -- position is at most the number of entries, and the directory's current entry the one that has that
  -- many before it. The directory has fewer than 2^31 entries.
  pub seekdir-telldir :
      (dir : Directory)
      → Reached es dir
      → (seekdir dir (telldir dir) ≡ dir)
        × (telldir dir ≤ length es)
        × (dir.current ≡ suffix (telldir dir) es)
  unfolding seekdir telldir
  seekdir-telldir dir r =
      let a = Reached-IsAt dir r in
      let same = Reached-entries dir r in
      let n = Reached-small dir r in
      let s =
        seek_loop-IsSought dir.entries dir.index 0 (omega (arith, a.within, n))
          (omega (arith, n)) in
      let steps = s.exact (a.within) in
      let index : (seek_loop dir.entries dir.index 0).1 ≡ dir.index =
        omega (arith, s.index, steps) in
      let current : (seek_loop dir.entries dir.index 0).0 ≡ dir.current =
        s.place ∙ ap (λ (k : ℕ). suffix k dir.entries) steps ∙ sym (a.place) in
      (
        ground (arith, index, current),
        omega (arith, a.within, ap (λ (q : List Dirent). length q) same),
        a.place ∙ ap (λ (q : List Dirent). suffix dir.index q) same,
      )
