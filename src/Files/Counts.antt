-- ===== src/Files/Counts.antt =====
-- What a single read or write asks for, of what the application wants.
use photo_transfer_nativesmb.Common.{ℕ, ◌*◌, ◌≡◌, ◌<◌, ◌≤◌, ◌^◌, arith, ltb, if◌then◌else◌, ◌⊎◌}
use photo_transfer_nativesmb.Smb2.{Context}
use photo_transfer_nativesmb.Smb2.Dialect
use photo_transfer_nativesmb.Files.{limit_count, needed_credits}

-- The credits of a context allow a request of one credit at least, where the dialect counts them.
abbrev pub HasCredits : Context → Type 0
HasCredits c = (c.dialect ≤ Dialect.v0202) ⊎ (0 < c.credits)

pub record IsLimited (max : ℕ) (c : Context) (count n : ℕ) : Type 0 where
  pub wanted : n ≤ count
  pub allowed : n ≤ max
  pub paid : (n ≤ 65536) ⊎ ((Dialect.v0202 < c.dialect) × (n ≤ c.credits * 65536))
  pub rest : n ≤ 1008 * 65536
  pub progress : HasCredits c → 0 < n

-- A request for some bytes, where the server allows some, is for no more than are wanted, than the
-- server allows, than 1008 times 64 KiB, and than there are credits for, or for 64 KiB at most; and for
-- some, if there are credits or the dialect does not count them.
pub limit_count-IsLimited :
    (max : ℕ) (c : Context) (count : ℕ)
    → 0 < count
    → count < 2 ^ 32
    → 0 < max
    → max < 2 ^ 32
    → IsLimited max c count (limit_count max c count)
unfolding limit_count needed_credits
limit_count-IsLimited max c count h1 h2 h3 h4 = record {
  wanted = ground (arith, h1, h2, h3, h4);
  allowed = ground (arith, h1, h2, h3, h4);
  paid = ground (arith, h1, h2, h3, h4);
  rest = ground (arith, h1, h2, h3, h4);
  progress = λ r. ground (arith, h1, h2, h3, h4, r);
}

-- A request for nothing, in a dialect that counts credits, is turned into one for as much as the
-- credits allow, up to 1008 times 64 KiB.
pub limit_count_nothing :
    (max : ℕ) (c : Context)
    → Dialect.v0202 < c.dialect
    → limit_count max c 0 ≡ (if ltb c.credits 1008 then c.credits else 1008) * 65536
unfolding limit_count needed_credits
limit_count_nothing max c h = ground (arith, h)
