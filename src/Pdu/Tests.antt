-- ===== src/Pdu/Tests.antt =====
-- Concrete requests, chains and queues.
use photo_transfer_nativesmb.Common.{
  inl, ℕ, ◌+◌, ◌≡◌, ◌≢◌, ◌≤◌, ◌<◌, ◌⊎◌, refl, [], ◌∷◌, map, All, replicate, true, false, arith,
  some,
}
use photo_transfer_nativesmb.Wire.{ok}
use photo_transfer_nativesmb.Wire.Vectors.{IsWf, sum_len}
use photo_transfer_nativesmb.Smb2.{Header, Pdu, Context, header_size, tree_id}
use photo_transfer_nativesmb.Smb2.Command
use photo_transfer_nativesmb.Smb2.NtStatus
use photo_transfer_nativesmb.Trees.{is_treeless, current_tree_id, get_tree_id_for_pdu}
use photo_transfer_nativesmb.Header.{smb2_sign}
use photo_transfer_nativesmb.Header.RoundTrip.{IsWire}
use photo_transfer_nativesmb.Pdu.{allocate_pdu, charge_for_one, add_compound_pdu}
use photo_transfer_nativesmb.Pdu.Make.{IsSession, allocate_pdu-IsWire}
use photo_transfer_nativesmb.Pdu.Chain.{IsMade, IsCompound, add_compound_pdu-IsCompound}
use photo_transfer_nativesmb.Pdu.Queues.{Queues, correlate_reply, is_async}
use photo_transfer_nativesmb.Pdu.Reply.{Waits, correlate_reply_final, correlate_reply_async}
use photo_transfer_nativesmb.Pdu.Timeout.{timeout_pdus, expired}
use photo_transfer_nativesmb.Pdu.Apart.{IsSplit, IsPairwise, IsDistinct}
use photo_transfer_nativesmb.Pdu.Expiry.{live_chains, live, over_chains, over, timeout_pdus-live}

abbrev client : Context
client = record {
  is_server = false;
  dialect = 0x0302;
  credits = 10;
  seal = false;
  sign = false;
  timeout = 30;
  message_id = 4;
  session_id = 77;
  async_id = 6;
  tree_ids = 0xdeadbeef ∷ 5 ∷ replicate 30 0;
  tree_id_top = 1;
  tree_id_cur = 1;
}

-- A client that has not negotiated yet.
abbrev fresh : Context
fresh = record client {
  dialect = 0;
  credits = 1;
  message_id = 0;
  session_id = 0;
  tree_ids = 0xdeadbeef ∷ replicate 31 0;
  tree_id_top = 0;
  tree_id_cur = 0;
}

fresh-IsSession : IsSession fresh
unfolding current_tree_id
fresh-IsSession = omega arith

allocate_pdu-IsWire_example :
    (p : Pdu) × (allocate_pdu fresh 1 100 Command.negotiate ≡ some p)
    × IsWire p.header
    × IsWf p.out
    × (sum_len p.out.iov ≡ header_size)
    × (p.header.credit_request_response + 1 ≡ 1024)
    × (get_tree_id_for_pdu fresh (some p.header) ≡ (ok, tree_id p.header))
    × (charge_for_one fresh p.header ≡ 0)
unfolding is_treeless
allocate_pdu-IsWire_example =
    allocate_pdu-IsWire fresh 1 100 Command.negotiate fresh-IsSession (inl refl) (inl refl)
      (omega arith)

abbrev header : ℕ → ℕ → ℕ → Header
header mid flags status = record {
  protocol_id = smb2_sign;
  struct_size = 64;
  credit_charge = 1;
  status = status;
  command = Command.read;
  credit_request_response = 100;
  flags = flags;
  next_command = 0;
  message_id = mid;
  async_sync = 0x0000_0005_0000_feff;
  session_id = 77;
  signature = replicate 16 0;
}

abbrev pdu : ℕ → Header → ℕ → Pdu
pdu ref h timeout = record {
  ref = ref;
  header = h;
  prev_compound_mid = 0;
  out = record {
    num_done = 0;
    total_size = 64;
    iov = record { buf = replicate 64 0; len = 64 } ∷ [];
  };
  seal = false;
  crypt = [];
  timeout = timeout;
}

pdu-IsMade : (ref mid : ℕ) → IsMade (pdu ref (header mid 0 0) 0)
unfolding sum_len
pdu-IsMade ref mid = record {
  iov0 = record { buf = replicate 64 0; len = 64 };
  rest = [];
  vectors = refl;
  header = omega arith;
  backed = omega arith;
  size = omega arith;
  flags = omega arith;
}

add_compound_pdu-IsCompound_example :
    let chain = add_compound_pdu (pdu 1 (header 0 0 0) 0 ∷ []) (pdu 2 (header 0 0 0) 0) in
    IsCompound chain × All IsMade chain × (map (λ p. p.ref) chain ≡ 1 ∷ 2 ∷ [])
unfolding IsCompound
add_compound_pdu-IsCompound_example =
    add_compound_pdu-IsCompound (pdu 1 (header 0 0 0) 0) [] (pdu 2 (header 0 0 0) 0)
      (pdu-IsMade 1 0, tt) (pdu-IsMade 2 0) tt

-- Two requests wait, and the second is answered.
abbrev request : ℕ → Pdu
request mid = pdu mid (header mid 0 0) 0

abbrev waiting : Queues
waiting = record { outqueue = []; waitqueue = request 8 ∷ request 9 ∷ [] }

request-Waits : Waits waiting.waitqueue (request 8 ∷ []) [] (request 9) 9
request-Waits = record {
  queue = refl;
  id = refl;
  others = (omega arith, tt);
  before = (omega arith, tt);
  behind = tt;
}

correlate_reply_final_example :
    let (s, c', qs', r) = correlate_reply client waiting (pdu 20 (header 9 1 0) 0) in
    (s ≡ ok)
    × (c' ≡ client)
    × (qs'.waitqueue ≡ request 8 ∷ [])
    × (qs'.outqueue ≡ [])
    × (r.header.message_id ≡ 9)
    × ((false ≡ true)
          × (is_async r.header ≡ true)
          × (r.header.async_sync ≡ (request 9).header.async_sync)
        ⊎ (false ≡ false)
          × ((Command.read ≡ Command.tree_connect) × (tree_id r.header ≡ 5)
              ⊎ (Command.read ≢ Command.tree_connect) × (tree_id r.header ≡ 5)))
    × ((100 ≤ 0xf000) × (r.header.credit_request_response ≡ 100)
        ⊎ (0xf000 < 100) × (r.header.credit_request_response ≡ 0xffff))
    × (1 ≤ r.header.credit_charge)
    × (1 ≤ r.header.credit_charge)
correlate_reply_final_example =
    correlate_reply_final client waiting (request 8 ∷ []) [] (request 9) (pdu 20 (header 9 1 0) 0)
      request-Waits tt refl

correlate_reply_async_example :
    let (s1, c1, qs1, r1) =
      correlate_reply client waiting (pdu 20 (header 9 3 NtStatus.pending) 0) in
    let (s2, c2, qs2, r2) = correlate_reply c1 qs1 (pdu 21 (header 9 1 0) 0) in
    (s1 ≡ ok)
    × (s2 ≡ ok)
    × (r1.header.message_id ≡ 9)
    × (r2.header.message_id ≡ 9)
    × (r1.header.async_sync ≡ 7)
    × (r2.header.async_sync ≡ 7)
    × (r1.header.flags ≡ 3)
    × (is_async r1.header ≡ true)
    × (is_async r2.header ≡ true)
    × (map (λ p. p.ref) qs1.waitqueue ≡ 8 ∷ 9 ∷ [])
    × (qs2.waitqueue ≡ request 8 ∷ [])
    × (qs2.outqueue ≡ [])
correlate_reply_async_example =
    correlate_reply_async client waiting (request 8 ∷ []) [] (request 9)
      (pdu 20 (header 9 3 NtStatus.pending) 0) (pdu 21 (header 9 1 0) 0) request-Waits tt refl refl
      refl

-- At time 100 the chain and one of the waiting requests are over time.
abbrev late : Queues
late = record {
  outqueue = (pdu 1 (header 0 0 0) 50 ∷ pdu 2 (header 0 0 0) 50 ∷ []) ∷ [];
  waitqueue = pdu 3 (header 3 0 0) 0 ∷ pdu 4 (header 4 0 0) 99 ∷ pdu 5 (header 5 0 0) 100 ∷ [];
}

late-IsSplit : IsSplit late
unfolding IsPairwise IsDistinct
late-IsSplit = ground arith

timeout_pdus-live_example : timeout_pdus 100 late ≡ (
  record { outqueue = []; waitqueue = pdu 3 (header 3 0 0) 0 ∷ pdu 5 (header 5 0 0) 100 ∷ [] },
  1 ∷ 4 ∷ [],
)
unfolding live_chains live over_chains over expired
timeout_pdus-live_example = timeout_pdus-live 100 late late-IsSplit
