-- ===== src/Fastgen/Admit.antt =====
-- `_add_lanes` of cwm/fastgen/generate.py: parked lanes and then packets from the queue become
-- lanes, as long as there are rows and cache blocks for them. The check that the ranks of a tensor
-- parallel group saw the same packets is not modelled.
pub mod Added
pub mod Rounds
pub mod Deferred
use cwm.Prelude.{
  ℕ, zero, suc, ◌+◌, ◌-◌, ◌*◌, ◌/◌, Bool, true, false, ◌&&◌, not, List, [], ◌∷◌, ◌++◌, Option, none,
  some, ◌==◌, ltb, leb, if◌then◌else◌, length,
}
use cwm.Fastgen.BlockSet.{BlockSet}
use cwm.Fastgen.Lane.{Lane, Packet, lane_len, from_pkt, set_blocks, free}
use cwm.Fastgen.State.{Config, FastGen, Run, ok, fault, spin, update}

-- What the queue does over time: a packet or the final None arrives, or it is found empty.
pub data Event : Type 0 where
  packet : Packet → Event
  end_of_queue empty : Event

-- What `q.get` returns: with the packet or None, Empty, or nothing ever.
pub data Got : Type 0 where
  got : Option Packet → List Event → Got
  nothing : List Event → Got
  blocked : Got

-- `q.get(block)`: a blocking call waits while the queue is empty.
pub get : Bool → List Event → Got
get block [] = if block then blocked else nothing []
get block (packet p ∷ q) = got (some p) q
get block (end_of_queue ∷ q) = got none q
get block (empty ∷ q) = if block then get block q else nothing q

-- The variables of the loop.
pub record Admission (S : Type 0) : Type 0 where
  pub gen : FastGen S
  pub queue : List Event
  pub eoq : Bool
  pub idx : ℕ
  pub tokens : ℕ

-- How a round ends: with one more lane, or with the end of the loop.
pub data Round (S : Type 0) : Type 0 where
  next : Admission S → Round S
  break : Admission S → Round S
  failed forever : Round S

is_empty {ℓ} : {A : Type ℓ} → List A → Bool
is_empty [] = true
is_empty (x ∷ xs) = false

abbrev pub buffer : ℕ
buffer = 128

module _ (bs : BlockSet) (cfg : Config) where
  open bs use {Set, len, take}

  -- The number of blocks that a lane asks for: its tokens and a buffer, in whole pages.
  abbrev pub ask : Lane Set → ℕ
  ask l = (lane_len l + (buffer + cfg.page_len - 1)) / cfg.page_len

  -- A lane that does not fit waits: in front if it was parked, else at the end.
  unfoldable pub wait : FastGen Set → Lane Set → Bool → FastGen Set
  wait g l true = record g { parking = l ∷ g.parking }
  wait g l false = record g { parking = g.parking ++ l ∷ [] }

  housed : Admission Set → Set → Option (Lane Set) → Round Set
  housed a rest none = failed
  housed a rest (some l) = next (record a {
    gen = record a.gen { free_blocks = rest; lane = update a.gen.lane a.idx l };
    tokens = a.tokens + lane_len l;
    idx = a.idx + 1;
  })

  unfoldable pub place : Admission Set → Lane Set → Bool → Round Set
  unfolding wait housed
  place a l parked =
      if ltb (len a.gen.free_blocks) (ask l)
      then break (record a { gen = wait a.gen l parked })
      else let (blocks, rest) = take (ask l) a.gen.free_blocks in
        housed a rest (set_blocks bs l blocks)

  received : Admission Set → Got → Round Set
  received a (got (some p) q) =
      place (record a { queue = q }) (from_pkt bs p cfg.max_seq cfg.max_gen) false
  received a (got none q) = break (record a { queue = q; eoq = true })
  received a (nothing q) = break (record a { queue = q })
  received a blocked = forever

  -- The lanes that are parked come first.
  choose : Admission Set → List (Lane Set) → Round Set
  choose a (l ∷ parking) = place (record a { gen = record a.gen { parking = parking } }) l true
  choose a [] = if a.eoq then break a else received a (get (a.idx == 0) a.queue)

  unfoldable pub admit_round : Admission Set → Round Set
  unfolding choose received get
  admit_round a = choose a a.gen.parking

  admit_next : (Admission Set → Run (Admission Set)) → Round Set → Run (Admission Set)
  admit_next again (next a) = again a
  admit_next again (break a) = ok a
  admit_next again failed = fault
  admit_next again forever = spin

  -- `while idx < self.max_batch`, with the rows that are left.
  unfoldable pub admit_loop : ℕ → Admission Set → Run (Admission Set)
  unfolding admit_next
  admit_loop zero a = ok a
  admit_loop (suc rows) a = admit_next (admit_loop rows) (admit_round a)

  -- The added lanes, from the last one down, go back in front of the parked ones.
  unfoldable pub defer : ℕ → ℕ → FastGen Set → FastGen Set
  defer zero first g = g
  defer (suc n) first g =
      let (l, free_blocks) = free bs (g.lane (first + n)) g.free_blocks in
      defer n first (record g {
        lane = update g.lane (first + n) l;
        free_blocks = free_blocks;
        parking = l ∷ g.parking;
      })

  -- Too few tokens and lanes, and there is something else to do.
  abbrev pub too_few : Admission Set → Bool
  too_few a =
      ltb a.tokens cfg.min_prefill
      && ltb (a.idx - a.gen.nactive) cfg.min_prefill_batch
      && (not a.eoq && ltb 0 a.gen.nactive)

  unfoldable pub settle : Admission Set → Admission Set
  unfolding defer
  settle a =
      if too_few a
      then record a { gen = defer (a.idx - a.gen.nactive) a.gen.nactive a.gen; idx = a.gen.nactive }
      else a

  settled : Run (Admission Set) → Run (Admission Set)
  settled (ok a) = ok (settle a)
  settled fault = fault
  settled spin = spin

  -- The result's `idx` is `nactive` and the number of lanes added.
  unfoldable pub add_lanes : FastGen Set → Bool → List Event → Run (Admission Set)
  unfolding settled settle admit_loop
  add_lanes g eoq queue = settled (
      admit_loop (cfg.max_batch - g.nactive)
        (record { gen = g; queue = queue; eoq = eoq; idx = g.nactive; tokens = 0 }))
