-- ===== src/Fastgen/Admit/Added.antt =====
-- The loop of `_add_lanes` gives every new lane the blocks that it asked for, out of the free ones.
use native.Mathlib.Decide.{dec_lt}
use cwm.Prelude.{
  ℕ, ◌+◌, ◌*◌, ◌≤◌, ◌<◌, ◌≡◌, inl, inr, refl, Bool, true, false, arith, ◌==◌, ltb, length,
  Bool-cases, List, [], ◌∷◌,
}
use native.Mathlib.Numerals.{add-one}
use cwm.Fastgen.BlockSet.{BlockSet, one, count, holds}
use cwm.Fastgen.Lane.{Lane, Packet, lane_len, from_pkt, set_blocks}
use cwm.Fastgen.State.{Config, FastGen, update}
use cwm.Fastgen.Sums.{sum_to, sum_to-same}
use cwm.Fastgen.Invariant.{owned, LaneOk, Waiting, AllWaiting}
use cwm.Fastgen.Kill.{AllWaiting-append}
use cwm.Fastgen.Admit.{
  Event, packet, Admission, Round, next, break, forever, ask, buffer, place, wait,
}

-- What the client promises: a prompt is not empty, and shorter than the cache.
abbrev pub AllFit : ℕ → List Event → Type 0
AllFit max_seq [] = Unit
AllFit max_seq (packet p ∷ q) =
    (0 < length p.tokens) × (length p.tokens < max_seq) × AllFit max_seq q
AllFit max_seq (_ ∷ q) = AllFit max_seq q

module _ (bs : BlockSet) (cfg : Config) where
  open bs use {Set, len}

  -- A lane that has been given its blocks and not been prefilled.
  pub record NewOk (l : Lane Set) : Type 0 where
    pub agree : (b : ℕ) → count b l.blocks ≡ holds bs b l.blockset
    pub housed : 0 < length l.blocks
    pub room : lane_len l + buffer ≤ length l.blocks * cfg.page_len
    pub begun : 0 < lane_len l
    pub fits : lane_len l < cfg.max_seq
    pub in_cache : l.maxlen ≤ cfg.max_seq

  pub record IsAdmitting (a : Admission Set) (ahead : ℕ → ℕ) : Type 0 where
    pub conserved :
        (b : ℕ)
        → holds bs b a.gen.free_blocks + owned bs cfg a.idx a.gen.lane b ≡ one (ltb b cfg.nblocks)
    pub from : a.gen.nactive ≤ a.idx
    pub upto : a.idx ≤ cfg.max_batch
    pub lanes :
        (i : ℕ)
        → i < a.gen.nactive
        → LaneOk bs cfg (a.gen.lane i) (a.gen.blktbl i) (a.gen.seqlen i) (a.gen.maxlen i) (ahead i)
    pub new : (i : ℕ) → a.gen.nactive ≤ i → i < a.idx → NewOk (a.gen.lane i)
    pub parked : AllWaiting bs cfg a.gen.parking
    pub queued : AllFit cfg.max_seq a.queue

  -- The blocks asked for hold the tokens and the buffer.
  ask_enough : (l : Lane Set) → 0 < cfg.page_len → lane_len l + buffer ≤ ask bs cfg l * cfg.page_len
  ask_enough l h = omega arith

  ask_pos : (l : Lane Set) → 0 < cfg.page_len → 0 < ask bs cfg l
  ask_pos l h = grind (arith, ask_enough l h)

  pub from_pkt-Waiting :
      (p : Packet)
      → 0 < length p.tokens
      → length p.tokens < cfg.max_seq
      → Waiting bs cfg (from_pkt bs p cfg.max_seq cfg.max_gen)
  unfolding from_pkt
  from_pkt-Waiting p h k = record {
    no_blocks = bs.len-empty;
    begun = omega arith;
    fits = omega arith;
    in_cache = ground arith;
  }

  -- How a round ends: with a lane more, at the end of the loop, or waiting for the queue.
  pub data Placed (ahead : ℕ → ℕ) (idx nactive : ℕ) : Round Set → Type 0 where
    went_on :
        (a : Admission Set)
        → IsAdmitting a ahead
        → a.idx ≡ idx + 1
        → a.gen.nactive ≡ nactive
        → Placed ahead idx nactive (next a)
    ended :
        (a : Admission Set)
        → IsAdmitting a ahead
        → a.gen.nactive ≡ nactive
        → Placed ahead idx nactive (break a)
    waits : idx ≡ 0 → Placed ahead idx nactive forever

  module _ (a : Admission Set) (ahead : ℕ → ℕ) (v : IsAdmitting a ahead) (l : Lane Set)
      (w : Waiting bs cfg l) (page : 0 < cfg.page_len) (h : a.idx < cfg.max_batch)
      (enough : ask bs cfg l ≤ len a.gen.free_blocks) where
    abbrev taken : Set × Set
    taken = bs.take (ask bs cfg l) a.gen.free_blocks

    abbrev new_lane : Lane Set
    new_lane = record l { blockset = taken.0; blocks = bs.tolist taken.0 }

    abbrev admitted : Admission Set
    admitted = record a {
      gen = record a.gen { free_blocks = taken.1; lane = update a.gen.lane a.idx new_lane };
      tokens = a.tokens + lane_len l;
      idx = a.idx + 1;
    }

    blocks_len : length (bs.tolist taken.0) ≡ ask bs cfg l
    blocks_len =
        omega (arith, bs.length-tolist taken.0, bs.len-take (ask bs cfg l) a.gen.free_blocks)

    new_lane-NewOk : NewOk new_lane
    new_lane-NewOk = record {
      agree = λ b. bs.count-tolist b taken.0;
      housed = rw blocks_len (ask_pos l page);
      room = rw blocks_len (ask_enough l page);
      begun = w.begun;
      fits = w.fits;
      in_cache = w.in_cache;
    }

    owned_admitted :
        (b : ℕ)
        → owned bs cfg (a.idx + 1) admitted.gen.lane b
          ≡ owned bs cfg a.idx a.gen.lane b + holds bs b taken.0
    owned_admitted b = rw add-one (
        unfold sum_to in
        omega (
          arith,
          sum_to-same a.idx (λ j. holds bs b (admitted.gen.lane j).blockset)
              (λ j. holds bs b (a.gen.lane j).blockset) (λ j q. ground arith),
          last_one,
        ))
      where
        last_one : holds bs b (admitted.gen.lane a.idx).blockset ≡ holds bs b taken.0
        last_one = ground arith

    admitted-IsAdmitting : IsAdmitting admitted ahead
    admitted-IsAdmitting = record {
      conserved = λ b. omega (
        arith,
        v.conserved b,
        owned_admitted b,
        bs.count-take (ask bs cfg l) b a.gen.free_blocks,
      );
      from = omega (arith, v.from);
      upto = omega arith;
      lanes = λ i q. elim (Bool-cases (a.idx == i)) [
        | inl e ↦ absurd (ground (arith, v.from))
        | inr e ↦ rw e (v.lanes i q)
      ];
      new = λ i p q. elim (Bool-cases (a.idx == i)) [
        | inl e ↦ rw e new_lane-NewOk
        | inr e ↦ rw e (v.new i p (ground arith))
      ];
      parked = v.parked;
      queued = v.queued;
    }

  module _ (page : 0 < cfg.page_len) (ahead : ℕ → ℕ) where
    wait-IsAdmitting :
        (a : Admission Set) (l : Lane Set) (parked : Bool)
        → IsAdmitting a ahead
        → Waiting bs cfg l
        → IsAdmitting (record a { gen = wait bs cfg a.gen l parked }) ahead
    unfolding wait
    wait-IsAdmitting a l true v w = record {
      conserved = v.conserved;
      from = v.from;
      upto = v.upto;
      lanes = v.lanes;
      new = v.new;
      parked = (w, v.parked);
      queued = v.queued;
    }
    wait-IsAdmitting a l false v w = record {
      conserved = v.conserved;
      from = v.from;
      upto = v.upto;
      lanes = v.lanes;
      new = v.new;
      parked = AllWaiting-append bs cfg a.gen.parking l v.parked w;
      queued = v.queued;
    }

    wait_nactive :
        (g : FastGen Set) (l : Lane Set) (parked : Bool)
        → (wait bs cfg g l parked).nactive ≡ g.nactive
    unfolding wait
    wait_nactive g l true = refl
    wait_nactive g l false = refl

    place_next :
        (a : Admission Set) (l : Lane Set) (parked : Bool) (v : IsAdmitting a ahead)
        (w : Waiting bs cfg l) (h : a.idx < cfg.max_batch)
        (enough : ask bs cfg l ≤ len a.gen.free_blocks)
        → place bs cfg a l parked ≡ next (admitted a ahead v l w page h enough)
    unfolding place set_blocks
    place_next a l parked v w h enough = ground (arith, w.no_blocks)

    place-wait :
        (a : Admission Set) (l : Lane Set) (parked : Bool)
        → len a.gen.free_blocks < ask bs cfg l
        → place bs cfg a l parked ≡ break (record a { gen = wait bs cfg a.gen l parked })
    unfolding place
    place-wait a l parked h = ground arith

    pub place_lem :
        (a : Admission Set) (l : Lane Set) (parked : Bool)
        → IsAdmitting a ahead
        → Waiting bs cfg l
        → a.idx < cfg.max_batch
        → Placed ahead a.idx a.gen.nactive (place bs cfg a l parked)
    place_lem a l parked v w h = elim (dec_lt (len a.gen.free_blocks) (ask bs cfg l)) [
      | yes short ↦ rw (place-wait a l parked short) (
          ended (record a { gen = wait bs cfg a.gen l parked }) (wait-IsAdmitting a l parked v w)
            (wait_nactive a.gen l parked))
      | no enough ↦
          let e : ask bs cfg l ≤ len a.gen.free_blocks = omega arith in
          rw (place_next a l parked v w h e) (
            went_on (admitted a ahead v l w page h e) (admitted-IsAdmitting a ahead v l w page h e)
              refl refl)
    ]

    -- The same admission with less in the queue, or less parked.
    pub queue-IsAdmitting :
        (a : Admission Set) (q : List Event) (eoq : Bool)
        → IsAdmitting a ahead
        → AllFit cfg.max_seq q
        → IsAdmitting (record a { queue = q; eoq = eoq }) ahead
    queue-IsAdmitting a q eoq v k = record {
      conserved = v.conserved;
      from = v.from;
      upto = v.upto;
      lanes = v.lanes;
      new = v.new;
      parked = v.parked;
      queued = k;
    }

    pub unparked-IsAdmitting :
        (a : Admission Set) (ls : List (Lane Set))
        → IsAdmitting a ahead
        → AllWaiting bs cfg ls
        → IsAdmitting (record a { gen = record a.gen { parking = ls } }) ahead
    unparked-IsAdmitting a ls v k = record {
      conserved = v.conserved;
      from = v.from;
      upto = v.upto;
      lanes = v.lanes;
      new = v.new;
      parked = k;
      queued = v.queued;
    }
