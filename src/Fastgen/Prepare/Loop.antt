-- ===== src/Fastgen/Prepare/Loop.antt =====
-- `_prepare_lanes` ends, no assertion in it fails, and every lane that stays active has room for
-- the next decoding call.
use native.Mathlib.Decide.{ℕ_discrete, dec_le, dec_lt}
use cwm.Prelude.{
  ℕ, zero, suc, ◌+◌, ◌-◌, ◌*◌, ◌≤◌, ◌<◌, ◌≡◌, ◌≢◌, inl, inr, refl, ◌∙◌, true, false, arith, get_or,
}
use cwm.Fastgen.BlockSet.{BlockSet, count, holds_of_len}
use cwm.Fastgen.Lane.{lane_len}
use cwm.Fastgen.State.{Config, FastGen, ok, kill_lane}
use cwm.Fastgen.Sums.{sum_to}
use cwm.Fastgen.Invariant.{IsValid}
use cwm.Fastgen.Prepare.{
  Pass, avail, fixup, make_room, take_block, grow, prepare_round, prepare_loop, prepare_lanes,
  longest_first,
}
use cwm.Fastgen.Prepare.Order.{IsOrder-suc, longest_first-IsOrder, longest_first-covers}
use cwm.Fastgen.Prepare.Grow.{Given, give_block_lem}
use cwm.Fastgen.Prepare.Pigeonhole.{pigeonhole}
use cwm.Fastgen.Prepare.Room.{
  level, Ready, Visited, PassOk, Prepared, room_continue, room_stop, after_free, after_nactive,
}

-- What `__init__` makes sure of.
pub record IsConfig (cfg : Config) : Type 0 where
  pub sync-lt-page : cfg.sync_freq < cfg.page_len
  pub whole_pages : cfg.max_seq ≡ cfg.nblocks * cfg.page_len

module _ (bs : BlockSet) (cfg : Config) (c : IsConfig cfg) where
  open bs use {Set, len}

  -- The only active lane has every block when none is free.
  single-has-all :
      (g : FastGen Set)
      → IsValid bs cfg g level
      → g.nactive ≡ 1
      → len g.free_blocks ≡ 0
      → cfg.max_seq ≤ avail bs cfg (g.lane 0)
  single-has-all g v e f =
      omega (arith, pages (pigeonhole cfg.nblocks (g.lane 0).blocks all), c.whole_pages)
    where
      pages : {n : ℕ} → cfg.nblocks ≤ n → cfg.nblocks * cfg.page_len ≤ n * cfg.page_len
      pages h = grind arith

      all : (b : ℕ) → b < cfg.nblocks → 0 < count b (g.lane 0).blocks
      all b h =
          unfold sum_to in
          ground (
            arith,
            v.conserved b,
            holds_of_len bs b g.free_blocks f,
            (v.lanes 0 (omega arith)).agree b,
          )

  -- How a round that is short of a block ends.
  data Grown (p : Pass Set) : Pass Set → Type 0 where
    grown :
        (q : Pass Set)
        → PassOk bs cfg q
        → q.idx ≡ p.idx
        → q.idx < q.gen.nactive
        → q.gen.nactive ≤ p.gen.nactive
        → Ready bs cfg (q.gen.lane (q.decr q.idx))
        → Grown p q
    broke : (q : Pass Set) → q.stop ≡ true → Prepared bs cfg q.gen → Grown p q
    alone :
        (q : Pass Set) → q.stop ≡ false → q.idx ≡ q.gen.nactive → Prepared bs cfg q.gen → Grown p q

  module _ (p : Pass Set) (ok_p : PassOk bs cfg p) (h : p.idx < p.gen.nactive) where
    -- One block is enough: a decoding call writes less than a page.
    Ready-after :
        (g : FastGen Set)
        → Given bs cfg p.gen g (p.decr p.idx) level
        → Ready bs cfg (g.lane (p.decr p.idx))
    Ready-after g given =
        let old = ok_p.valid.lanes (p.decr p.idx) (ok_p.order.below p.idx (omega arith) h) in
        rw (given.longer, given.lane_len_same) (omega (arith, old.fits, old.synced, c.sync-lt-page))

    Visited-after :
        (g : FastGen Set)
        → Given bs cfg p.gen g (p.decr p.idx) level
        → (j : ℕ) → j < g.nactive
        → Visited bs cfg g p.decr p.idx j
    Visited-after g given j q = elim (ℕ_discrete j (p.decr p.idx)) [
      | yes e ↦ inl (rw e (Ready-after g given))
      | no ne ↦
          rw (given.others j ne, given.nactive_same) (ok_p.visited j (rw given.nactive_same at q))
    ]

    take_lem : len p.gen.free_blocks ≢ 0 → (q : Pass Set) × (take_block bs cfg p ≡ ok q) × Grown p q
    unfolding take_block
    take_lem f =
        let i = p.decr p.idx in
        let (g, e, given) =
          give_block_lem bs cfg p.gen i level ok_p.valid (ok_p.order.below p.idx (omega arith) h)
            f in
        let ready = Ready-after g given in
        let q = record p { gen = g } in
        let q_ok : PassOk bs cfg q = record {
          valid = given.valid;
          order = rw given.nactive_same ok_p.order;
          within = rw given.nactive_same ok_p.within;
          visited = Visited-after g given;
          going = ok_p.going;
        } in
        (
          q,
          ground (arith, e, ready),
          grown q q_ok refl (rw given.nactive_same h) (omega (arith, given.nactive_same)) ready,
        )

    alone_lem :
        len p.gen.free_blocks ≡ 0
        → p.gen.nactive ≡ 1
        → (q : Pass Set) × (take_block bs cfg p ≡ ok q) × Grown p q
    unfolding take_block
    alone_lem f e =
        let all = single-has-all p.gen ok_p.valid e f in
        let first : p.decr p.idx ≡ 0 = omega (arith, ok_p.order.below p.idx (omega arith) h) in
        let q = record p { idx = p.gen.nactive } in
        let done : Prepared bs cfg p.gen = record {
          valid = ok_p.valid;
          roomy = λ j r. let z : j ≡ 0 = omega arith in rw z (omega (arith, all));
        } in
        (q, rw first (ground (arith, all)), alone q ok_p.going refl done)

  Grown-weaken :
      (p p' : Pass Set) (q : Pass Set)
      → p'.idx ≡ p.idx
      → p'.gen.nactive ≤ p.gen.nactive
      → Grown p' q
      → Grown p q
  Grown-weaken p p' q i n (grown _ ok_q j lt le r) = grown q ok_q (j ∙ i) lt (omega arith) r
  Grown-weaken p p' q i n (broke _ s d) = broke q s d
  Grown-weaken p p' q i n (alone _ s e d) = alone q s e d

  module _ (p : Pass Set) (ok_p : PassOk bs cfg p) (h : p.idx < p.gen.nactive) where
    abbrev last_row : ℕ
    last_row = p.gen.nactive - 1

    -- The pass when a lane has been parked and there are more to visit.
    abbrev roomier : Pass Set
    roomier = record p {
      gen = kill_lane bs p.gen (p.decr last_row) true;
      decr = fixup (last_row - p.idx) p.idx p.decr last_row;
    }

    -- A pass with a free block needs no room.
    grow_free : len p.gen.free_blocks ≢ 0 → grow bs cfg p ≡ take_block bs cfg p
    unfolding grow make_room
    grow_free f = ground (arith, ok_p.going)

    grow_alone : last_row ≡ 0 → grow bs cfg p ≡ take_block bs cfg p
    unfolding grow make_room
    grow_alone e = ground (arith, ok_p.going)

    grow_stop :
        len p.gen.free_blocks ≡ 0
        → last_row ≢ 0
        → p.idx ≡ last_row
        → grow bs cfg p
          ≡ ok (record p { gen = kill_lane bs p.gen (p.decr last_row) true; stop = true })
    unfolding grow make_room
    grow_stop f pos e = ground arith

    grow_room :
        len p.gen.free_blocks ≡ 0
        → last_row ≢ 0
        → p.idx ≢ last_row
        → grow bs cfg p ≡ take_block bs cfg roomier
    unfolding grow make_room
    grow_room f pos e = ground (arith, ok_p.going)

    stop_lem :
        len p.gen.free_blocks ≡ 0
        → last_row ≢ 0
        → p.idx ≡ last_row
        → (q : Pass Set) × (grow bs cfg p ≡ ok q) × Grown p q
    stop_lem f pos e =
        let q = record p { gen = kill_lane bs p.gen (p.decr last_row) true; stop = true } in
        (
          q,
          grow_stop f pos e,
          broke q refl (room_stop bs cfg p last_row (omega arith) ok_p (omega arith) e),
        )

    room_lem :
        len p.gen.free_blocks ≡ 0
        → last_row ≢ 0
        → p.idx ≢ last_row
        → (q : Pass Set) × (grow bs cfg p ≡ ok q) × Grown p q
    room_lem f pos ne =
        let m = after_nactive bs cfg p last_row (omega arith) ok_p (omega arith) in
        let ok_r = room_continue bs cfg p last_row (omega arith) ok_p (omega arith) (omega arith) in
        let (q, e, r) =
          take_lem roomier ok_r (omega (arith, m))
            (after_free bs cfg p last_row (omega arith) ok_p (omega arith)) in
        (q, grow_room f pos ne ∙ e, Grown-weaken p roomier q refl (omega (arith, m)) r)

    grow_lem : (q : Pass Set) × (grow bs cfg p ≡ ok q) × Grown p q
    grow_lem = elim (ℕ_discrete (len p.gen.free_blocks) 0) [
      | no f ↦ let (q, e, r) = take_lem p ok_p h f in (q, grow_free f ∙ e, r)
      | yes f ↦ elim (ℕ_discrete last_row 0) [
        | yes z ↦ let (q, e, r) = alone_lem p ok_p h f (omega arith) in (q, grow_alone z ∙ e, r)
        | no pos ↦ elim (ℕ_discrete p.idx last_row) [
          | yes e ↦ stop_lem f pos e
          | no e ↦ room_lem f pos e
        ]
      ]
    ]

  -- A visited lane leaves the order.
  step-PassOk :
      (p : Pass Set)
      → PassOk bs cfg p
      → p.idx < p.gen.nactive
      → Ready bs cfg (p.gen.lane (p.decr p.idx))
      → PassOk bs cfg (record p { idx = p.idx + 1 })
  step-PassOk p ok_p h r = record {
    valid = ok_p.valid;
    order = IsOrder-suc ok_p.order;
    within = omega arith;
    visited = λ j q. elim (ok_p.visited j q) [
      | inl s ↦ inl s
      | inr (k, a, b, e) ↦ elim (ℕ_discrete k p.idx) [
        | yes z ↦ inl (rw (← e, z) r)
        | no z ↦ inr (k, omega arith, b, e)
      ]
    ];
    going = ok_p.going;
  }

  -- The loop from `p` ends well within the fuel.
  Ends : ℕ → Pass Set → Type 0
  Ends fuel p = (g : FastGen Set) × (prepare_loop bs cfg fuel p ≡ ok g) × Prepared bs cfg g

  Ends-done : (f : ℕ) (p : Pass Set) → PassOk bs cfg p → p.gen.nactive ≤ p.idx → Ends (suc f) p
  unfolding prepare_loop Ends
  Ends-done f p ok_p h = (
    p.gen,
    ground arith,
    record {
      valid = ok_p.valid;
      roomy = λ j q. elim (ok_p.visited j q) [
        | inl r ↦ omega arith
        | inr (k, a, b, _) ↦ absurd (omega arith)
      ];
    },
  )

  Ends-Prepared :
      (f : ℕ) (q : Pass Set) → q.idx ≡ q.gen.nactive → Prepared bs cfg q.gen → Ends (suc f) q
  unfolding prepare_loop Ends
  Ends-Prepared f q e d = (q.gen, ground arith, d)

  Ends-Ready :
      (f : ℕ) (p : Pass Set)
      → p.stop ≡ false
      → p.idx < p.gen.nactive
      → Ready bs cfg (p.gen.lane (p.decr p.idx))
      → Ends f (record p { idx = p.idx + 1 })
      → Ends (suc f) p
  unfolding prepare_loop prepare_round Ends
  Ends-Ready f p s h r (g, e, d) = (g, ground (arith, e), d)

  Ends-short :
      (f : ℕ) (p q : Pass Set)
      → p.idx < p.gen.nactive
      → ¬ Ready bs cfg (p.gen.lane (p.decr p.idx))
      → grow bs cfg p ≡ ok q
      → q.stop ≡ false
      → Ends f q
      → Ends (suc f) p
  unfolding prepare_loop prepare_round Ends
  Ends-short f p q h r e s (g, e', d) = (g, ground (arith, e, e'), d)

  Ends-broke :
      (f : ℕ) (p q : Pass Set)
      → p.idx < p.gen.nactive
      → ¬ Ready bs cfg (p.gen.lane (p.decr p.idx))
      → grow bs cfg p ≡ ok q
      → q.stop ≡ true
      → Prepared bs cfg q.gen
      → Ends (suc f) p
  unfolding prepare_loop prepare_round Ends
  Ends-broke f p q h r e s d = (q.gen, ground (arith, e), d)

  Ends-Grown :
      (f : ℕ) (p q : Pass Set)
      → p.idx < p.gen.nactive
      → ¬ Ready bs cfg (p.gen.lane (p.decr p.idx))
      → grow bs cfg p ≡ ok q
      → 2 * (p.gen.nactive - p.idx) < suc (suc f)
      → ((r : Pass Set) → PassOk bs cfg r → 2 * (r.gen.nactive - r.idx) < f → Ends f r)
      → Grown p q
      → Ends (suc (suc f)) p
  Ends-Grown f p q h r e bound rest (grown _ ok_q i lt le ready) =
      Ends-short (suc f) p q h r e ok_q.going (
        Ends-Ready f q ok_q.going lt ready
          (rest (record q { idx = q.idx + 1 }) (step-PassOk q ok_q lt ready) (omega arith)))
  Ends-Grown f p q h r e bound rest (broke _ s d) = Ends-broke (suc f) p q h r e s d
  Ends-Grown f p q h r e bound rest (alone _ s i d) =
      Ends-short (suc f) p q h r e s (Ends-Prepared f q i d)

  loop_lem :
      (fuel : ℕ) (p : Pass Set) → PassOk bs cfg p → 2 * (p.gen.nactive - p.idx) < fuel → Ends fuel p
  loop_lem zero p ok_p h = elim h [ ]
  loop_lem (suc zero) p ok_p h = Ends-done 0 p ok_p (omega arith)
  loop_lem (suc (suc f)) p ok_p h = elim (dec_lt p.idx p.gen.nactive) [
    | no stop ↦ Ends-done (suc f) p ok_p (omega arith)
    | yes lt ↦
        elim (dec_le (lane_len (p.gen.lane (p.decr p.idx)) + cfg.sync_freq)
          (avail bs cfg (p.gen.lane (p.decr p.idx)))) [
            | yes r ↦ Ends-Ready (suc f) p ok_p.going lt r (
                loop_lem (suc f) (record p { idx = p.idx + 1 }) (step-PassOk p ok_p lt r)
                  (omega arith))
            | no r ↦ let (q, e, w) = grow_lem p ok_p lt in Ends-Grown f p q lt r e h (loop_lem f) w
          ]
  ]

-- In a valid state, with a decoding call shorter than a page and whole pages in the cache,
-- `_prepare_lanes` ends without a failed assertion, for which 2 rounds for each active lane and one
-- more are enough. The state is valid afterwards, and each lane that is still active has room for
-- the tokens of the next decoding call: sync_freq of them, or fewer up to max_seq.
pub prepare_lanes_lem :
    (bs : BlockSet) (cfg : Config) (g : FastGen bs.Set) (fuel : ℕ)
    → IsConfig cfg
    → IsValid bs cfg g level
    → 2 * g.nactive < fuel
    → (g' : FastGen bs.Set) × (prepare_lanes bs cfg fuel g ≡ ok g') × Prepared bs cfg g'
unfolding prepare_lanes Ends
prepare_lanes_lem bs cfg g fuel c v h =
    let size : ℕ → ℕ = λ i. lane_len (g.lane i) in
    loop_lem bs cfg c fuel
      (record {
        gen = g;
        decr = λ k. get_or (longest_first g.nactive size) k 0;
        idx = 0;
        stop = false;
      })
      (record {
        valid = v;
        order = longest_first-IsOrder g.nactive size;
        within = omega arith;
        visited = λ j q.
            let (k, lt, e) = longest_first-covers g.nactive size j q in inr (k, omega arith, lt, e);
        going = refl;
      })
      (omega arith)
