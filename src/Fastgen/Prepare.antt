-- ===== src/Fastgen/Prepare.antt =====
-- `_prepare_lanes` of cwm/fastgen/generate.py: before a decoding call every active lane is given
-- the block that it will run into, and short lanes are parked when there is none to give.
pub mod Order
pub mod Grow
mod Pigeonhole
pub mod Room
pub mod Loop
use cwm.Prelude.{
  ℕ, zero, suc, ◌+◌, ◌-◌, ◌*◌, Bool, true, false, ◌&&◌, ◌||◌, List, [], ◌∷◌, ◌++◌, map, Option,
  none, some, ◌==◌, ltb, leb, if◌then◌else◌, length, get_or,
}
use Prim.Native.Nat.{min}
use cwm.Fastgen.BlockSet.{BlockSet}
use cwm.Fastgen.Lane.{Lane, lane_len, add_block}
use cwm.Fastgen.State.{Config, FastGen, Run, ok, fault, spin, update, kill_lane}

-- `sorted` on the pairs (-len, i): longer first, and the lower index first among equals.
insert_lane : (ℕ → ℕ) → ℕ → List ℕ → List ℕ
insert_lane size i [] = i ∷ []
insert_lane size i (j ∷ js) =
    if ltb (size j) (size i) || (size j == size i && ltb i j)
    then i ∷ j ∷ js
    else j ∷ insert_lane size i js

-- The indices below `n` in that order.
unfoldable pub longest_first : ℕ → (ℕ → ℕ) → List ℕ
unfolding insert_lane
longest_first zero size = []
longest_first (suc n) size = insert_lane size n (longest_first n size)

-- The loop that looks for the entry `last` from position `nxt` on, for `k` positions, and writes
-- the entry of position `last` over the first that it finds.
pub fixup : ℕ → ℕ → (ℕ → ℕ) → ℕ → ℕ → ℕ
fixup zero nxt decr last = decr
fixup (suc k) nxt decr last =
    if decr nxt == last then update decr nxt (decr last) else fixup k (nxt + 1) decr last

-- The variables of the loop. `stop` is set by the `break`.
pub record Pass (S : Type 0) : Type 0 where
  pub gen : FastGen S
  pub decr : ℕ → ℕ
  pub idx : ℕ
  pub stop : Bool

module _ (bs : BlockSet) (cfg : Config) where
  open bs use {Set, len, popleft}

  abbrev pub avail : Lane Set → ℕ
  avail l = length l.blocks * cfg.page_len

  -- `if not self.free_blocks`: the last lane in the order is parked, if it is not the only one.
  unfoldable pub make_room : Pass Set → Pass Set
  unfolding fixup
  make_room p =
      let g = p.gen in
      let last = g.nactive - 1 in
      if len g.free_blocks == 0 && ltb 0 last
      then if p.idx == last
        then record p { gen = kill_lane bs g (p.decr last) true; stop = true }
        else record p {
          gen = kill_lane bs g (p.decr last) true;
          decr = fixup (last - p.idx) p.idx p.decr last;
        }
      else p

  -- The block joins the lane, and the lane's row of the block table.
  with_lane : FastGen Set → ℕ → ℕ → Option (Lane Set) → Run (FastGen Set)
  with_lane g i bid none = fault
  with_lane g i bid (some l) = ok (record g {
    lane = update g.lane i l;
    blktbl = update g.blktbl i (update (g.blktbl i) (length (g.lane i).blocks) bid);
  })

  popped : FastGen Set → ℕ → Option (ℕ × Set) → Run (FastGen Set)
  unfolding with_lane
  popped g i none = fault
  popped g i (some (bid, rest)) =
      with_lane (record g { free_blocks = rest }) i bid (add_block bs (g.lane i) bid)

  unfoldable pub give_block : FastGen Set → ℕ → Run (FastGen Set)
  unfolding popped
  give_block g i = popped g i (popleft g.free_blocks)

  -- The last assertion of a round.
  checked : Pass Set → Lane Set → Run (Pass Set)
  checked p l = if leb (min cfg.max_seq (lane_len l + cfg.sync_freq)) (avail l) then ok p else fault

  given : Pass Set → Run (FastGen Set) → Run (Pass Set)
  unfolding checked
  given p (ok g) = checked (record p { gen = g }) (g.lane (p.decr p.idx))
  given p fault = fault
  given p spin = spin

  -- A lane that is short of a block is given one, if there is one.
  unfoldable pub take_block : Pass Set → Run (Pass Set)
  unfolding given checked
  take_block p =
      if len p.gen.free_blocks == 0
      then if p.gen.nactive == 1
        then checked (record p { idx = p.gen.nactive }) (p.gen.lane (p.decr p.idx))
        else fault
      else given p (give_block p.gen (p.decr p.idx))

  grow : Pass Set → Run (Pass Set)
  grow p = let q = make_room p in if q.stop then ok q else take_block q

  -- The body of the loop.
  unfoldable pub prepare_round : Pass Set → Run (Pass Set)
  unfolding grow
  prepare_round p =
      let l = p.gen.lane (p.decr p.idx) in
      if leb (lane_len l + cfg.sync_freq) (avail l)
      then ok (record p { idx = p.idx + 1 })
      else grow p

  prepare_next : (Pass Set → Run (FastGen Set)) → Run (Pass Set) → Run (FastGen Set)
  prepare_next again (ok p) = if p.stop then ok p.gen else again p
  prepare_next again fault = fault
  prepare_next again spin = spin

  unfoldable pub prepare_loop : ℕ → Pass Set → Run (FastGen Set)
  unfolding prepare_next
  prepare_loop zero p = spin
  prepare_loop (suc fuel) p = elim (ltb p.idx p.gen.nactive) [
    | true ↦ prepare_next (prepare_loop fuel) (prepare_round p)
    | false ↦ ok p.gen
  ]

  unfoldable pub prepare_lanes : ℕ → FastGen Set → Run (FastGen Set)
  unfolding longest_first
  prepare_lanes fuel g =
      let order = longest_first g.nactive (λ i. lane_len (g.lane i)) in
      prepare_loop fuel (record { gen = g; decr = λ k. get_or order k 0; idx = 0; stop = false })
