-- ===== src/Fastgen/Admit/Rounds.antt =====
-- The whole of `_add_lanes`: its rounds, and the lanes that it puts off.
use cwm.Prelude.{
  ℕ, zero, suc, ◌+◌, ◌<◌, ◌≡◌, ◌⊎◌, inl, inr, refl, Bool, true, false, arith, ◌==◌, length, List,
  [], ◌∷◌, some, none, if◌then◌else◌,
}
use cwm.Fastgen.BlockSet.{BlockSet}
use cwm.Fastgen.Lane.{Lane, from_pkt}
use cwm.Fastgen.State.{Config, Run, ok, spin}
use cwm.Fastgen.Invariant.{AllWaiting}
use cwm.Fastgen.Admit.{
  Event, packet, end_of_queue, empty, Got, got, nothing, blocked, get, Admission, Round, break,
  received, choose, admit_round, admit_next, admit_loop,
}
use cwm.Fastgen.Admit.Added.{
  AllFit, IsAdmitting, Placed, went_on, ended, waits, place_lem, queue-IsAdmitting,
  unparked-IsAdmitting, from_pkt-Waiting,
}

-- What comes out of a queue with fitting packets.
abbrev GotOk : ℕ → ℕ → Got → Type 0
GotOk max_seq idx (got (some p) q) =
    (0 < length p.tokens) × (length p.tokens < max_seq) × AllFit max_seq q
GotOk max_seq idx (got none q) = AllFit max_seq q
GotOk max_seq idx (nothing q) = AllFit max_seq q
GotOk max_seq idx blocked = idx ≡ 0

get-GotOk :
    (max_seq idx : ℕ) (block : Bool) (q : List Event)
    → (block ≡ true → idx ≡ 0)
    → AllFit max_seq q
    → GotOk max_seq idx (get block q)
unfolding get
get-GotOk max_seq idx true [] z k = z refl
get-GotOk max_seq idx false [] z k = tt
get-GotOk max_seq idx block (packet p ∷ q) z k = k
get-GotOk max_seq idx block (end_of_queue ∷ q) z k = k
get-GotOk max_seq idx true (empty ∷ q) z k = get-GotOk max_seq idx true q z k
get-GotOk max_seq idx false (empty ∷ q) z k = k

module _ (bs : BlockSet) (cfg : Config) (ahead : ℕ → ℕ) where
  -- How the method ends: with the lanes added, or waiting for the queue with nothing to do.
  abbrev pub Admits : ℕ → Run (Admission bs.Set) → Type 0
  Admits nactive r =
      ((a : Admission bs.Set) × (r ≡ ok a) × IsAdmitting bs cfg a ahead × (a.gen.nactive ≡ nactive))
      ⊎ ((r ≡ spin) × (nactive ≡ 0))

module _ (bs : BlockSet) (cfg : Config) (page : 0 < cfg.page_len) (ahead : ℕ → ℕ) where
  open bs use {Set}

  module _ (a : Admission Set) (v : IsAdmitting bs cfg a ahead) (h : a.idx < cfg.max_batch) where
    received_lem :
        (o : Got)
        → GotOk cfg.max_seq a.idx o
        → Placed bs cfg ahead a.idx a.gen.nactive (received bs cfg a o)
    unfolding received
    received_lem (got (some p) q) k =
        place_lem bs cfg page ahead (record a { queue = q }) (from_pkt bs p cfg.max_seq cfg.max_gen)
          false (queue-IsAdmitting bs cfg page ahead a q a.eoq v k.2)
          (from_pkt-Waiting bs cfg p k.0 k.1) h
    received_lem (got none q) k =
        ended (record a { queue = q; eoq = true })
          (queue-IsAdmitting bs cfg page ahead a q true v k) refl
    received_lem (nothing q) k =
        ended (record a { queue = q }) (queue-IsAdmitting bs cfg page ahead a q a.eoq v k) refl
    received_lem blocked k = waits k

    choose_lem :
        (ls : List (Lane Set))
        → AllWaiting bs cfg ls
        → Placed bs cfg ahead a.idx a.gen.nactive (choose bs cfg a ls)
    unfolding choose
    choose_lem (l ∷ ls) k =
        place_lem bs cfg page ahead (record a { gen = record a.gen { parking = ls } }) l true
          (unparked-IsAdmitting bs cfg page ahead a ls v k.1) k.0 h
    choose_lem [] k = either a.eoq (
        received_lem (get (a.idx == 0) a.queue)
          (get-GotOk cfg.max_seq a.idx (a.idx == 0) a.queue (λ z. ground arith) v.queued))
      where
        either :
            (b : Bool) {r : Round Set}
            → Placed bs cfg ahead a.idx a.gen.nactive r
            → Placed bs cfg ahead a.idx a.gen.nactive (if b then break a else r)
        either true p = ended a v refl
        either false p = p

    round_lem : Placed bs cfg ahead a.idx a.gen.nactive (admit_round bs cfg a)
    unfolding admit_round
    round_lem = choose_lem a.gen.parking v.parked

  after_round :
      (rows : ℕ) (a : Admission Set) (r : Round Set)
      → IsAdmitting bs cfg a ahead
      → a.idx + suc rows ≡ cfg.max_batch
      → ((b : Admission Set)
          → IsAdmitting bs cfg b ahead
          → b.idx + rows ≡ cfg.max_batch
          → Admits bs cfg ahead b.gen.nactive (admit_loop bs cfg rows b))
      → Placed bs cfg ahead a.idx a.gen.nactive r
      → Admits bs cfg ahead a.gen.nactive (admit_next bs cfg (admit_loop bs cfg rows) r)
  unfolding admit_next
  after_round rows a r v e rest (went_on b w i n) = rw (← n) (rest b w (omega arith))
  after_round rows a r v e rest (ended b w n) = inl (b, refl, w, n)
  after_round rows a r v e rest (waits z) = inr (refl, omega (arith, v.from))

  pub loop_lem :
      (rows : ℕ) (a : Admission Set)
      → IsAdmitting bs cfg a ahead
      → a.idx + rows ≡ cfg.max_batch
      → Admits bs cfg ahead a.gen.nactive (admit_loop bs cfg rows a)
  unfolding admit_loop
  loop_lem zero a v e = inl (a, refl, v, refl)
  loop_lem (suc rows) a v e =
      after_round rows a (admit_round bs cfg a) v e (loop_lem rows) (round_lem a v (omega arith))
