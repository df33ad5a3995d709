-- ===== src/Fastgen/Trim/Search.antt =====
-- The binary search of `_trim_packet` finds a cut that completes the stop string.
use native.Mathlib.Decide.{dec_lt}
use cwm.Prelude.{
  ℕ, zero, suc, ◌+◌, ◌-◌, ◌/◌, ◌≤◌, ◌<◌, ◌≡◌, Bool, true, false, arith, Bool-cases, inl, inr,
}
use cwm.Fastgen.State.{ok}
use cwm.Fastgen.Trim.{search_cut}

-- What the search ends with: the text of the first `t` tokens has the stop string, and that of one
-- token less does not.
pub record Found (present : ℕ → Bool) (lo hi f t : ℕ) : Type 0 where
  pub next : f + 1 ≡ t
  pub yes_at : present t ≡ true
  pub no_before : present f ≡ false
  pub from : lo ≤ f
  pub upto : t ≤ hi

-- The search ends within as many rounds as there are places, and keeps the stop string absent at
-- `f` and present at `t`.
pub search_cut_lem :
    (fuel : ℕ) (present : ℕ → Bool) (f t : ℕ)
    → f < t
    → t - f < fuel
    → present f ≡ false
    → present t ≡ true
    → (f' : ℕ) × (t' : ℕ) × (search_cut fuel present f t ≡ ok (f', t')) × Found present f t f' t'
unfolding search_cut
search_cut_lem zero present f t h b n y = elim b [ ]
search_cut_lem (suc fuel) present f t h b n y = elim (dec_lt 1 (t - f)) [
  | yes wide ↦ elim (Bool-cases (present (f + (t - f) / 2))) [
    | inl here ↦
        let (f', t', e, r) =
          search_cut_lem fuel present f (f + (t - f) / 2) (omega arith) (omega arith) n here in
        (
          f',
          t',
          ground (arith, e),
          record {
            next = r.next;
            yes_at = r.yes_at;
            no_before = r.no_before;
            from = r.from;
            upto = omega (arith, r.upto);
          },
        )
    | inr absent ↦
        let (f', t', e, r) =
          search_cut_lem fuel present (f + (t - f) / 2) t (omega arith) (omega arith) absent y in
        (
          f',
          t',
          ground (arith, e),
          record {
            next = r.next;
            yes_at = r.yes_at;
            no_before = r.no_before;
            from = omega (arith, r.from);
            upto = r.upto;
          },
        )
  ]
  | no narrow ↦ (
    f,
    t,
    ground arith,
    record {
      next = omega arith;
      yes_at = y;
      no_before = n;
      from = omega arith;
      upto = omega arith;
    },
  )
]
