-- ===== src/Startup/Loop/Laws.antt =====
-- When the loop of `P2pService::start` (src/app/p2p/service.rs) is left.
use rust_dfs.Base.{
  ℕ, zero, suc, ◌≡◌, ◌↔◌, refl, ap, ◌∙◌, true, false, none, some, List, [], ◌∷◌, inl, inr, arith,
  get_elem?, Bool-cases, Option-cases,
}
use mathlib.Core.Option.{some-injective}
use rust_dfs.Startup.Loop.{Ready, is_break, select, run_loop}

-- The token is cancelled and nothing else is ready.
pub record IsQuiet (r : Ready) : Type 0 where
  pub no_event : r.event ≡ none
  pub no_command : r.command ≡ none
  pub no_tick : r.tick ≡ false
  pub no_job : r.job ≡ none
  pub cancelled : r.cancelled ≡ true

quiet_breaks : (r : Ready) → IsQuiet r → is_break (select r) ≡ true
unfolding select
quiet_breaks r q = ground (arith, q.no_event, q.no_command, q.no_tick, q.no_job, q.cancelled)

breaks-IsQuiet : (r : Ready) → is_break (select r) ≡ true → IsQuiet r
unfolding select
breaks-IsQuiet r e = elim (Option-cases r.event) [
  | inr (_, event) ↦ absurd (ground (arith, event))
  | inl no_event ↦ elim (Option-cases r.command) [
    | inr (some _, command) ↦ absurd (ground (arith, no_event, command))
    | inr (none, closed) ↦ absurd (ground (arith, no_event, closed))
    | inl no_command ↦ elim (Bool-cases r.tick) [
      | inl tick ↦ absurd (ground (arith, no_event, no_command, tick))
      | inr no_tick ↦ elim (Option-cases r.job) [
        | inr (_, job) ↦ absurd (ground (arith, no_event, no_command, no_tick, job))
        | inl no_job ↦ record {
          no_event = no_event;
          no_command = no_command;
          no_tick = no_tick;
          no_job = no_job;
          cancelled = ground (arith, no_event, no_command, no_tick, no_job);
        }
      ]
    ]
  ]
]

abbrev HasQuiet : List Ready → Type 0
HasQuiet rounds = (i : ℕ) × (r : Ready) × (get_elem? rounds i ≡ some r) × IsQuiet r

run_loop-HasQuiet : (rounds : List Ready) → (run_loop rounds).1 ≡ true → HasQuiet rounds
unfolding run_loop
run_loop-HasQuiet [] e = cc
run_loop-HasQuiet (r ∷ rounds) e = elim (Bool-cases (is_break (select r))) [
  | inl stop ↦ (0, r, refl, breaks-IsQuiet r stop)
  | inr on ↦
      let (i, q, at, quiet) = run_loop-HasQuiet rounds (ground (arith, on)) in (suc i, q, at, quiet)
]

quiet_leaves :
    (rounds : List Ready) (i : ℕ) (r : Ready)
    → get_elem? rounds i ≡ some r
    → IsQuiet r
    → (run_loop rounds).1 ≡ true
unfolding run_loop
quiet_leaves [] i r at q = cc
quiet_leaves (s ∷ rounds) zero r at q =
    let stop : is_break (select s) ≡ true =
      ap (λ x. is_break (select x)) (some-injective s r at) ∙ quiet_breaks r q in
    ground (arith, stop)
quiet_leaves (s ∷ rounds) (suc i) r at q = elim (Bool-cases (is_break (select s))) [
  | inl stop ↦ ground (arith, stop)
  | inr on ↦ ground (arith, on, quiet_leaves rounds i r at q)
]

-- The loop is left exactly if there comes a round in which the token is cancelled and nothing else is
-- ready: as long as every round has an event, a command, a tick or a job, it goes on, even if
-- the token has long been cancelled.
pub run_loop-leaves :
    (rounds : List Ready)
    → ((run_loop rounds).1 ≡ true)
      ↔ ((i : ℕ) × (r : Ready) × (get_elem? rounds i ≡ some r) × IsQuiet r)
run_loop-leaves rounds =
    (run_loop-HasQuiet rounds, λ found. quiet_leaves rounds found.0 found.1 found.2 found.3)
