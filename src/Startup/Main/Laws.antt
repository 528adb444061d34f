-- ===== src/Startup/Main/Laws.antt =====
-- What the process leaves when it ends (src/main.rs, src/app/server.rs).
use rust_dfs.Base.{
  ℕ, ◌≡◌, ◌⊎◌, refl, sym, ap, ◌∙◌, Bool, true, false, List, [], ◌∷◌, inl, inr, arith, map,
}
use rust_dfs.Base.{Result, ok, Bool-cases, Option-cases, ◌<◌, ◌≢◌, some, length, get_elem?, ◌==◌}
use rust_dfs.Store.Db.{Db}
use rust_dfs.Processing.Fs.{Fs}
use rust_dfs.Startup.Config.{Cli}
use rust_dfs.Startup.Errors.{ServerError}
use rust_dfs.Startup.Server.{
  Service, Task, running, ended, Server, new, end_at, service_ended, stop, IsRunning, first, later,
  Machine, start_server,
}
use rust_dfs.Startup.Server.Laws.{any_failed, any_failed-end, tasks_of, start_server_all_or_none}
use rust_dfs.Startup.Main.{
  Ends, none_more, one_more, Awaits, all_joined, one_ends, joined, Exit, shut_down,
}

-- A task that runs has a handle, and its handle is not joined.
running_there :
    (i : ℕ) (tasks : List Task)
    → IsRunning i tasks
    → (i < length tasks)
      × ((service : Service) (r : Result ServerError Unit)
          → get_elem? tasks i ≢ some (ended service r))
running_there _ _ first = (omega arith, λ service r e. cc e)
running_there _ (task ∷ tasks) (later {i} more) =
    let (lt, apart) = running_there i tasks more in (omega (arith, lt), apart)

-- The end of a service starts none.
running_before :
    (i j : ℕ) (r : Result ServerError Unit) (tasks : List Task)
    → IsRunning j (end_at i r tasks)
    → IsRunning j tasks
unfolding end_at
running_before i j r [] h = h
running_before ℕ.zero j r (running service ∷ tasks) (later more) = later more
running_before ℕ.zero j r (ended service old ∷ tasks) h = h
running_before (ℕ.suc i) _ r (running service ∷ tasks) first = first
running_before (ℕ.suc i) _ r (running service ∷ tasks) (later {i = j} more) =
    later (running_before i j r tasks more)
running_before (ℕ.suc i) _ r (ended service old ∷ tasks) (later {i = j} more) =
    later (running_before i j r tasks more)

-- The loop comes to its end with no task that runs, if the handles that it has passed are joined.
Awaits-none :
    {k : ℕ} {s u : Server}
    → Awaits k s u
    → ((i : ℕ) → i < k → ¬ IsRunning i s.subtasks)
    → (i : ℕ) → ¬ IsRunning i u.subtasks
unfolding service_ended
Awaits-none {s = s} (all_joined total) passed =
    λ i runs. passed i (omega (arith, (running_there i s.subtasks runs).0, total)) runs
Awaits-none {s = s} (one_ends j r at more) passed =
    Awaits-none more (λ i lt runs. passed i lt (running_before j i r s.subtasks runs))
Awaits-none {k} {s} (joined service r at more) passed = Awaits-none more (λ i lt runs.
    elim (le_cases i k lt) [
      | inl before ↦ passed i before runs
      | inr same ↦
          (running_there i s.subtasks runs).1 service r (ap (get_elem? s.subtasks) same ∙ at)
    ])
  where
    le_cases : (i k : ℕ) → i < ℕ.suc k → (i < k) ⊎ (i ≡ k)
    le_cases i k lt = elim (Bool-cases (i == k)) [
      | inl same ↦ inr (ground (arith, same))
      | inr apart ↦ inl (ground (arith, apart, lt))
    ]

abbrev pub service_of : Task → Service
service_of (running service) = service
service_of (ended service r) = service

services-end :
    (i : ℕ) (r : Result ServerError Unit) (tasks : List Task)
    → map service_of (end_at i r tasks) ≡ map service_of tasks
unfolding end_at
services-end i r [] = refl
services-end ℕ.zero r (running service ∷ tasks) = refl
services-end ℕ.zero r (ended service old ∷ tasks) = refl
services-end (ℕ.suc i) r (task ∷ tasks) =
    ap (λ rest. service_of task ∷ rest) (services-end i r tasks)

-- What ends while `stop` waits.
Ends-first :
    {s : Server} (i : ℕ) (r : Result ServerError Unit) (at : IsRunning i s.subtasks) {u : Server}
    → Ends (service_ended i r s) u
    → Ends s u
Ends-first i r at none_more = one_more none_more i r at
Ends-first i r at (one_more more j q there) = one_more (Ends-first i r at more) j q there

Awaits-Ends : {k : ℕ} {s u : Server} → Awaits k s u → Ends s u
Awaits-Ends (all_joined total) = none_more
Awaits-Ends (one_ends i r at more) = Ends-first i r at (Awaits-Ends more)
Awaits-Ends (joined service r at more) = Awaits-Ends more

-- Ends change no service, and nothing that has failed is forgotten.
Ends-services : {s t : Server} → Ends s t → map service_of t.subtasks ≡ map service_of s.subtasks
unfolding service_ended
Ends-services none_more = refl
Ends-services (one_more {t} e i r at) = services-end i r t.subtasks ∙ Ends-services e

Ends-failed :
    {s t : Server} → Ends s t → any_failed s.subtasks ≡ true → any_failed t.subtasks ≡ true
unfolding service_ended
Ends-failed none_more h = h
Ends-failed (one_more {t} e i r at) h =
    ground (arith, any_failed-end i t.subtasks r at, Ends-failed e h)

Ends-cancelled : {s t : Server} → Ends s t → s.cancelled ≡ true → t.cancelled ≡ true
unfolding service_ended
Ends-cancelled none_more h = h
Ends-cancelled (one_more {t} e i r at) h = ground (arith, Ends-cancelled e h)

stopped_services : (s : Server) → map service_of (stop s).subtasks ≡ map service_of s.subtasks
unfolding stop
stopped_services s = refl

stop_cancels : (s : Server) → (stop s).cancelled ≡ true
unfolding stop
stop_cancels s = refl

stopped_failed : (s : Server) → any_failed s.subtasks ≡ true → any_failed (stop s).subtasks ≡ true
unfolding stop
stopped_failed s h = h

Ends-token :
    {s t : Server}
    → Ends s t
    → s.cancelled ≡ any_failed s.subtasks
    → t.cancelled ≡ any_failed t.subtasks
unfolding service_ended
Ends-token none_more h = h
Ends-token (one_more {t} e i r at) h =
    ground (arith, any_failed-end i t.subtasks r at, Ends-token e h)

module _ (fs : Fs) (db : Db) where
  fresh_token : (cli : Cli) → any_failed (tasks_of fs db cli) ≡ false
  unfolding any_failed
  fresh_token cli = elim (Option-cases cli.grpc_port) [
    | inl no_port ↦ rw (no_port, any_failed) refl
    | inr (port, given) ↦ rw (given, any_failed) refl
  ]

  -- A process that ends without an error leaves no service behind: it had started exactly the
  -- services of the command line, each of them has ended, and the token is cancelled. And it ended
  -- because it was asked to, or because a service had failed.
  pub process_leaves_none :
      (cli : Cli) (n : Machine fs db) (asked : Bool) (u : Server)
      → n.server ≡ new
      → Exit fs db cli n asked (ok tt) u
      → (map service_of u.subtasks ≡ map service_of (tasks_of fs db cli))
        × ((i : ℕ) → ¬ IsRunning i u.subtasks)
        × (u.cancelled ≡ true)
        × ((asked ≡ true) ⊎ (any_failed u.subtasks ≡ true))
  process_leaves_none cli n asked u fresh (shut_down {t} _ began before woken awaited) =
      elim (start_server_all_or_none fs db cli n fresh) [
        | inr (e, failed, _) ↦ cc (sym began ∙ failed)
        | inl (_, running_all) ↦
            let after = Awaits-Ends awaited in
            let s : Server = (start_server fs db cli n).1.server in
            let quiet : s.cancelled ≡ any_failed s.subtasks =
              rw running_all (sym (fresh_token cli)) in
            let token : t.cancelled ≡ any_failed t.subtasks = Ends-token before quiet in
            (
              Ends-services after
                  ∙ stopped_services t
                  ∙ Ends-services before
                  ∙ ap (λ (x : Server). map service_of x.subtasks) running_all,
              Awaits-none awaited (λ i lt. absurd (omega (arith, lt))),
              Ends-cancelled after (stop_cancels t),
              elim (Bool-cases asked) [
                | inl told ↦ inl told
                | inr alone ↦
                    inr (Ends-failed after (stopped_failed t (ground (arith, alone, token))))
              ],
            )
      ]
