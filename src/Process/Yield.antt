-- ===== src/Process/Yield.antt =====
-- The order of processes: yield of kernel/process.c.
use dmaos.Base.{
  ℕ, zero, suc, ◌+◌, ◌-◌, ◌%◌, ◌≤◌, ◌<◌, ◌≡◌, refl, ◌⊎◌, inl, inr, Bool-cases, Option-cases, ◌==◌,
  true, false, Option, none, some, arith, subst, sym, ◌∙◌,
}
use native.Mathlib.Decide.{dec_lt}
use dmaos.Machine.{Kernel, Process, ok}
use dmaos.Machine.Consts.{procs_max}
use dmaos.Machine.Post.{ok-state, ok-value, bind-ok}
use dmaos.Fd.{current}
use dmaos.Process.{can_run, turn, pick, switch_to, or_idle, yield}

pub pick-some :
    (procs : ℕ → Process) (pid rounds i s : ℕ)
    → pick procs pid rounds i ≡ some s
    → (d : ℕ) × (i ≤ d)
      × (d < i + rounds)
      × (s ≡ turn pid d)
      × (can_run (procs s) ≡ true)
      × ((j : ℕ) → i ≤ j → j < d → can_run (procs (turn pid j)) ≡ false)
unfolding pick
pick-some procs pid zero i s h = cc
pick-some procs pid (suc rounds) i s h = elim (Bool-cases (can_run (procs (turn pid i)))) [
  | inl e ↦
      let at : turn pid i ≡ s = ground arith in
      (
        i,
        omega arith,
        omega arith,
        sym at,
        subst (λ x. can_run (procs x) ≡ true) at e,
        λ j p q. absurd (omega arith),
      )
  | inr e ↦
      let (d, lo, hi, at, good, before) = pick-some procs pid rounds (i + 1) s (rw e at h) in
      (
        d,
        omega arith,
        omega arith,
        at,
        good,
        λ j p q. elim (Bool-cases (i == j)) [
          | inl same ↦
              let same' : i ≡ j = ground arith in
              subst (λ x. can_run (procs (turn pid x)) ≡ false) same' e
          | inr ne ↦ before j (ground arith) q
        ],
      )
]

pick-none :
    (procs : ℕ → Process) (pid rounds i : ℕ)
    → pick procs pid rounds i ≡ none
    → (j : ℕ) → i ≤ j
    → j < i + rounds
    → can_run (procs (turn pid j)) ≡ false
unfolding pick
pick-none procs pid zero i h j p q = absurd (omega arith)
pick-none procs pid (suc rounds) i h j p q = elim (Bool-cases (can_run (procs (turn pid i)))) [
  | inl e ↦ ground arith
  | inr e ↦ elim (Bool-cases (i == j)) [
    | inl same ↦
        let same' : i ≡ j = ground arith in
        subst (λ x. can_run (procs (turn pid x)) ≡ false) same' e
    | inr ne ↦ pick-none procs pid rounds (i + 1) (rw e at h) j (ground arith) (omega arith)
  ]
]

-- A process becomes the current one and nothing happens to the table.
switch_to-current :
    (p : ℕ) (next : Option ℕ) (k : Kernel) {k' : Kernel}
    → k.current_proc ≡ some p
    → switch_to p next k ≡ ok tt k'
    → (k'.current_proc ≡ next) × (k'.procs ≡ k.procs)
unfolding switch_to
switch_to-current p none k c h = cc
switch_to-current p (some next) k {k'} c h = elim (Bool-cases (next == p)) [
  | inl e ↦
      let same : k ≡ k' = ok-state (rw e at h) in
      subst (λ x. (x.current_proc ≡ some next) × (x.procs ≡ k.procs)) same (ground arith, refl)
  | inr e ↦
      subst (λ x. (x.current_proc ≡ some next) × (x.procs ≡ k.procs)) (ok-state (rw e at h))
        (refl, refl)
]

current-eq : (k : Kernel) (p : ℕ) → k.current_proc ≡ some p → current k ≡ ok p k
unfolding current
current-eq k p c = ground arith

yield-switch :
    (k : Kernel) (p : ℕ) {k' : Kernel}
    → k.current_proc ≡ some p
    → yield k ≡ ok tt k'
    → (k'.current_proc ≡ or_idle (pick k.procs (k.procs p).pid procs_max 0) k.idle_proc)
      × (k'.procs ≡ k.procs)
unfolding yield
yield-switch k p {k'} c h =
    let (p', k1, e, h1) = bind-ok (current k) _ h in
    let same = current-eq k p c in
    let at : p ≡ p' = ok-value (sym same ∙ e) in
    let kept : k ≡ k1 = ok-state (sym same ∙ e) in
    let h2 =
      subst
        (λ x.
          switch_to p' (or_idle (pick x.procs (x.procs p').pid procs_max 0) x.idle_proc) x
          ≡ ok tt k')
        (sym kept) h1 in
    switch_to-current p _ k c (
      subst
        (λ x.
          switch_to x (or_idle (pick k.procs (k.procs x).pid procs_max 0) k.idle_proc) k ≡ ok tt k')
        (sym at) h2)

-- `yield` goes on with the first process that can run, in turn after the slot that the current
-- process's PID names; if none of the eight can run, with the idle process. It leaves the table of
-- processes as it is.
pub yield-next :
    (k : Kernel) (p : ℕ) {k' : Kernel}
    → k.current_proc ≡ some p
    → yield k ≡ ok tt k'
    → (k'.procs ≡ k.procs)
      × (((d : ℕ) × (d < procs_max)
            × (k'.current_proc ≡ some (turn (k.procs p).pid d))
            × (can_run (k.procs (turn (k.procs p).pid d)) ≡ true)
            × ((j : ℕ) → j < d → can_run (k.procs (turn (k.procs p).pid j)) ≡ false))
          ⊎ (((s : ℕ) → s < procs_max → can_run (k.procs s) ≡ false)
              × (k'.current_proc ≡ k.idle_proc)))
unfolding or_idle
yield-next k p {k'} c h =
    let (now, same) = yield-switch k p c h in
    let pid = (k.procs p).pid in
    (
      same,
      elim (Option-cases (pick k.procs pid procs_max 0)) [
        | inl e ↦ inr (
          λ s lt.
              let j : ℕ = (s + 8 - pid % 8) % 8 in
              let at : turn pid j ≡ s = omega arith in
              subst (λ x. can_run (k.procs x) ≡ false) at
                (pick-none k.procs pid procs_max 0 e j (omega arith) (omega arith)),
          rw e at now,
        )
        | inr (s, e) ↦
            let (d, _, lt, at, good, before) = pick-some k.procs pid procs_max 0 s e in
            inl (
              d,
              omega arith,
              subst (λ x. k'.current_proc ≡ some x) at (rw e at now),
              subst (λ x. can_run (k.procs x) ≡ true) at good,
              λ j q. before j (omega arith) q,
            )
      ],
    )

-- The table is numbered: the process in a slot that can run has the number after it as its PID.
abbrev pub IsNumbered : (ℕ → Process) → Type 0
IsNumbered procs = (s : ℕ) → can_run (procs s) ≡ true → (procs s).pid ≡ s + 1

-- How many turns come before that of slot `s`, after a process of that PID.
abbrev pub turns_before : ℕ → ℕ → ℕ
turns_before pid s = (s + procs_max - pid % procs_max) % procs_max

-- While slot `s` can run, each `yield` either goes on with it or with a process after which fewer
-- turns come before that of `s`. The process in each slot that can run must have the slot's number
-- plus one as its PID.
pub yield-turns_before :
    (k : Kernel) (p s : ℕ) {k' : Kernel}
    → k.current_proc ≡ some p
    → IsNumbered k.procs
    → s < procs_max
    → can_run (k.procs s) ≡ true
    → yield k ≡ ok tt k'
    → (k'.current_proc ≡ some s)
      ⊎ ((q : ℕ) × (k'.current_proc ≡ some q)
          × (turns_before (k'.procs q).pid s < turns_before (k.procs p).pid s))
yield-turns_before k p s {k'} c numbered lt ready h =
    let (same, next) = yield-next k p c h in
    let pid = (k.procs p).pid in
    let j : ℕ = turns_before pid s in
    let at : turn pid j ≡ s = omega arith in
    elim next [
      | inr (stuck, _) ↦ let no = stuck s lt in cc
      | inl (d, small, now, good, before) ↦ elim (dec_lt j d) [
        | yes early ↦ let no = subst (λ x. can_run (k.procs x) ≡ false) at (before j early) in cc
        | no late ↦ elim (Bool-cases (d == j)) [
          | inl e ↦
              let e' : d ≡ j = ground arith in
              inl (
                subst (λ x. k'.current_proc ≡ some x) at
                  (subst (λ x. k'.current_proc ≡ some (turn pid x)) e' now))
          | inr e ↦
              let ne : d < j = ground arith in
              let q : ℕ = turn pid d in
              let num : (k'.procs q).pid ≡ q + 1 = rw same (numbered q good) in
              inr (q, now, omega arith)
        ]
      ]
    ]
