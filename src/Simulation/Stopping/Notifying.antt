-- ===== src/Simulation/Stopping/Notifying.antt =====
-- What the notification of all simulators does to the executor.
use refault.Prelude.{
  ℕ, zero, suc, ◌≡◌, sym, subst, Bool, Option, some, none, Result, Result-cases, ok, arith, length,
  parts_of_ok, inl, inr, ◌-◌, ◌==◌, assert, assert_failed, if◌then◌else◌,
}
use refault.Executor.State.{Executor}
use refault.Executor.Stopping.Actions.{Acts, rest, act_then}
use refault.Simulators.{SimCxl, swap, call, visit, visit_from, for_all_simulators}
use refault.Simulation.{Cx}

Acts-trans :
    {F : Type 0} {debug : Bool} {a b c : Executor F}
    → Acts F debug a b
    → Acts F debug b c
    → Acts F debug a c
Acts-trans rest more = more
Acts-trans (act_then a first) more = act_then a (Acts-trans first more)

module _ {S F H : Type 0} (debug : Bool) where
  -- What a step does to the executor.
  abbrev pub Does : SimCxl S (Cx F H) → SimCxl S (Cx F H) → Type 0
  Does cx cx' = Acts F debug cx.rest.executor cx'.rest.executor

  swap-rest :
      (index : ℕ) (held taken : Option S) (cx cx' : SimCxl S (Cx F H))
      → swap index held cx ≡ ok (taken, cx')
      → cx'.rest ≡ cx.rest
  swap-rest index held taken cx cx' e = ground arith

  module _ (f : S → SimCxl S (Cx F H) → Result (S × SimCxl S (Cx F H)))
      (acts : (s s' : S) (cx cx' : SimCxl S (Cx F H)) → f s cx ≡ ok (s', cx') → Does cx cx')
      (len : ℕ) (forward : Bool) where
    call-Does :
        (taken : Option S) (s' : S) (cx cx' : SimCxl S (Cx F H))
        → call len forward f taken cx ≡ ok (s', cx')
        → Does cx cx'
    call-Does none s' cx cx' e = ground arith
    call-Does (some s) s' cx cx' e = acts s s' cx cx' e

    visit-Does :
        (i : ℕ) (held held' : Option S) (cx cx' : SimCxl S (Cx F H))
        → visit len forward f i held cx ≡ ok (held', cx')
        → Does cx cx'
    unfolding visit
    visit-Does i held held' cx cx' e =
        let index = if forward then i else len - 1 - i in
        let ((taken, cx1), first, e1) = parts_of_ok (swap index held cx) _ e in
        let ((s, cx2), called, last) = parts_of_ok (call len forward f taken cx1) _ e1 in
        subst (λ (r : Cx F H). Acts F debug r.executor cx'.rest.executor)
          (swap-rest index held taken cx cx1 first)
          (subst (λ (r : Cx F H). Acts F debug cx1.rest.executor r.executor)
            (sym (swap-rest index (some s) held' cx2 cx' last)) (call-Does taken s cx1 cx2 called))

    visit_from-Does :
        (i rounds : ℕ) (held : Option S) (cx cx' : SimCxl S (Cx F H))
        → visit_from len forward f i rounds held cx ≡ ok cx'
        → Does cx cx'
    unfolding visit_from
    visit_from-Does i zero held cx cx' e = let same : cx ≡ cx' = ground arith in rw (← same) rest
    visit_from-Does i (suc rounds) held cx cx' e =
        elim (Result-cases (visit len forward f i held cx)) [
          | inl ((held', cx1), visited) ↦
              Acts-trans (visit-Does i held held' cx cx1 visited)
                (visit_from-Does (suc i) rounds held' cx1 cx' (ground arith))
          | inr (why, raised) ↦ absurd (ground arith)
        ]

  pub for_all_simulators-Does :
      (f : S → SimCxl S (Cx F H) → Result (S × SimCxl S (Cx F H)))
      (acts : (s s' : S) (cx cx' : SimCxl S (Cx F H)) → f s cx ≡ ok (s', cx') → Does cx cx')
      (forward : Bool) (cx cx' : SimCxl S (Cx F H))
      → for_all_simulators forward f cx ≡ ok cx'
      → Does cx cx'
  unfolding for_all_simulators
  for_all_simulators-Does f acts forward cx cx' e =
      let len = length cx.simulators in
      let (cx1, visited, e1) = parts_of_ok (visit_from len forward f 0 len none cx) _ e in
      let (checked, sized, e2) =
        parts_of_ok (assert (length cx1.simulators == len) assert_failed) _ e1 in
      let same : cx1 ≡ cx' = cc in
      subst (Does cx) same (visit_from-Does f acts len forward 0 len none cx cx1 visited)
