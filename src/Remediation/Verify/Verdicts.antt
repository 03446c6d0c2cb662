-- ===== src/Remediation/Verify/Verdicts.antt =====
-- What a round of the verification decides.
use lokilinux.Remediation.Verify.Ends.{IsApplied, latest_apply_job_lem}
use lokilinux.Prelude.{
  eq_iff, ℕ, ◌-◌, String, Bool, true, false, ◌≡◌, refl, Option, none, some, List, [], ◌∷◌, inl, inr,
  Bool-cases, is_empty, all, any, ltb, arith, if_lem, is_str,
}
use lokilinux.Remediation.Types.{PlanJob, PlanStatus, Desk}
use lokilinux.Remediation.Sync.{revert_drift_to_open}
use lokilinux.Remediation.Verify.{
  Evidence, judge, verify_plan, verify_tick, pairs, passes, fails, verdict, resolve_related_drift,
  verification_timeout,
}

pass_or_fail : (o : Option String) → is_str o "PASS" ≡ true → is_str o "FAIL" ≡ false
pass_or_fail none h = cc
pass_or_fail (some s) h = let e : s ≡ "PASS" = (eq_iff s "PASS").0 h in rw e refl

empty_all : (p : ℕ × ℕ → Bool) (ps : List (ℕ × ℕ)) → all p ps ≡ false → is_empty ps ≡ false
empty_all p [] h = cc
empty_all p (x ∷ xs) h = refl

pass_no_fail :
    (ev : Evidence) (since : ℕ) (ps : List (ℕ × ℕ))
    → all (passes ev since) ps ≡ true
    → any (fails ev since) ps ≡ false
pass_no_fail ev since [] h = refl
pass_no_fail ev since (p ∷ ps) h =
    let ih = pass_no_fail ev since ps (ground arith) in
    let f = pass_or_fail (verdict ev since p) (ground arith) in ground arith

-- The plan behind the verdicts on its pairs of agents and rules, for an APPLY job that ended at
-- `since`: the evidence is newer than that.
pub record IsJudged (ev : Evidence) (since : ℕ) (d e : Desk) : Type 0 where
  pub passed : all (passes ev since) (pairs d.actions) ≡ true → e.plan.status ≡ PlanStatus.completed
  pub only_passed :
      e.plan.status ≡ PlanStatus.completed → all (passes ev since) (pairs d.actions) ≡ true
  pub refuted : any (fails ev since) (pairs d.actions) ≡ true → e.plan.status ≡ PlanStatus.failed
  pub waits :
      any (fails ev since) (pairs d.actions) ≡ false
      → all (passes ev since) (pairs d.actions) ≡ false
      → ltb verification_timeout (ev.now - since) ≡ false
      → e ≡ d

module _ (ev : Evidence) (since : ℕ) (d : Desk) (v : d.plan.status ≡ PlanStatus.verifying) where
  judge-IsJudged : IsJudged ev since d (judge ev since (pairs d.actions) d)
  unfolding judge resolve_related_drift revert_drift_to_open
  judge-IsJudged = elim (Bool-cases (all (passes ev since) (pairs d.actions))) [
    | inl p ↦
        let n = pass_no_fail ev since (pairs d.actions) p in
        record {
          passed = λ h.
              if_lem (λ (e : Desk). e.plan.status ≡ PlanStatus.completed)
                (is_empty (pairs d.actions)) _ _ refl (rw p refl);
          only_passed = λ h. p;
          refuted = λ h. cc;
          waits = λ h k l. cc;
        }
    | inr p ↦
        let n = empty_all (passes ev since) (pairs d.actions) p in
        elim (Bool-cases (any (fails ev since) (pairs d.actions))) [
          | inl f ↦
              rw (n, p, f)
                (record {
                  passed = λ h. cc;
                  only_passed = λ h. cc;
                  refuted = λ h. refl;
                  waits = λ h k l. cc;
                })
          | inr f ↦ elim (Bool-cases (ltb verification_timeout (ev.now - since))) [
            | inl t ↦
                rw (n, p, f, t)
                  (record {
                    passed = λ h. cc;
                    only_passed = λ h. cc;
                    refuted = λ h. refl;
                    waits = λ h k l. cc;
                  })
            | inr t ↦
                rw (n, p, f, t)
                  (record {
                    passed = λ h. cc;
                    only_passed = λ h. cc;
                    refuted = λ h. cc;
                    waits = λ h k l. refl;
                  })
          ]
        ]
  ]

  -- A round of the verification on a VERIFYING plan whose newest job, an APPLY job, ended at `since`:
  -- the plan is COMPLETED exactly where every pair of an agent and a rule of its actions has passed
  -- on evidence behind `since`, FAILED where one has failed, and left alone while neither holds and
  -- 15 minutes are not over.
  pub verify_tick-IsJudged :
      (j : PlanJob) → IsApplied d j since → IsJudged ev since d (verify_tick ev d)
  unfolding verify_tick verify_plan
  verify_tick-IsJudged j a =
      let l = latest_apply_job_lem d j since a in
      let t = a.at_time in simp (v, l, t, verify_tick, verify_plan) judge-IsJudged
