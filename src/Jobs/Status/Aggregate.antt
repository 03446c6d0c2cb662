-- ===== src/Jobs/Status/Aggregate.antt =====
-- What `recompute_job` makes of the rows: the reading of each verdict, and that the order of the rows
-- does not matter.
use lokilinux.Prelude.{
  is_empty, is_some, sym, ℕ, Bool, true, ◌≡◌, refl, ap, ◌∙◌, List, [], ◌∷◌, Memᴰ, arith, any, all,
  Bool-cases, any-false, ◌↔◌, inr, inl, any-true,
}
use mathlib.Core.List.{Permᴰ}
use lokilinux.Jobs.Types.{ResultStatus, Job, is_completed, is_terminal_job}
use lokilinux.Jobs.Status.{
  is_terminal, is_failed_result, is_timeout_result, is_cancelled_result, outcome, is_cancelled_job,
  settle_job, some, JobStatus, recompute_job, false,
}

module _ {A : Type 0} (p : A → Bool) where
  any-Perm : {xs ys : List A} → Permᴰ xs ys → any p xs ≡ any p ys
  any-Perm Permᴰ.nil = refl
  any-Perm (Permᴰ.cons {a = a} {b = b} e d) =
      let f : p a ≡ p b = ap p e in ground (arith, f, any-Perm d)
  any-Perm (Permᴰ.swap {a = a} {b = b} {a' = a'} {b' = b'} e f) =
      let g : p a ≡ p b' = ap p e in let h : p b ≡ p a' = ap p f in ground (arith, g, h)
  any-Perm (Permᴰ.trans d e) = any-Perm d ∙ any-Perm e

  all-Perm : {xs ys : List A} → Permᴰ xs ys → all p xs ≡ all p ys
  all-Perm Permᴰ.nil = refl
  all-Perm (Permᴰ.cons {a = a} {b = b} e d) =
      let f : p a ≡ p b = ap p e in ground (arith, f, all-Perm d)
  all-Perm (Permᴰ.swap {a = a} {b = b} {a' = a'} {b' = b'} e f) =
      let g : p a ≡ p b' = ap p e in let h : p b ≡ p a' = ap p f in ground (arith, g, h)
  all-Perm (Permᴰ.trans d e) = all-Perm d ∙ all-Perm e

  all-Mem : (xs : List A) (x : A) → all p xs ≡ true → Memᴰ x xs → p x ≡ true
  all-Mem [] x h m = elim m [ ]
  all-Mem (y ∷ ys) x h (Memᴰ.head e) = let f : p x ≡ p y = ap p e in ground (arith, f)
  all-Mem (y ∷ ys) x h (Memᴰ.tail m) = all-Mem ys x (ground arith) m

settle_job-Perm :
    (now : ℕ) (j : Job) {ss ts : List ResultStatus}
    → Permᴰ ss ts
    → settle_job now ss j ≡ settle_job now ts j
unfolding settle_job outcome
settle_job-Perm now j d =
    simp
      (
        all-Perm is_terminal d,
        any-Perm is_terminal d,
        any-Perm is_failed_result d,
        any-Perm is_timeout_result d,
        any-Perm is_cancelled_result d,
      )
      refl

is_empty-Perm : {A : Type 0} {xs ys : List A} → Permᴰ xs ys → is_empty xs ≡ is_empty ys
is_empty-Perm Permᴰ.nil = refl
is_empty-Perm (Permᴰ.cons e d) = refl
is_empty-Perm (Permᴰ.swap e f) = refl
is_empty-Perm (Permᴰ.trans d e) = is_empty-Perm d ∙ is_empty-Perm e

reordered :
    (now : ℕ) (j : Job) (ss ts : List ResultStatus)
    → is_empty ss ≡ is_empty ts
    → settle_job now ss j ≡ settle_job now ts j
    → recompute_job now ss j ≡ recompute_job now ts j
unfolding recompute_job
reordered now j [] [] e h = refl
reordered now j [] (t ∷ ts) e h = cc
reordered now j (s ∷ ss) [] e h = cc
reordered now j (s ∷ ss) (t ∷ ts) e h = ground (arith, h)

-- A job's status, and all else of the job, does not depend on the order in which its rows come.
pub recompute_job-Perm :
    (now : ℕ) (j : Job) (ss ts : List ResultStatus)
    → Permᴰ ss ts
    → recompute_job now ss j ≡ recompute_job now ts j
recompute_job-Perm now j ss ts d = reordered now j ss ts (is_empty-Perm d) (settle_job-Perm now j d)

-- None of the three statuses that end a job other than well.
abbrev pub is_well : ResultStatus → Bool
is_well ResultStatus.failed = false
is_well ResultStatus.timeout = false
is_well ResultStatus.cancelled = false
is_well _ = true

-- How a job stands to its rows, where it was not cancelled.
pub record IsVerdict (ss : List ResultStatus) (j k : Job) : Type 0 where
  pub completed :
      all is_terminal ss ≡ true
      → ((k.status ≡ JobStatus.completed) ↔ ((s : ResultStatus) → Memᴰ s ss → is_well s ≡ true))
  pub failed : all is_terminal ss ≡ true → Memᴰ ResultStatus.failed ss → k.status ≡ JobStatus.failed
  pub over :
      all is_terminal ss ≡ true
      → (is_terminal_job k.status ≡ true) × (is_some k.completed_at ≡ true)
  pub open_row :
      (s : ResultStatus)
      → Memᴰ s ss
      → is_terminal s ≡ false
      → (k.completed_at ≡ j.completed_at) × (is_completed k.status ≡ true → k.status ≡ j.status)
  pub end_kept : (n : ℕ) → j.completed_at ≡ some n → k.completed_at ≡ some n
  pub start_kept : (n : ℕ) → j.started_at ≡ some n → k.started_at ≡ some n

outcome-completed :
    (ss : List ResultStatus)
    → outcome ss ≡ JobStatus.completed
    → (any is_failed_result ss ≡ false)
      × (any is_timeout_result ss ≡ false)
      × (any is_cancelled_result ss ≡ false)
unfolding outcome
outcome-completed ss h = ground arith

completed-outcome :
    (ss : List ResultStatus)
    → any is_failed_result ss ≡ false
    → any is_timeout_result ss ≡ false
    → any is_cancelled_result ss ≡ false
    → outcome ss ≡ JobStatus.completed
unfolding outcome
completed-outcome ss f t c = ground arith

well :
    (s : ResultStatus)
    → is_failed_result s ≡ false
    → is_timeout_result s ≡ false
    → is_cancelled_result s ≡ false
    → is_well s ≡ true
well s f t c = ground arith

outcome-all_well :
    (ss : List ResultStatus)
    → outcome ss ≡ JobStatus.completed
    → (s : ResultStatus) → Memᴰ s ss
    → is_well s ≡ true
outcome-all_well ss h s m =
    let (f, t, c) = outcome-completed ss h in
    well s (any-false is_failed_result ss s f m) (any-false is_timeout_result ss s t m)
      (any-false is_cancelled_result ss s c m)

none_such :
    (p : ResultStatus → Bool) (ss : List ResultStatus)
    → ((s : ResultStatus) → p s ≡ true → is_well s ≡ false)
    → ((s : ResultStatus) → Memᴰ s ss → is_well s ≡ true)
    → any p ss ≡ false
none_such p ss bad h = elim (Bool-cases (any p ss)) [
  | inr e ↦ e
  | inl e ↦ let (s, m, k) = any-true p ss e in cc (bad s k, h s m)
]

all_well-outcome :
    (ss : List ResultStatus)
    → ((s : ResultStatus) → Memᴰ s ss → is_well s ≡ true)
    → outcome ss ≡ JobStatus.completed
all_well-outcome ss h =
    completed-outcome ss (none_such is_failed_result ss (λ s e. ground arith) h)
      (none_such is_timeout_result ss (λ s e. ground arith) h)
      (none_such is_cancelled_result ss (λ s e. ground arith) h)

any-Mem :
    {A : Type 0} (p : A → Bool) (xs : List A) (x : A) → Memᴰ x xs → p x ≡ true → any p xs ≡ true
any-Mem p xs x m e = elim (Bool-cases (any p xs)) [ inl h ↦ h | inr h ↦ cc (any-false p xs x h m) ]

outcome-failed :
    (ss : List ResultStatus) → Memᴰ ResultStatus.failed ss → outcome ss ≡ JobStatus.failed
unfolding outcome
outcome-failed ss m = ground (arith, any-Mem is_failed_result ss ResultStatus.failed m refl)

outcome-over : (ss : List ResultStatus) → is_terminal_job (outcome ss) ≡ true
unfolding outcome is_terminal_job
outcome-over ss = ground arith

module _ (now : ℕ) (ss : List ResultStatus) (j : Job) where
  settled_status : all is_terminal ss ≡ true → (settle_job now ss j).status ≡ outcome ss
  unfolding settle_job
  settled_status h = ground arith

  settled_time : all is_terminal ss ≡ true → is_some (settle_job now ss j).completed_at ≡ true
  unfolding settle_job
  settled_time h = ground arith

  unsettled :
      all is_terminal ss ≡ false
      → ((settle_job now ss j).completed_at ≡ j.completed_at)
        × (is_completed (settle_job now ss j).status ≡ true
            → (settle_job now ss j).status ≡ j.status)
  unfolding settle_job is_completed
  unsettled h = ground arith

  end_stays : (n : ℕ) → j.completed_at ≡ some n → (settle_job now ss j).completed_at ≡ some n
  unfolding settle_job
  end_stays n e = ground arith

  start_stays : (n : ℕ) → j.started_at ≡ some n → (settle_job now ss j).started_at ≡ some n
  unfolding settle_job
  start_stays n e = ground arith

  settle_job-IsVerdict : IsVerdict ss j (settle_job now ss j)
  settle_job-IsVerdict = record {
    completed = λ h. (
      (λ e. outcome-all_well ss (sym (settled_status h) ∙ e)),
      (λ w. settled_status h ∙ all_well-outcome ss w),
    );
    failed = λ h m. settled_status h ∙ outcome-failed ss m;
    over = λ h. (ap is_terminal_job (settled_status h) ∙ outcome-over ss, settled_time h);
    open_row = λ s m e. unsettled (unfinished s m e);
    end_kept = end_stays;
    start_kept = start_stays;
  }
    where
      unfinished :
          (s : ResultStatus) → Memᴰ s ss → is_terminal s ≡ false → all is_terminal ss ≡ false
      unfinished s m e = elim (Bool-cases (all is_terminal ss)) [
        | inr h ↦ h
        | inl h ↦ cc (all-Mem is_terminal ss s h m)
      ]

-- A job that was not cancelled and has a row: with every row over, it is COMPLETED exactly where no
-- row failed, timed out or was cancelled, FAILED where one failed, and over with a time in any case;
-- with a row that is not over, it does not become COMPLETED and gets no time of completion. Neither
-- time changes once it is set.
pub recompute_job-IsVerdict :
    (now : ℕ) (s : ResultStatus) (ss : List ResultStatus) (j : Job)
    → is_cancelled_job j.status ≡ false
    → IsVerdict (s ∷ ss) j (recompute_job now (s ∷ ss) j)
unfolding recompute_job
recompute_job-IsVerdict now s ss j h = rw h (settle_job-IsVerdict now (s ∷ ss) j)
