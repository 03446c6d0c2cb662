-- ===== src/Workflow/Ready/Edges.antt =====
-- What `readiness` says of the edges into a step.
use lokilinux.Prelude.{
  ◌≢◌, ◌⊎◌, inl, inr, any, if◌then◌else◌, String, Bool, true, false, ◌≡◌, refl, some, List, [], ◌∷◌,
  Memᴰ, Bool-cases, Option-cases, keep, any-true, arith, eq_iff,
}
use lokilinux.Python.{◌>>=◌, raised, ok, Result}
use lokilinux.Workflow.Types.{EdgeOn, Edge, Graph, StepStatus, StepRun, lookup, is_done, is_failed}
use lokilinux.Workflow.Ready.{
  Readiness, ready, blocked, unmatched, readiness, incoming_edges, preds_terminal, edge_matches,
}

-- The source of `e` has ended as succeeded, failed or skipped.
abbrev pub SourceDone : List StepRun → Edge → Type 0
SourceDone rs e = (p : StepRun) × (lookup e.source rs ≡ some p) × (is_done p.status ≡ true)

-- What an edge's label asks of the status of its source.
abbrev pub Labels : EdgeOn → StepStatus → Type 0
Labels EdgeOn.success s = s ≡ StepStatus.succeeded
Labels EdgeOn.failure s = s ≡ StepStatus.failed
Labels EdgeOn.always s = Unit

-- The source of `e` has ended, in the way that the label of `e` asks for.
abbrev pub Matches : List StepRun → Edge → Type 0
Matches rs e =
    (p : StepRun) × (lookup e.source rs ≡ some p) × (is_done p.status ≡ true) × Labels e.on p.status

mem-keep :
    (p : Edge → Bool) (es : List Edge) (e : Edge) → Memᴰ e es → p e ≡ true → Memᴰ e (keep p es)
mem-keep p [] e m h = elim m [ ]
mem-keep p (x ∷ xs) e (Memᴰ.head q) h = let k : p x ≡ true = cc in rw (k, keep) (Memᴰ.head q)
mem-keep p (x ∷ xs) e (Memᴰ.tail m) h = elim (Bool-cases (p x)) [
  | inl k ↦ rw (k, keep) (Memᴰ.tail (mem-keep p xs e m h))
  | inr k ↦ rw (k, keep) (mem-keep p xs e m h)
]

of_mem-keep :
    (p : Edge → Bool) (es : List Edge) (e : Edge) → Memᴰ e (keep p es) → Memᴰ e es × (p e ≡ true)
of_mem-keep p [] e m = elim m [ ]
of_mem-keep p (x ∷ xs) e m = elim (Bool-cases (p x)) [
  | inl k ↦ first k (λ m'. of_mem-keep p xs e m') (rw (k, keep) at m)
  | inr k ↦ let (m', h) = of_mem-keep p xs e (rw (k, keep) at m) in (Memᴰ.tail m', h)
]
  where
    first :
        p x ≡ true
        → (Memᴰ e (keep p xs) → Memᴰ e xs × (p e ≡ true))
        → Memᴰ e (x ∷ keep p xs)
        → Memᴰ e (x ∷ xs) × (p e ≡ true)
    first k f (Memᴰ.head q) = (Memᴰ.head q, cc)
    first k f (Memᴰ.tail m') = let (n, h) = f m' in (Memᴰ.tail n, h)

pub mem-incoming_edges :
    (g : Graph) (id : String) (e : Edge)
    → Memᴰ e g.edges
    → e.target ≡ id
    → Memᴰ e (incoming_edges g id)
unfolding incoming_edges
mem-incoming_edges g id e m h = mem-keep _ g.edges e m ((eq_iff e.target id).1 h)

pub of_mem-incoming_edges :
    (g : Graph) (id : String) (e : Edge)
    → Memᴰ e (incoming_edges g id)
    → Memᴰ e g.edges × (e.target ≡ id)
unfolding incoming_edges
of_mem-incoming_edges g id e m =
    let (m', h) = of_mem-keep _ g.edges e m in (m', (eq_iff e.target id).0 h)

-- `all` over the edges.
preds_terminal-cons :
    (rs : List StepRun) (x : Edge) (xs : List Edge)
    → preds_terminal rs (x ∷ xs) ≡ ok true
    → SourceDone rs x × (preds_terminal rs xs ≡ ok true)
unfolding preds_terminal
preds_terminal-cons rs x xs h = elim (Option-cases (lookup x.source rs)) [
  | inl missing ↦ cc (rw (missing, preds_terminal) at h)
  | inr (p, found) ↦ done p found (rw (found, preds_terminal) at h)
]
  where
    done :
        (p : StepRun)
        → lookup x.source rs ≡ some p
        → (if is_done p.status then preds_terminal rs xs else ok false) ≡ ok true
        → SourceDone rs x × (preds_terminal rs xs ≡ ok true)
    done p found k = ((p, found, ground arith), ground arith)

pub preds_terminal-done :
    (rs : List StepRun) (es : List Edge)
    → preds_terminal rs es ≡ ok true
    → (e : Edge) → Memᴰ e es
    → SourceDone rs e
preds_terminal-done rs [] h e m = elim m [ ]
preds_terminal-done rs (x ∷ xs) h e (Memᴰ.head q) = rw q (preds_terminal-cons rs x xs h).0
preds_terminal-done rs (x ∷ xs) h e (Memᴰ.tail m) =
    preds_terminal-done rs xs (preds_terminal-cons rs x xs h).1 e m

edge_matches-Matches :
    (rs : List StepRun) (e : Edge) → SourceDone rs e → edge_matches rs e ≡ true → Matches rs e
unfolding edge_matches is_failed
edge_matches-Matches rs e (p, found, done) h = (p, found, done, label e.on refl)
  where
    label : (on : EdgeOn) → e.on ≡ on → Labels on p.status
    label EdgeOn.success k = ground arith
    label EdgeOn.failure k = ground arith
    label EdgeOn.always k = tt

-- `any` over the edges.
pub any-Matches :
    (rs : List StepRun) (es : List Edge)
    → preds_terminal rs es ≡ ok true
    → any (edge_matches rs) es ≡ true
    → (e : Edge) × Memᴰ e es × Matches rs e
any-Matches rs es h a =
    let (e, m, k) = any-true (edge_matches rs) es a in
    (e, m, edge_matches-Matches rs e (preds_terminal-done rs es h e m) k)

-- What `readiness` has seen where it does not hold the step back.
abbrev pub Seen : List StepRun → List Edge → Readiness → Type 0
Seen rs es rd =
    ((e : Edge) → Memᴰ e es → SourceDone rs e)
    × (rd ≢ unmatched → (es ≡ []) ⊎ ((e : Edge) × Memᴰ e es × Matches rs e))

decide-Seen :
    (rs : List StepRun) (x : Edge) (xs : List Edge) (rd : Readiness) (r : Result Bool)
    → preds_terminal rs (x ∷ xs) ≡ r
    → (r >>= λ terminal. ok (
        if terminal
        then (if any (edge_matches rs) (x ∷ xs) then ready else unmatched)
        else blocked))
      ≡ ok rd
    → rd ≢ blocked
    → Seen rs (x ∷ xs) rd
decide-Seen rs x xs rd (raised e) h k nb = cc
decide-Seen rs x xs rd (ok false) h k nb = absurd (nb (cc))
decide-Seen rs x xs rd (ok true) h k nb =
    (preds_terminal-done rs (x ∷ xs) h, λ nu. inr (any-Matches rs (x ∷ xs) h (matched nu)))
  where
    matched : rd ≢ unmatched → any (edge_matches rs) (x ∷ xs) ≡ true
    matched nu = elim (Bool-cases (any (edge_matches rs) (x ∷ xs))) [
      | inl m ↦ m
      | inr m ↦ absurd (nu (ground arith))
    ]

pub readiness-Seen :
    (rs : List StepRun) (es : List Edge) (rd : Readiness)
    → readiness rs es ≡ ok rd
    → rd ≢ blocked
    → Seen rs es rd
unfolding readiness
readiness-Seen rs [] rd h nb = (λ e m. elim m [ ], λ nu. inl refl)
readiness-Seen rs (x ∷ xs) rd h nb = decide-Seen rs x xs rd (preds_terminal rs (x ∷ xs)) refl h nb
