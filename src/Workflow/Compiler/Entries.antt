-- ===== src/Workflow/Compiler/Entries.antt =====
-- The entry points that the compiler stores are the steps that a tick starts without a predecessor.
use lokilinux.Prelude.{
  ◌==◌, ◌∙◌, sym, String, true, ◌≡◌, ◌↔◌, refl, ap, List, [], ◌∷◌, Memᴰ, arith, str_eq, Bool-cases,
  inl, inr, keep,
}
use lokilinux.Workflow.Types.{Step, Edge}
use lokilinux.Workflow.Ready.{incoming_edges}
use lokilinux.Workflow.Compiler.{Spec, incoming, entry_ids, build_graph}

one_edge :
    (e : Edge) (id : String) (es : List Edge)
    → str_eq e.target id ≡ true
    → incoming id (e ∷ es) ≡ 0
    → ⊥
unfolding incoming
one_edge e id es k h = ground arith

no_edge-incoming :
    (id : String) (es : List Edge)
    → (incoming id es ≡ 0) ↔ (keep (λ (e : Edge). str_eq e.target id) es ≡ [])
unfolding incoming
no_edge-incoming id [] = ((λ h. refl), (λ h. refl))
no_edge-incoming id (e ∷ es) = elim (Bool-cases (str_eq e.target id)) [
  | inl k ↦ ((λ h. absurd (one_edge e id es k h)), (λ h. cc (rw (k, keep) at h)))
  | inr k ↦ rw (k, keep) (no_edge-incoming id es)
]

-- A step that no edge leads to.
pub record IsEntry (spec : Spec) (id : String) : Type 0 where
  pub step : Step
  pub step_there : Memᴰ step spec.steps
  pub named : step.id ≡ id
  pub no_edge : incoming_edges (build_graph spec) id ≡ []

-- The same, by the list of steps.
abbrev Entry : List Edge → List Step → String → Type 0
Entry es ss id = (s : Step) × Memᴰ s ss × (s.id ≡ id) × (incoming id es ≡ 0)

module _ (es : List Edge) (id : String) where
  Entry-here :
      (s : Step) (ss : List Step)
      → (incoming s.id es == 0) ≡ true
      → (Memᴰ id (entry_ids es ss) → Entry es ss id)
      → Memᴰ id (s.id ∷ entry_ids es ss)
      → Entry es (s ∷ ss) id
  Entry-here s ss z ih (Memᴰ.head e) = (s, Memᴰ.head refl, sym e, rw e (ground (arith, z)))
  Entry-here s ss z ih (Memᴰ.tail m) = let (x, k, f, g) = ih m in (x, Memᴰ.tail k, f, g)

  entry_ids-Entry : (ss : List Step) → Memᴰ id (entry_ids es ss) → Entry es ss id
  unfolding entry_ids
  entry_ids-Entry [] m = elim m [ ]
  entry_ids-Entry (s ∷ ss) m = elim (Bool-cases (incoming s.id es == 0)) [
    | inl z ↦ Entry-here s ss z (λ k. entry_ids-Entry ss k) (rw z at m)
    | inr z ↦ let (x, k, f, g) = entry_ids-Entry ss (rw z at m) in (x, Memᴰ.tail k, f, g)
  ]

  Entry-entry_ids :
      (ss : List Step) (s : Step)
      → Memᴰ s ss
      → s.id ≡ id
      → incoming id es ≡ 0
      → Memᴰ id (entry_ids es ss)
  unfolding entry_ids
  Entry-entry_ids [] s m e z = elim m [ ]
  Entry-entry_ids (x ∷ ss) s (Memᴰ.head k) e z =
      let f : x.id ≡ id = sym (ap (λ (y : Step). y.id) k) ∙ e in
      let g : (incoming x.id es == 0) ≡ true = ground (arith, ap (λ y. incoming y es) f, z) in
      rw g (Memᴰ.head (sym f))
  Entry-entry_ids (x ∷ ss) s (Memᴰ.tail m) e z = elim (Bool-cases (incoming x.id es == 0)) [
    | inl g ↦ rw g (Memᴰ.tail (Entry-entry_ids ss s m e z))
    | inr g ↦ rw g (Entry-entry_ids ss s m e z)
  ]

module _ (spec : Spec) (id : String) where
  no_edge_lem : (incoming id spec.edges ≡ 0) ↔ (incoming_edges (build_graph spec) id ≡ [])
  unfolding incoming_edges build_graph
  no_edge_lem = no_edge-incoming id spec.edges

  -- The entry points of a compiled graph are the ids of exactly those steps that have no edge into
  -- them as the engine reads the edges.
  pub build_graph-IsEntry : Memᴰ id (build_graph spec).entry_ids ↔ IsEntry spec id
  unfolding build_graph
  build_graph-IsEntry = (
    (λ m.
        let (s, k, f, g) = entry_ids-Entry spec.edges id spec.steps m in
        record { step = s; step_there = k; named = f; no_edge = no_edge_lem.0 g }),
    (λ h.
        Entry-entry_ids spec.edges id spec.steps h.step h.step_there h.named
          (no_edge_lem.1 h.no_edge)),
  )
