-- ===== src/Workflow/Versions/Published.antt =====
-- A workflow has at most one published version, the current one.
use lokilinux.Prelude.{
  Mem-snoc, ◌+◌, Option-cases, Bool-cases, some, none, ap, sym, ◌∙◌, subst, ℕ, String, true, false,
  ◌≡◌, refl, Option, List, [], ◌∷◌, ◌++◌, map, Memᴰ, arith, inl, inr, Bool,
}
use lokilinux.Http.{done}
use lokilinux.Workflow.Versions.{
  max_version, create_workflow, create_version, same_base, update_draft, publish_version,
  find_version, is_draft, VersionRow, Shelf, is_published, new_version, edit_row, archive_row,
  publish_row,
}
use lokilinux.Workflow.Types.{Graph}

-- Every published version is the current one.
pub record IsCurrent (s : Shelf) : Type 0 where
  pub only : (r : VersionRow) → Memᴰ r s.rows → is_published r.status ≡ true → s.current ≡ some r.id

Mem-map :
    {A B : Type 0} (f : A → B) (xs : List A) (y : B)
    → Memᴰ y (map f xs)
    → (x : A) × Memᴰ x xs × (y ≡ f x)
Mem-map f [] y m = elim m [ ]
Mem-map f (x ∷ xs) y (Memᴰ.head e) = (x, Memᴰ.head refl, e)
Mem-map f (x ∷ xs) y (Memᴰ.tail m) = let (z, k, e) = Mem-map f xs y m in (z, Memᴰ.tail k, e)

-- A row that a publication leaves published.
publish_row-archived :
    (current : Option ℕ) (now id : ℕ) (actor : Option ℕ) (actor_id : Option String) (r : VersionRow)
    → (is_published r.status ≡ true → current ≡ some r.id)
    → is_published (publish_row now id actor actor_id (archive_row current r)).status ≡ true
    → (publish_row now id actor actor_id (archive_row current r)).id ≡ id
unfolding publish_row archive_row is_published
publish_row-archived current now id actor actor_id r only p = ground (arith, only)

edit_row-fields :
    (id : ℕ) (g : Graph) (hash : String) (r : VersionRow)
    → ((edit_row id g hash r).id ≡ r.id) × ((edit_row id g hash r).status ≡ r.status)
unfolding edit_row
edit_row-fields id g hash r = ground arith

new_version-draft :
    (id number : ℕ) (g : Graph) (hash : String)
    → is_published (new_version id number g hash).status ≡ false
unfolding new_version is_published
new_version-draft id number g hash = refl

-- The shelves that the four operations lead to.
pub data Versioned : Shelf → Type 0 where
  created :
      (id : ℕ) (compiled : Option Graph) (hash : String) (s : Shelf)
      → create_workflow id compiled hash ≡ done s
      → Versioned s
  added :
      (id : ℕ) (compiled : Option Graph) (hash : String) (s s' : Shelf)
      → Versioned s
      → create_version id compiled hash s ≡ done s'
      → Versioned s'
  edited :
      (id : ℕ) (base : Option String) (compiled : Option Graph) (hash : String) (s s' : Shelf)
      → Versioned s
      → update_draft id base compiled hash s ≡ done s'
      → Versioned s'
  published :
      (inputs_ok : Graph → Bool) (now id : ℕ) (actor : Option ℕ) (actor_id : Option String)
      (compiled : Option Graph) (s s' : Shelf)
      → Versioned s
      → publish_version inputs_ok now id actor actor_id compiled s ≡ done s'
      → Versioned s'

done_injective : {x y : Shelf} → done x ≡ done y → x ≡ y
done_injective e = cc

create_workflow-IsCurrent :
    (id : ℕ) (compiled : Option Graph) (hash : String) (s : Shelf)
    → create_workflow id compiled hash ≡ done s
    → IsCurrent s
unfolding create_workflow
create_workflow-IsCurrent id none hash s h = cc h
create_workflow-IsCurrent id (some g) hash s h =
    subst IsCurrent (done_injective h) (record { only = λ r m p. first_draft r m p })
  where
    first_draft :
        (r : VersionRow)
        → Memᴰ r (new_version id 1 g hash ∷ [])
        → is_published r.status ≡ true
        → none ≡ some r.id
    first_draft r (Memᴰ.head e) p =
        cc (ap (λ (x : VersionRow). is_published x.status) e, p, new_version-draft id 1 g hash)
    first_draft r (Memᴰ.tail m) p = elim m [ ]

create_version-IsCurrent :
    (id : ℕ) (compiled : Option Graph) (hash : String) (s s' : Shelf)
    → IsCurrent s
    → create_version id compiled hash s ≡ done s'
    → IsCurrent s'
unfolding create_version
create_version-IsCurrent id none hash s s' c h = cc h
create_version-IsCurrent id (some g) hash s s' c h =
    subst IsCurrent (done_injective h) (record { only = λ r m p. with_draft r m p })
  where
    with_draft :
        (r : VersionRow)
        → Memᴰ r (s.rows ++ new_version id (max_version s.rows + 1) g hash ∷ [])
        → is_published r.status ≡ true
        → s.current ≡ some r.id
    with_draft r m p = elim (Mem-snoc s.rows (new_version id (max_version s.rows + 1) g hash) r m) [
      | inl k ↦ c.only r k p
      | inr e ↦ cc (
        ap (λ (x : VersionRow). is_published x.status) e,
        p,
        new_version-draft id (max_version s.rows + 1) g hash,
      )
    ]

edited_IsCurrent :
    (id : ℕ) (g : Graph) (hash : String) (s : Shelf)
    → IsCurrent s
    → IsCurrent (record s { rows = map (edit_row id g hash) s.rows })
edited_IsCurrent id g hash s c = record {
  only = λ r m p.
      let (x, k, e) = Mem-map (edit_row id g hash) s.rows r m in
      let (same_id, same_status) = edit_row-fields id g hash x in
      let p' : is_published x.status ≡ true =
        sym (ap is_published (ap (λ (y : VersionRow). y.status) e ∙ same_status)) ∙ p in
      let q : s.current ≡ some x.id = c.only x k p' in
      q ∙ ap some (sym (ap (λ (y : VersionRow). y.id) e ∙ same_id));
}

published_IsCurrent :
    (now id : ℕ) (actor : Option ℕ) (actor_id : Option String) (s : Shelf)
    → IsCurrent s
    → IsCurrent (record {
      current = some id;
      rows = map (publish_row now id actor actor_id) (map (archive_row s.current) s.rows);
    })
published_IsCurrent now id actor actor_id s c = record {
  only = λ r m p.
      let (y, k, e) =
        Mem-map (publish_row now id actor actor_id) (map (archive_row s.current) s.rows) r m in
      let (x, j, f) = Mem-map (archive_row s.current) s.rows y k in
      let g : r ≡ publish_row now id actor actor_id (archive_row s.current x) =
        e ∙ ap (publish_row now id actor actor_id) f in
      let named =
        publish_row-archived s.current now id actor actor_id x (c.only x j)
          (sym (ap (λ (z : VersionRow). is_published z.status) g) ∙ p) in
      ap some (sym (ap (λ (z : VersionRow). z.id) g ∙ named));
}

update_draft-IsCurrent :
    (id : ℕ) (base : Option String) (compiled : Option Graph) (hash : String) (s s' : Shelf)
    → IsCurrent s
    → update_draft id base compiled hash s ≡ done s'
    → IsCurrent s'
unfolding update_draft
update_draft-IsCurrent id base compiled hash s s' c h =
    elim (Option-cases (find_version id s.rows)) [
      | inl gone ↦ cc (simp gone at h)
      | inr (r, there) ↦ elim (Bool-cases (is_draft r.status)) [
        | inr d ↦ cc (simp (there, d) at h)
        | inl d ↦ elim (Bool-cases (same_base base r.content_hash)) [
          | inr b ↦ cc (simp (there, d, b) at h)
          | inl b ↦ elim (Option-cases compiled) [
            | inl bad ↦ cc (simp (there, d, b, bad) at h)
            | inr (g, ok) ↦
                subst IsCurrent (done_injective (simp (there, d, b, ok) at h))
                  (edited_IsCurrent id g hash s c)
          ]
        ]
      ]
    ]

publish_version-IsCurrent :
    (inputs_ok : Graph → Bool) (now id : ℕ) (actor : Option ℕ) (actor_id : Option String)
    (compiled : Option Graph) (s s' : Shelf)
    → IsCurrent s
    → publish_version inputs_ok now id actor actor_id compiled s ≡ done s'
    → IsCurrent s'
unfolding publish_version
publish_version-IsCurrent inputs_ok now id actor actor_id compiled s s' c h =
    elim (Option-cases (find_version id s.rows)) [
      | inl gone ↦ cc (simp gone at h)
      | inr (r, there) ↦ elim (Bool-cases (is_draft r.status)) [
        | inr d ↦ cc (simp (there, d) at h)
        | inl d ↦ elim (Option-cases compiled) [
          | inl bad ↦ cc (simp (there, d, bad) at h)
          | inr (g, ok) ↦ elim (Bool-cases (inputs_ok g)) [
            | inr b ↦ cc (simp (there, d, ok, b) at h)
            | inl b ↦
                subst IsCurrent (done_injective (simp (there, d, ok, b) at h))
                  (published_IsCurrent now id actor actor_id s c)
          ]
        ]
      ]
    ]

-- However the versions of a workflow are created, edited and published: a published version is
-- the current one, so that at no time there are two.
pub Versioned-IsCurrent : {s : Shelf} → Versioned s → IsCurrent s
Versioned-IsCurrent (created id compiled hash s e) = create_workflow-IsCurrent id compiled hash s e
Versioned-IsCurrent (added id compiled hash s s' v e) =
    create_version-IsCurrent id compiled hash s s' (Versioned-IsCurrent v) e
Versioned-IsCurrent (edited id base compiled hash s s' v e) =
    update_draft-IsCurrent id base compiled hash s s' (Versioned-IsCurrent v) e
Versioned-IsCurrent (published inputs_ok now id actor actor_id compiled s s' v e) =
    publish_version-IsCurrent inputs_ok now id actor actor_id compiled s s' (Versioned-IsCurrent v)
      e
