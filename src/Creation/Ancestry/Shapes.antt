-- ===== src/Creation/Ancestry/Shapes.antt =====
-- The shape of the chain of links of a new instance.
use ai_brain.Prelude.{
  ℕ, suc, ◌≡◌, refl, sym, ◌∙◌, Bool, true, false, not, ◌&&◌, Option, none, some, List, [], ◌∷◌,
  ◌++◌, all, next_id, inl, inr, Bool-cases, append_nil, append_assoc, arith, ◌==◌, is_some,
}
use ai_brain.Claims.Rows.{instance_keyed}
use ai_brain.Creation.{
  ProvenanceLinkKind, t7_file, archive_member, ProvenanceLink, link_keyed, Catalogue,
}
use ai_brain.Creation.Ancestry.{
  ProvenanceStep, Observed, Registered, registered, is_file, observed_instance, link_of, add_links,
  create_instance,
}

-- `ck_provenance_links_root_shape`
abbrev pub RootShape : ProvenanceLinkKind → ℕ → Option ℕ → Type 0
RootShape t7_file sequence_index parent = (sequence_index ≡ 0) × (parent ≡ none)
RootShape archive_member sequence_index parent =
    ((sequence_index == 0) ≡ false) × (is_some parent ≡ true)

file_shape : (kind : ProvenanceLinkKind) → is_file kind ≡ true → RootShape kind 0 none
file_shape t7_file h = (refl, refl)
file_shape archive_member h = absurd cc

member_shape :
    (kind : ProvenanceLinkKind) (p k : ℕ)
    → not (is_file kind) ≡ true
    → RootShape kind (suc k) (some p)
member_shape t7_file p k h = absurd cc
member_shape archive_member p k h = ((ground arith), refl)

-- Whether all are, for a first one and the rest.
all-cons {ℓ} :
    {A : Type ℓ} (p : A → Bool) (x : A) (xs : List A)
    → all p (x ∷ xs) ≡ true
    → (p x ≡ true) × (all p xs ≡ true)
all-cons p x xs h = elim (Bool-cases (p x)) [
  | inl e ↦ (e, rw e at h)
  | inr e ↦ let h' = rw e at h in absurd cc
]

-- Links of one instance from a position on: each is of the step at its position, has the link before
-- it as its parent, and meets the check constraint.
abbrev pub Chain : ℕ → Option ℕ → ℕ → List ProvenanceStep → List ProvenanceLink → Type 0
Chain instance_id parent k [] [] = Unit
Chain instance_id parent k (step ∷ steps) (l ∷ ls) =
    (l.source_instance_id ≡ instance_id)
    × (l.parent_link_id ≡ parent)
    × (l.sequence_index ≡ k)
    × (l.kind ≡ step.kind)
    × (l.path ≡ step.path)
    × RootShape l.kind l.sequence_index l.parent_link_id
    × Chain instance_id (some l.id) (suc k) steps ls
Chain instance_id parent k _ _ = ⊥

-- The links that the loop adds.
added : ℕ → Option ℕ → ℕ → List ProvenanceStep → List ProvenanceLink → List ProvenanceLink
added instance_id parent k [] links = []
added instance_id parent k (step ∷ steps) links =
    let l = link_of instance_id parent k step (next_id links) in
    l ∷ added instance_id (some l.id) (suc k) steps (links ++ l ∷ [])

add_links_added :
    (i : ℕ) (parent : Option ℕ) (k : ℕ) (steps : List ProvenanceStep) (links : List ProvenanceLink)
    → add_links i parent k steps links ≡ links ++ added i parent k steps links
unfolding add_links added
add_links_added i parent k [] links = sym (append_nil links)
add_links_added i parent k (step ∷ steps) links =
    let l = link_of i parent k step (next_id links) in
    add_links_added i (some l.id) (suc k) steps (links ++ l ∷ [])
    ∙ append_assoc links (l ∷ []) (added i (some l.id) (suc k) steps (links ++ l ∷ []))

members-Chain :
    (i p k : ℕ) (steps : List ProvenanceStep) (links : List ProvenanceLink)
    → all (λ step. not (is_file step.kind)) steps ≡ true
    → Chain i (some p) (suc k) steps (added i (some p) (suc k) steps links)
unfolding added
members-Chain i p k [] links h = tt
members-Chain i p k (step ∷ steps) links h =
    let (first, rest) = all-cons (λ x. not (is_file x.kind)) step steps h in
    (
      refl,
      refl,
      refl,
      refl,
      refl,
      member_shape step.kind p k first,
      members-Chain i (next_id links) (suc k) steps _ rest,
    )

root-Chain :
    (i : ℕ) (root : ProvenanceStep) (steps : List ProvenanceStep) (links : List ProvenanceLink)
    → is_file root.kind ≡ true
    → all (λ step. not (is_file step.kind)) steps ≡ true
    → Chain i none 0 (root ∷ steps) (added i none 0 (root ∷ steps) links)
unfolding added
root-Chain i root steps links r h = (
  refl,
  refl,
  refl,
  refl,
  refl,
  file_shape root.kind r,
  members-Chain i (next_id links) 0 steps _ h,
)

-- The chains that are accepted: the file itself, and then only members of archives.
abbrev pub is_chain : List ProvenanceStep → Bool
is_chain [] = false
is_chain (root ∷ steps) = is_file root.kind && all (λ step. not (is_file step.kind)) steps

-- What a creation gives from a catalogue.
abbrev pub Linked : Observed → List ProvenanceStep → Catalogue → Registered × Catalogue → Type 0
Linked o steps c (registered id, c') =
    (is_chain steps ≡ true)
    × (c'.tables.instances ≡ c.tables.instances ++ observed_instance o id ∷ [])
    × (links : List ProvenanceLink) × (c'.links ≡ c.links ++ links)
    × Chain id none 0 steps links
Linked o steps c (_, c') = (is_chain steps ≡ false) × (c' ≡ c)

-- A creation of an instance succeeds exactly for a chain that begins with a file and goes on with
-- members of archives only. It then appends the instance, and links that are contiguous from 0, have
-- the link before them as their parent, belong to the instance, are of the steps in order, and meet
-- the check constraint of a link; otherwise it writes nothing.
pub create_instance-Linked :
    (o : Observed) (steps : List ProvenanceStep) (c : Catalogue)
    → Linked o steps c (create_instance o steps c)
unfolding create_instance
create_instance-Linked o [] c = (refl, refl)
create_instance-Linked o (root ∷ steps) c =
    let id = next_id c.tables.instances in
    elim (Bool-cases (is_file root.kind)) [
      | inr r ↦ rw r (rw r refl, refl)
      | inl r ↦ elim (Bool-cases (all (λ step. not (is_file step.kind)) steps)) [
        | inr e ↦ rw (r, e) (rw (r, e) refl, refl)
        | inl e ↦
            rw (r, e)
              (
                rw (r, e) refl,
                refl,
                added id none 0 (root ∷ steps) c.links,
                add_links_added id none 0 (root ∷ steps) c.links,
                root-Chain id root steps c.links r e,
              )
      ]
    ]
