-- ===== src/Reasoning/GapAnalysis/Leaves.antt =====
-- What the walk reports, against the leaves of the tree.
use realityai_agents.Prelude.{
  ℕ, String, ◌≡◌, refl, sym, ap, ◌∙◌, Bool, true, false, not, ◌≤◌, ◌↔◌, ◌⊎◌, inl, inr, arith, List,
  [], ◌∷◌, ◌++◌, leb, length, append_nil, append_assoc, all, any, Bool-cases, map, keep,
}
use realityai_agents.Reasoning.Schemas.{
  leaf, and_kind, or_kind, RequirementNode, requirement, Nodes, no_nodes, and_then,
  UnsatisfiedRequirement,
}
use realityai_agents.Reasoning.GapAnalysis.{already_of, report, walk, walk_all}

module _ (completed : List String) where
  -- A leaf wants `need` courses of its pool among the completed ones.
  abbrev pub IsMet : List String → ℕ → Type 0
  IsMet pool need = need ≤ length (already_of completed pool)

  unfoldable mutual
    pub Satisfied : RequirementNode → Type 0
    Satisfied (requirement id leaf name pool need children) = IsMet pool need
    Satisfied (requirement id and_kind name pool need children) = AllSatisfied children
    Satisfied (requirement id or_kind name pool need children) = SomeSatisfied children

    pub AllSatisfied : Nodes → Type 0
    AllSatisfied no_nodes = Unit
    AllSatisfied (and_then node nodes) = Satisfied node × AllSatisfied nodes

    pub SomeSatisfied : Nodes → Type 0
    SomeSatisfied no_nodes = ⊥
    SomeSatisfied (and_then node nodes) = Satisfied node ⊎ SomeSatisfied nodes

-- A leaf of the tree: its id, its name, its pool and how many courses it wants.
pub record Leaf : Type 0 where
  pub id : String
  pub name : String
  pub pool : List String
  pub need : ℕ

mutual
  pub leaves : RequirementNode → List Leaf
  leaves (requirement id leaf name pool need children) =
      record { id = id; name = name; pool = pool; need = need } ∷ []
  leaves (requirement id and_kind name pool need children) = leaves_of children
  leaves (requirement id or_kind name pool need children) = leaves_of children

  pub leaves_of : Nodes → List Leaf
  leaves_of no_nodes = []
  leaves_of (and_then node nodes) = leaves node ++ leaves_of nodes

module _ (completed : List String) where
  abbrev pub is_unmet : Leaf → Bool
  is_unmet l = not (leb l.need (length (already_of completed l.pool)))

  abbrev pub report_leaf : Leaf → UnsatisfiedRequirement
  report_leaf l = report completed l.id l.name l.pool l.need

  abbrev pub reports : List Leaf → List UnsatisfiedRequirement
  reports ls = map report_leaf (keep is_unmet ls)

  reports-append : (ks ls : List Leaf) → reports (ks ++ ls) ≡ reports ks ++ reports ls
  reports-append [] ls = refl
  reports-append (k ∷ ks) ls = elim (Bool-cases (is_unmet k)) [
    | inl unmet ↦ rw unmet (ap (λ r. report_leaf k ∷ r) (reports-append ks ls))
    | inr met ↦ rw met (reports-append ks ls)
  ]

  mutual
    unfolding walk leaves

    walk-reports :
        (node : RequirementNode) (out : List UnsatisfiedRequirement)
        → (walk completed false node out).1 ≡ out ++ reports (leaves node)
    walk-reports (requirement id leaf name pool need children) out =
        elim (Bool-cases (leb need (length (already_of completed pool)))) [
          | inl met ↦ rw met (sym (append_nil out))
          | inr unmet ↦ rw unmet refl
        ]
    walk-reports (requirement id and_kind name pool need children) out =
        walk_all-reports children out
    walk-reports (requirement id or_kind name pool need children) out =
        walk_all-reports children out

    walk_all-reports :
        (nodes : Nodes) (out : List UnsatisfiedRequirement)
        → (walk_all completed false nodes out).1 ≡ out ++ reports (leaves_of nodes)
    walk_all-reports no_nodes out = sym (append_nil out)
    walk_all-reports (and_then node nodes) out =
        walk_all-reports nodes (walk completed false node out).1
        ∙ ap (λ o. o ++ reports (leaves_of nodes)) (walk-reports node out)
        ∙ append_assoc out (reports (leaves node)) (reports (leaves_of nodes))
        ∙ ap (λ r. out ++ r) (sym (reports-append (leaves node) (leaves_of nodes)))

  mutual
    unfolding walk Satisfied

    walk-Satisfied_iff :
        (node : RequirementNode) (b : Bool) (out : List UnsatisfiedRequirement)
        → ((walk completed b node out).0 ≡ true) ↔ Satisfied completed node
    walk-Satisfied_iff (requirement id leaf name pool need children) b out = ground arith
    walk-Satisfied_iff (requirement id and_kind name pool need children) b out =
        walk_all-AllSatisfied_iff children b out
    walk-Satisfied_iff (requirement id or_kind name pool need children) b out =
        walk_all-SomeSatisfied_iff children b out

    walk_all-AllSatisfied_iff :
        (nodes : Nodes) (b : Bool) (out : List UnsatisfiedRequirement)
        → (all (λ r. r) (walk_all completed b nodes out).0 ≡ true) ↔ AllSatisfied completed nodes
    walk_all-AllSatisfied_iff no_nodes b out = (λ h. tt, λ h. refl)
    walk_all-AllSatisfied_iff (and_then node nodes) b out = ground (
      arith,
      walk-Satisfied_iff node b out,
      walk_all-AllSatisfied_iff nodes b (walk completed b node out).1,
    )

    walk_all-SomeSatisfied_iff :
        (nodes : Nodes) (b : Bool) (out : List UnsatisfiedRequirement)
        → (any (λ r. r) (walk_all completed b nodes out).0 ≡ true) ↔ SomeSatisfied completed nodes
    walk_all-SomeSatisfied_iff no_nodes b out = (λ h. cc, λ h. absurd h)
    walk_all-SomeSatisfied_iff (and_then node nodes) b out = ground (
      arith,
      walk-Satisfied_iff node b out,
      walk_all-SomeSatisfied_iff nodes b (walk completed b node out).1,
    )

-- The walk answers whether the subtree is satisfied: a leaf by enough courses of its pool, an `and`
-- by all of its children, an `or` by one of them.
walk-Satisfied :
    (completed : List String) (node : RequirementNode) (out : List UnsatisfiedRequirement)
    → ((walk completed false node out).0 ≡ true) ↔ Satisfied completed node
walk-Satisfied completed node out = walk-Satisfied_iff completed node false out
