-- ===== src/MemoryGraph/Joined.antt =====
-- Nodes joined by the edges of tools/graph.py, read without a direction.
use krakey_bot.Base.{ℕ, ◌≡◌, refl, sym, subst, ◌⊎◌, inl, inr, List, [], ◌∷◌, ◌++◌}
use krakey_bot.MemoryGraph.{Edge}

abbrev pub Ends : Edge → ℕ → ℕ → Type 0
Ends e u w = ((e.node_a ≡ u) × (e.node_b ≡ w)) ⊎ ((e.node_a ≡ w) × (e.node_b ≡ u))

abbrev pub Adjacent : List Edge → ℕ → ℕ → Type 0
Adjacent [] u w = ⊥
Adjacent (e ∷ es) u w = Ends e u w ⊎ Adjacent es u w

-- A walk from a node to `v`.
pub data Joined (es : List Edge) (v : ℕ) : ℕ → Type 0 where
  here : Joined es v v
  step : {u w : ℕ} → Adjacent es u w → Joined es v w → Joined es v u

pub Adjacent-sym : (es : List Edge) (u w : ℕ) → Adjacent es u w → Adjacent es w u
Adjacent-sym [] u w h = h
Adjacent-sym (e ∷ es) u w (inl (inl (p, q))) = inl (inr (p, q))
Adjacent-sym (e ∷ es) u w (inl (inr (p, q))) = inl (inl (p, q))
Adjacent-sym (e ∷ es) u w (inr h) = inr (Adjacent-sym es u w h)

module _ {es : List Edge} where
  pub Joined-trans : {v w u : ℕ} → Joined es v w → Joined es w u → Joined es v u
  Joined-trans p here = p
  Joined-trans p (step a q) = step a (Joined-trans p q)

  pub Joined-sym : {v u : ℕ} → Joined es v u → Joined es u v
  Joined-sym here = here
  Joined-sym (step {u} {w} a q) = Joined-trans (step (Adjacent-sym es u w a) here) (Joined-sym q)

  pub Joined-weaken :
      {fs : List Edge} {v u : ℕ}
      → ((x y : ℕ) → Adjacent es x y → Adjacent fs x y)
      → Joined es v u
      → Joined fs v u
  Joined-weaken h here = here
  Joined-weaken h (step {u} {w} a q) = step (h u w a) (Joined-weaken h q)

  -- What a further row can join: nodes that were joined, or a node at each of its ends.
  pub Joined-cons :
      {e : Edge} {v u : ℕ}
      → Joined (e ∷ es) v u
      → Joined es v u
        ⊎ ((Joined es e.node_a u × Joined es v e.node_b)
            ⊎ (Joined es e.node_b u × Joined es v e.node_a))
  Joined-cons here = inl here
  Joined-cons {e} {v} (step {u} {w} (inl (inl (p, q))) rest) = elim (Joined-cons rest) [
    | inl j ↦ inr (inl (subst (Joined es e.node_a) p here, subst (Joined es v) (sym q) j))
    | inr (inl (j, k)) ↦ inr (inl (subst (Joined es e.node_a) p here, k))
    | inr (inr (j, k)) ↦ inl (subst (Joined es v) p k)
  ]
  Joined-cons {e} {v} (step {u} {w} (inl (inr (p, q))) rest) = elim (Joined-cons rest) [
    | inl j ↦ inr (inr (subst (Joined es e.node_b) q here, subst (Joined es v) (sym p) j))
    | inr (inl (j, k)) ↦ inl (subst (Joined es v) q k)
    | inr (inr (j, k)) ↦ inr (inr (subst (Joined es e.node_b) q here, k))
  ]
  Joined-cons (step (inr a) rest) = elim (Joined-cons rest) [
    | inl j ↦ inl (step a j)
    | inr (inl (j, k)) ↦ inr (inl (step a j, k))
    | inr (inr (j, k)) ↦ inr (inr (step a j, k))
  ]

pub Adjacent-append :
    (es fs : List Edge) (e : Edge) (x y : ℕ) → Adjacent (es ++ fs) x y → Adjacent (es ++ e ∷ fs) x y
Adjacent-append [] fs e x y h = inr h
Adjacent-append (d ∷ es) fs e x y (inl h) = inl h
Adjacent-append (d ∷ es) fs e x y (inr h) = inr (Adjacent-append es fs e x y h)

pub Adjacent-middle : (es fs : List Edge) (e : Edge) → Adjacent (es ++ e ∷ fs) e.node_a e.node_b
Adjacent-middle [] fs e = inl (inl (refl, refl))
Adjacent-middle (d ∷ es) fs e = inr (Adjacent-middle es fs e)
