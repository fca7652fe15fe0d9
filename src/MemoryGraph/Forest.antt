-- ===== src/MemoryGraph/Forest.antt =====
-- Edge tables of tools/graph.py that hold no cycle.
use krakey_bot.Base.{ℕ, List, [], ◌∷◌, ◌++◌, inl, inr}
use krakey_bot.MemoryGraph.{Edge}
use krakey_bot.MemoryGraph.Joined.{
  Joined, here, step, Joined-sym, Joined-trans, Joined-weaken, Joined-cons, Adjacent-append,
  Adjacent-middle,
}

-- Each row joined two nodes that the older rows did not join.
abbrev pub Forest : List Edge → Type 0
Forest [] = Unit {0}
Forest (e ∷ es) = (¬ Joined es e.node_b e.node_a) × Forest es

-- Without any one of the rows, its two ends are not joined.
pub Forest-bridge :
    (es fs : List Edge) (e : Edge) → Forest (es ++ e ∷ fs) → ¬ Joined (es ++ fs) e.node_b e.node_a
Forest-bridge [] fs e (h, _) j = h j
Forest-bridge (d ∷ es) fs e (h, f) j = elim (Joined-cons j) [
  | inl k ↦ Forest-bridge es fs e f k
  | inr (inl (k, l)) ↦
      h (Joined-trans (weaken (Joined-sym l)) (Joined-trans edge (weaken (Joined-sym k))))
  | inr (inr (k, l)) ↦ h (Joined-trans (weaken k) (Joined-trans (Joined-sym edge) (weaken l)))
]
  where
    weaken : {v u : ℕ} → Joined (es ++ fs) v u → Joined (es ++ e ∷ fs) v u
    weaken = Joined-weaken (Adjacent-append es fs e)

    edge : Joined (es ++ e ∷ fs) e.node_b e.node_a
    edge = step (Adjacent-middle es fs e) here
