-- ===== src/MemoryGraph/Search.antt =====
-- The search of `would_create_cycle` in tools/graph.py: what it finds, and that its rounds suffice.
use krakey_bot.Base.{
  ℕ, zero, suc, ◌+◌, ◌≤◌, ◌<◌, ◌≡◌, refl, sym, subst, ◌↔◌, ◌⊎◌, inl, inr, Bool, true, false, List,
  [], ◌∷◌, Option, none, some, any, elem, length, if◌then◌else◌, ◌==◌, ==_iff, ==_refl, nat_eq,
  arith, Bool-cases,
}
use krakey_bot.MemoryGraph.{Edge, other_end, unless_visited, walks, would_create_cycle}
use krakey_bot.MemoryGraph.Joined.{Ends, Adjacent, Joined, here, step}

-- A walk to `v` that comes to no node of a list, nor twice to one.
data Simple (es : List Edge) (v : ℕ) : List ℕ → ℕ → Type 0 where
  done : {vis : List ℕ} → Simple es v vis v
  next :
      {vis : List ℕ} {u w : ℕ}
      → Adjacent es u w
      → elem w vis ≡ false
      → Simple es v (w ∷ vis) w
      → Simple es v vis u

abbrev Within : List ℕ → List ℕ → Type 0
Within vis big = (x : ℕ) → elem x big ≡ false → elem x vis ≡ false

Within-cons : (w : ℕ) (vis big : List ℕ) → Within vis big → Within (w ∷ vis) (w ∷ big)
Within-cons w vis big h x k = ground (arith, h x)

module _ {es : List Edge} {v : ℕ} where
  Simple-weaken :
      {big vis : List ℕ} {u : ℕ} → Within vis big → Simple es v big u → Simple es v vis u
  Simple-weaken h done = done
  Simple-weaken {big} {vis} h (next {u} {w} a k s) =
      next a (h w k) (Simple-weaken (Within-cons w vis big h) s)

  -- A walk either avoids a node too, or has an end that starts there.
  Simple-avoid :
      (x : ℕ) {vis : List ℕ} {w : ℕ}
      → (w == x) ≡ false
      → Simple es v vis w
      → Simple es v (x ∷ vis) x ⊎ Simple es v (x ∷ vis) w
  Simple-avoid x h done = inr done
  Simple-avoid x {vis} h (next {u} {w} a k s) = elim (Bool-cases (w == x)) [
    | inl e ↦ inl (subst (λ y. Simple es v (y ∷ vis) y) ((==_iff w x).0 e) s)
    | inr e ↦ elim (Simple-avoid x e s) [
      | inl t ↦ inl (Simple-weaken (λ y q. ground arith) t)
      | inr t ↦
          inr (
            next a (ground (arith, ==_iff x w, ==_iff w x)) (Simple-weaken (λ y q. ground arith) t))
    ]
  ]

  simple : {u : ℕ} → Joined es v u → Simple es v (u ∷ []) u
  simple here = done
  simple (step {u} {w} a j) = elim (Bool-cases (w == u)) [
    | inl e ↦ subst (λ x. Simple es v (x ∷ []) x) ((==_iff w u).0 e) (simple j)
    | inr e ↦ elim (Simple-avoid u e (simple j)) [
      | inl s ↦ Simple-weaken (λ y q. ground arith) s
      | inr s ↦
          next a (ground (arith, ==_iff u w, ==_iff w u)) (Simple-weaken (λ y q. ground arith) s)
    ]
  ]

-- The ends of rows that are not visited yet: each step of a walk lowers their number.
abbrev unseen : List Edge → List ℕ → ℕ
unseen [] vis = 0
unseen (e ∷ es) vis =
    (if elem e.node_a vis then 0 else 1) + ((if elem e.node_b vis then 0 else 1) + unseen es vis)

unseen-le : (es : List Edge) (vis : List ℕ) → unseen es vis ≤ length es + length es
unseen-le [] vis = omega arith
unseen-le (e ∷ es) vis = ground (arith, unseen-le es vis)

unseen-cons-le : (es : List Edge) (w : ℕ) (vis : List ℕ) → unseen es (w ∷ vis) ≤ unseen es vis
unseen-cons-le [] w vis = omega arith
unseen-cons-le (e ∷ es) w vis = ground (arith, unseen-cons-le es w vis)

unseen-cons-lt :
    (es : List Edge) (u w : ℕ) (vis : List ℕ)
    → Adjacent es u w
    → elem w vis ≡ false
    → unseen es (w ∷ vis) < unseen es vis
unseen-cons-lt [] u w vis h k = absurd h
unseen-cons-lt (e ∷ es) u w vis (inl h) k = ground (arith, unseen-cons-le es w vis)
unseen-cons-lt (e ∷ es) u w vis (inr h) k = ground (arith, unseen-cons-lt es u w vis h k)

other_end-eq_some : (u w : ℕ) (e : Edge) → other_end u e ≡ some w → Ends e u w
other_end-eq_some u w e h = ground arith

other_end-Ends : (u w : ℕ) (e : Edge) → Ends e u w → other_end u e ≡ some w
other_end-Ends u w e h = ground arith

module _ (go : ℕ → List ℕ → Bool) (u : ℕ) (vis : List ℕ) where
  abbrev tries : Edge → Bool
  tries e = unless_visited go vis (other_end u e)

  any-tries :
      (es : List Edge) (w : ℕ)
      → Adjacent es u w
      → elem w vis ≡ false
      → go w (w ∷ vis) ≡ true
      → any tries es ≡ true
  any-tries [] w h k r = absurd h
  any-tries (e ∷ es) w (inl h) k r = rw (other_end-Ends u w e h, k, r) refl
  any-tries (e ∷ es) w (inr h) k r = ground (arith, any-tries es w h k r)

  any-tries-eq_true :
      (es : List Edge) → any tries es ≡ true → (w : ℕ) × Adjacent es u w × (go w (w ∷ vis) ≡ true)
  any-tries-eq_true [] h = absurd (cc)
  any-tries-eq_true (e ∷ es) h = elim (Bool-cases (tries e)) [
    | inl k ↦
        let (w, there, r) = took (other_end u e) k in (w, inl (other_end-eq_some u w e there), r)
    | inr k ↦ let (w, a, r) = any-tries-eq_true es (ground arith) in (w, inr a, r)
  ]
    where
      took :
          (o : Option ℕ)
          → unless_visited go vis o ≡ true
          → (w : ℕ) × (o ≡ some w) × (go w (w ∷ vis) ≡ true)
      took none k = absurd (cc)
      took (some w) k = (w, refl, ground arith)

module _ (es : List Edge) (v : ℕ) where
  walks-Joined : (fuel u : ℕ) (vis : List ℕ) → walks es v fuel u vis ≡ true → Joined es v u
  unfolding walks
  walks-Joined zero u vis h = absurd (cc)
  walks-Joined (suc fuel) u vis h = elim (Bool-cases (u == v)) [
    | inl e ↦ subst (Joined es v) (sym ((==_iff u v).0 e)) here
    | inr e ↦
        let (w, a, r) = any-tries-eq_true (walks es v fuel) u vis es (rw (e, walks) at h) in
        step a (walks-Joined fuel w (w ∷ vis) r)
  ]

  walks-Simple :
      (fuel u : ℕ) (vis : List ℕ)
      → Simple es v vis u
      → unseen es vis < fuel
      → walks es v fuel u vis ≡ true
  unfolding walks
  walks-Simple zero u vis s h = absurd (omega arith)
  walks-Simple (suc fuel) u vis done h = rw (==_refl v, walks) refl
  walks-Simple (suc fuel) u vis (next {w} a k s) h = elim (Bool-cases (u == v)) [
    | inl e ↦ rw (e, walks) refl
    | inr e ↦
        rw (e, walks)
          (any-tries (walks es v fuel) u vis es w a k
            (walks-Simple fuel w (w ∷ vis) s (omega (arith, unseen-cons-lt es u w vis a k))))
  ]

-- The check answers true exactly when the edges join the two nodes, in one step or in many, where a
-- node counts as joined to itself: the rounds that the model gives to its search are enough for
-- every table.
pub would_create_cycle_lem :
    (es : List Edge) (a b : ℕ) → (would_create_cycle es b a ≡ true) ↔ Joined es b a
unfolding would_create_cycle
would_create_cycle_lem es a b = elim (Bool-cases (a == b)) [
  | inl e ↦ (λ h. subst (Joined es b) (sym ((==_iff a b).0 e)) here, λ j. rw e refl)
  | inr e ↦ (
    λ h. walks-Joined es b (suc (length es + length es)) a (a ∷ []) (rw e at h),
    λ j. rw e (
        walks-Simple es b (suc (length es + length es)) a (a ∷ []) (simple j)
          (omega (arith, unseen-le es (a ∷ [])))),
  )
]
