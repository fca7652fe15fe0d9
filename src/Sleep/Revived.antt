-- ===== src/Sleep/Revived.antt =====
-- engines/memory/_internal/sleep/kb_lifecycle.py, `find_revive_target`: the choice of an archived base.
use krakey_bot.Base.{
  ℕ, ◌≤◌, ◌≡◌, refl, String, Bool, true, false, ◌&&◌, ◌||◌, [], ◌∷◌, Option, none, some, any, leb,
  arith,
}
use krakey_bot.Base.Dict.{Dict}
use krakey_bot.Sleep.{Base, World, best_of, find_revive_target}

module _ (world : World) (threshold : ℕ) (community : ℕ) where
  -- An archived base with an index whose similarity is `n` or more.
  abbrev pub is_near : ℕ → String × Base → Bool
  is_near n (kb_id, b) = b.is_archived && (b.has_index && leb n (world.similarity community kb_id))

  -- The similarity of the choice is `n` or more.
  abbrev pub chose_near : ℕ → Option String → Bool
  chose_near n none = false
  chose_near n (some kb_id) = leb n (world.similarity community kb_id)

  best_of-some :
      (n : ℕ) (kbs : Dict String Base) (k : String)
      → chose_near n (best_of world threshold community kbs (some k) (world.similarity community k))
        ≡ (any (is_near n) kbs || leb n (world.similarity community k))
  unfolding best_of
  best_of-some n [] k = ground arith
  best_of-some n ((j, b) ∷ kbs) k = ground (arith, best_of-some n kbs k, best_of-some n kbs j)

  best_of-none :
      (n : ℕ) (kbs : Dict String Base)
      → threshold ≤ n
      → chose_near n (best_of world threshold community kbs none threshold) ≡ any (is_near n) kbs
  unfolding best_of
  best_of-none n [] h = refl
  best_of-none n ((j, b) ∷ kbs) h = ground (arith, best_of-none n kbs, best_of-some n kbs j)

  -- The base that is revived is a nearest one: for a community with a summary, and any similarity from
  -- the threshold on, a base of that similarity or more is chosen exactly when some archived base
  -- with an index has it. So a base of just the threshold's similarity is revived too, and nothing is
  -- revived exactly when every such base is below the threshold.
  pub find_revive_target_lem :
      (n : ℕ) (kbs : Dict String Base)
      → world.has_summary community ≡ true
      → threshold ≤ n
      → chose_near n (find_revive_target world threshold community kbs) ≡ any (is_near n) kbs
  unfolding find_revive_target
  find_revive_target_lem n kbs s h = rw (s, find_revive_target) (best_of-none n kbs h)
