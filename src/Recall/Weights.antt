-- ===== src/Recall/Weights.antt =====
-- The weights of a session's nodes, over any calls of `add_stimuli`, raising ones included.
use krakey_bot.Base.{
  ℕ, ◌+◌, ◌≡◌, refl, ap, ◌∙◌, String, Bool, true, false, List, [], ◌∷◌, ◌++◌, length, elem,
  length-append, Distinct, inl, inr, Option-cases, if◌then◌else◌, ==_iff, nat_eq, arith,
}
use krakey_bot.Base.Dict
use krakey_bot.Base.Dict.{Dict, get-put, put-Distinct}
use krakey_bot.Base.Action.{Outcome, returned, raised, Outcome-cases, follow, modify, ◌>>◌}
use krakey_bot.Stimuli.{Stimulus}
use krakey_bot.Recall.{
  Node, Entry, Error, World, Settings, Session, new_session, zip, get_or, weight_of, keep_best,
  merge, rerank_or_fallback, screening_top_k, search_all, queries, accumulate, add_stimuli,
}

abbrev pub weight_at : ℕ → Dict ℕ Entry → ℕ
weight_at i m = get_or (Dict.get i m) 0 (λ e. e.weight)

-- The weights of the stimuli, in the list, that hit node `i`.
abbrev pub tally : ℕ → List (Stimulus × List ℕ) → ℕ
tally i [] = 0
tally i ((x, hits) ∷ l) = (if elem i hits then weight_of x else 0) + tally i l

abbrev pub rounds : Session → List (Stimulus × List ℕ)
rounds s = zip s.processed_stimuli s.per_stimulus_ids

pub record IsWeighted (s : Session) : Type 0 where
  pub aligned : length s.processed_stimuli ≡ length s.per_stimulus_ids
  pub weights : (i : ℕ) → weight_at i s.merged ≡ tally i (rounds s)

merge-weight :
    (i w : ℕ) (best : Dict ℕ (Node × ℕ)) (m : Dict ℕ Entry)
    → Distinct (Dict.keys best)
    → weight_at i (merge w best m) ≡ (if elem i (Dict.keys best) then w else 0) + weight_at i m
unfolding merge
merge-weight i w [] m d = omega arith
merge-weight i w ((nid, (node, score)) ∷ best) m d = elim (Option-cases (Dict.get nid m)) [
  | inl e ↦ ground (
    arith,
    e,
    d.0,
    ==_iff nid i,
    get-put nid i (record { node = node; weight = w }) m,
    merge-weight i w best (Dict.put nid (record { node = node; weight = w }) m) d.1,
  )
  | inr (old, e) ↦ ground (
    arith,
    e,
    d.0,
    ==_iff nid i,
    get-put nid i (record old { weight = old.weight + w }) m,
    merge-weight i w best (Dict.put nid (record old { weight = old.weight + w }) m) d.1,
  )
]

tally-append : (i : ℕ) (a b : List (Stimulus × List ℕ)) → tally i (a ++ b) ≡ tally i a + tally i b
tally-append i [] b = omega arith
tally-append i (r ∷ a) b = ground (arith, tally-append i a b)

zip-append :
    (xs : List Stimulus) (ys : List (List ℕ)) (x : Stimulus) (y : List ℕ)
    → length xs ≡ length ys
    → zip (xs ++ x ∷ []) (ys ++ y ∷ []) ≡ zip xs ys ++ (x, y) ∷ []
zip-append [] [] x y h = refl
zip-append [] (b ∷ ys) x y h = absurd (omega arith)
zip-append (a ∷ xs) [] x y h = absurd (omega arith)
zip-append (a ∷ xs) (b ∷ ys) x y h = ap (λ l. (a, b) ∷ l) (zip-append xs ys x y (omega arith))

keep_best-Distinct :
    (ranked : List (Node × ℕ)) (best : Dict ℕ (Node × ℕ))
    → Distinct (Dict.keys best)
    → Distinct (Dict.keys (keep_best ranked best))
unfolding keep_best
keep_best-Distinct [] best d = d
keep_best-Distinct ((node, score) ∷ ranked) best d = keep_best-Distinct ranked _ (better _)
  where
    better :
        (b : Bool)
        → Distinct (Dict.keys (if b then Dict.put node.ident (node, score) best else best))
    better true = put-Distinct node.ident (node, score) best d
    better false = d

accumulate-IsWeighted :
    (x : Stimulus) (best : Dict ℕ (Node × ℕ)) (s : Session)
    → Distinct (Dict.keys best)
    → IsWeighted s
    → IsWeighted (accumulate x best s)
unfolding accumulate
accumulate-IsWeighted x best s d v = record {
  aligned = omega (
    arith,
    v.aligned,
    length-append s.processed_stimuli (x ∷ []),
    length-append s.per_stimulus_ids (Dict.keys best ∷ []),
  );
  weights = λ i.
      rw
        (
          zip-append s.processed_stimuli s.per_stimulus_ids x (Dict.keys best) v.aligned,
          tally-append,
        )
        (omega (arith, merge-weight i (weight_of x) best s.merged d, v.weights i));
}

module _ (world : World) (c : Settings) where
  -- The questions to the world change nothing else.
  record Same (s t : Session) : Type 0 where
    merged : t.merged ≡ s.merged
    processed : t.processed_stimuli ≡ s.processed_stimuli
    hits : t.per_stimulus_ids ≡ s.per_stimulus_ids

  keeps : {s t : Session} → Same s t → IsWeighted s → IsWeighted t
  keeps e v = record {
    aligned = rw (e.processed, e.hits) v.aligned;
    weights = λ i. rw (e.merged, e.processed, e.hits) (v.weights i);
  }

  rerank-Same :
      (q : String) (l : List (Node × ℕ)) (s : Session) → Same s (rerank_or_fallback world c q l s).1
  unfolding rerank_or_fallback
  rerank-Same q [] s = record { merged = refl; processed = refl; hits = refl }
  rerank-Same q (p ∷ l) s = elim (Option-cases world.rerank) [
    | inl e ↦ rw (e, rerank_or_fallback) (record { merged = refl; processed = refl; hits = refl })
    | inr (f, e) ↦
        rw (e, rerank_or_fallback) (record { merged = refl; processed = refl; hits = refl })
  ]

  queries-Same : (x : Stimulus) (s : Session) → Same s (queries world c x s).1
  unfolding queries
  queries-Same x s = elim (Option-cases world.enrich) [
    | inl e ↦ rw (e, queries) (record { merged = refl; processed = refl; hits = refl })
    | inr (f, e) ↦ rw (e, queries) (record { merged = refl; processed = refl; hits = refl })
  ]

  Same-trans : {s t u : Session} → Same s t → Same t u → Same s u
  Same-trans a b = record {
    merged = b.merged ∙ a.merged;
    processed = b.processed ∙ a.processed;
    hits = b.hits ∙ a.hits;
  }

  abbrev HasDistinct : Outcome Error (Dict ℕ (Node × ℕ)) → Type 0
  HasDistinct (returned best) = Distinct (Dict.keys best)
  HasDistinct (raised x) = Unit

  search_all_lem :
      (qs : List String) (best : Dict ℕ (Node × ℕ)) (s : Session)
      → Distinct (Dict.keys best)
      → Same s (search_all world c qs best s).1 × HasDistinct (search_all world c qs best s).0
  unfolding search_all
  search_all_lem [] best s d = (record { merged = refl; processed = refl; hits = refl }, d)
  search_all_lem (q ∷ qs) best s d =
      elim (Outcome-cases (world.search s.asked q (screening_top_k world c))) [
        | inl (x, e) ↦
            rw (e, search_all) (record { merged = refl; processed = refl; hits = refl }, tt)
        | inr (l, e) ↦
            let t = record s { asked = s.asked + 1 } in
            let (ranked, u) = rerank_or_fallback world c q l t in
            let (same, found) =
              search_all_lem qs (keep_best ranked best) u (keep_best-Distinct ranked best d) in
            rw (e, search_all)
              (
                Same-trans
                    (Same-trans (record { merged = refl; processed = refl; hits = refl })
                      (rerank-Same q l t))
                    same,
                found,
              )
      ]

  add_stimuli-IsWeighted :
      (xs : List Stimulus) (s : Session) → IsWeighted s → IsWeighted (add_stimuli world c xs s).1
  unfolding add_stimuli
  add_stimuli-IsWeighted [] s v = v
  add_stimuli-IsWeighted (x ∷ xs) s v =
      let (qs, t) = queries world c x s in
      let (same, found) = search_all_lem qs [] t tt in
      next (search_all world c qs [] t).0 _ (keeps same (keeps (queries-Same x s) v)) found
        λ best u d w.
          add_stimuli-IsWeighted xs (accumulate x best u) (accumulate-IsWeighted x best u d w)
    where
      next :
          (o : Outcome Error (Dict ℕ (Node × ℕ))) (u : Session)
          → IsWeighted u
          → HasDistinct o
          → ((best : Dict ℕ (Node × ℕ)) (w : Session)
              → Distinct (Dict.keys best)
              → IsWeighted w
              → IsWeighted (add_stimuli world c xs (accumulate x best w)).1)
          → IsWeighted (follow o (λ best. modify (accumulate x best) >> add_stimuli world c xs) u).1
      next (raised e) u w d h = w
      next (returned best) u w d h = h best u d w

  -- A session as the heartbeat uses it: batches of stimuli, each of which may end in an error.
  abbrev pub feed : List (List Stimulus) → Session → Session
  feed [] s = s
  feed (xs ∷ batches) s = feed batches (add_stimuli world c xs s).1

  feed-IsWeighted :
      (batches : List (List Stimulus)) (s : Session) → IsWeighted s → IsWeighted (feed batches s)
  feed-IsWeighted [] s v = v
  feed-IsWeighted (xs ∷ batches) s v = feed-IsWeighted batches _ (add_stimuli-IsWeighted xs s v)

  -- After any batches, the world raising where it may: a node's weight is the sum of the weights, 10
  -- for adrenalin and 1 otherwise, of the processed stimuli that hit it, once for each of them
  -- however many of its queries found the node; and every processed stimulus has its hits.
  pub feed-new_session-IsWeighted :
      (batches : List (List Stimulus)) → IsWeighted (feed batches new_session)
  feed-new_session-IsWeighted batches =
      feed-IsWeighted batches new_session (record { aligned = refl; weights = λ i. refl })
