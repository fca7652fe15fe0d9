-- ===== src/MemoryGraph/Writer/Counts.antt =====
-- What `remember_extraction` counts and stores.
use krakey_bot.Base.{
  ℕ, suc, ◌+◌, ◌≤◌, ◌≡◌, refl, sym, ap, subst, ◌∙◌, String, Bool, true, false, not, ◌||◌, List, [],
  ◌∷◌, ◌++◌, length-append, Option, none, some, length, keep, if◌then◌else◌, ◌==◌, string_eq,
  nat_eq, arith, inl, inr, Bool-cases, Option-cases,
}
use mathlib.Core.List.{append_assoc}
use krakey_bot.Base.Action.{Outcome, returned}
use krakey_bot.Base.Dict.{Dict}
use krakey_bot.MemoryGraph.{Edge}
use krakey_bot.MemoryGraph.Joined.{Adjacent, Joined-weaken}
use krakey_bot.MemoryGraph.Storage.{Error, Graph}
use krakey_bot.MemoryGraph.Writer.{ExtractedNode, ExtractedEdge, default, resolve}
use krakey_bot.MemoryGraph.Writer.Extraction.{
  write_nodes, link, write_edge, write_edges, remember_extraction,
}
use krakey_bot.MemoryGraph.Writer.Rows.{is_given, is_valid, all_stored, all_named, all_rows}
use krakey_bot.MemoryGraph.Writer.Nodes.{write_nodes_lem}
use krakey_bot.MemoryGraph.Writer.Ends.{
  ends_of, JoinedEnds, AllJoined, count_between, ends_of-same, resolve-elem, Linked, link_lem,
}

Adjacent-more : (new es : List Edge) (x y : ℕ) → Adjacent es x y → Adjacent (new ++ es) x y
Adjacent-more [] es x y a = a
Adjacent-more (e ∷ new) es x y a = inr (Adjacent-more new es x y a)

JoinedEnds-more :
    (new es : List Edge) (o : Option (ℕ × ℕ)) → JoinedEnds es o → JoinedEnds (new ++ es) o
JoinedEnds-more new es none j = tt
JoinedEnds-more new es (some (s, t)) j = Joined-weaken (Adjacent-more new es) j

count_between-same :
    (names : Dict String ℕ) (g g' : Graph) (es : List ExtractedEdge)
    → g'.nodes ≡ g.nodes
    → count_between names g' es ≡ count_between names g es
count_between-same names g g' [] h = refl
count_between-same names g g' (e ∷ es) h =
    ground (arith, ends_of-same names g g' e h, count_between-same names g g' es h)

-- The writing of some edges.
record EdgesWritten (names : Dict String ℕ) (es : List ExtractedEdge) (k : ℕ) (g : Graph)
    (r : Outcome Error ℕ × Graph) : Type 0 where
  written : ℕ
  returns : r.0 ≡ returned written
  counted : written ≡ count_between names g es + k
  same_nodes : r.1.nodes ≡ g.nodes
  new : List Edge
  grown : r.1.edges ≡ new ++ g.edges
  few : length new ≤ count_between names g es
  joined : AllJoined names r.1 es

module _ (names : Dict String ℕ) where
  no_ends :
      (e : ExtractedEdge) (k : ℕ) (g : Graph)
      → ends_of names g e ≡ none
      → EdgesWritten names (e ∷ []) k g (returned k, g)
  no_ends e k g h = record {
    written = k;
    returns = refl;
    counted = rw h (omega arith);
    same_nodes = refl;
    new = [];
    grown = refl;
    few = omega arith;
    joined = (rw h tt, tt);
  }

  two_ends :
      (e : ExtractedEdge) (s t k : ℕ) (g : Graph) (r : Outcome Error ℕ × Graph)
      → ends_of names g e ≡ some (s, t)
      → Linked s t k g r
      → EdgesWritten names (e ∷ []) k g r
  two_ends e s t k g r h l = record {
    written = if s == t then k else suc k;
    returns = l.returns;
    counted = rw h (one (s == t));
    same_nodes = l.same_nodes;
    new = l.new;
    grown = l.grown;
    few = rw h (at_most (s == t) l.few);
    joined = (
      subst (JoinedEnds r.1.edges) (sym (ends_of-same names g r.1 e l.same_nodes ∙ h)) l.joined,
      tt,
    );
  }
    where
      one : (b : Bool) → (if b then k else suc k) ≡ length (if not b then e ∷ [] else []) + k
      one true = omega arith
      one false = omega arith

      at_most :
          (b : Bool)
          → length l.new + k ≤ (if b then k else suc k)
          → length l.new ≤ length (if not b then e ∷ [] else [])
      at_most true h = omega arith
      at_most false h = omega arith

  write_edge_lem :
      (e : ExtractedEdge) (k : ℕ) (g : Graph)
      → all_rows g.nodes names ≡ true
      → EdgesWritten names (e ∷ []) k g (write_edge names e k g)
  unfolding write_edge link
  write_edge_lem e k g h =
      let source = default "" e.source_name in
      let target = default "" e.target_name in
      elim (Bool-cases (source == "" || target == "")) [
        | inl i ↦ rw (i, write_edge) (no_ends e k g (rw i refl))
        | inr i ↦ elim (Option-cases (resolve names g source)) [
          | inl a ↦ rw (i, a, write_edge, link) (no_ends e k g (rw (i, a) refl))
          | inr (s, a) ↦ elim (Option-cases (resolve names g target)) [
            | inl b ↦ rw (i, a, b, write_edge, link) (no_ends e k g (rw (i, a, b) refl))
            | inr (t, b) ↦
                rw (i, a, b, write_edge)
                  (two_ends e s t k g _ (rw (i, a, b) refl) (
                    link_lem s t (default "" e.predicate) k g (resolve-elem names g source s h a)
                      (resolve-elem names g target t h b)))
          ]
        ]
      ]

  write_edges_lem :
      (es : List ExtractedEdge) (k : ℕ) (g : Graph)
      → all_rows g.nodes names ≡ true
      → EdgesWritten names es k g (write_edges names es k g)
  unfolding write_edges
  write_edges_lem [] k g h = record {
    written = k;
    returns = refl;
    counted = omega arith;
    same_nodes = refl;
    new = [];
    grown = refl;
    few = omega arith;
    joined = tt;
  }
  write_edges_lem (e ∷ es) k g h =
      let one = write_edge_lem e k g h in
      let g1 = (write_edge names e k g).1 in
      let rest =
        write_edges_lem es one.written g1 (ap (λ ns. all_rows ns names) one.same_nodes ∙ h) in
      let g2 = (write_edges names es one.written g1).1 in
      let later = count_between-same names g g1 es one.same_nodes in
      let all = count-cons e es g in
      rw (one.returns, write_edges)
        (record {
          written = rest.written;
          returns = rest.returns;
          counted = omega (arith, rest.counted, one.counted, later, all);
          same_nodes = rest.same_nodes ∙ one.same_nodes;
          new = rest.new ++ one.new;
          grown =
              rest.grown
              ∙ ap (λ l. rest.new ++ l) one.grown
              ∙ sym (append_assoc rest.new one.new g.edges);
          few = omega (arith, length-append rest.new one.new, rest.few, one.few, later, all);
          joined = (
            subst (λ l. JoinedEnds l (ends_of names g2 e)) (sym rest.grown)
                (JoinedEnds-more rest.new g1.edges (ends_of names g2 e) (
                  subst (JoinedEnds g1.edges) (sym (ends_of-same names g1 g2 e rest.same_nodes))
                    one.joined.0)),
            rest.joined,
          );
        })
    where
      count-cons :
          (e : ExtractedEdge) (es : List ExtractedEdge) (g : Graph)
          → count_between names g (e ∷ es)
            ≡ count_between names g (e ∷ []) + count_between names g es
      count-cons e es g = ground arith

-- What an extraction leaves: `names` has the name of each valid node, and stands for rows of these names;
-- other names are looked up in the rows.
pub record Extracted (ns : List ExtractedNode) (es : List ExtractedEdge) (g g' : Graph)
    (nodes_written edges_written : ℕ) : Type 0 where
  pub names : Dict String ℕ
  pub all_in : all_named names ns ≡ true
  pub rows : all_rows g'.nodes names ≡ true
  pub stored : all_stored g'.nodes ns ≡ true
  pub valid_counted : length (keep is_valid ns) ≤ nodes_written
  pub given_counted : nodes_written ≤ length (keep is_given ns)
  pub edges_counted : edges_written ≡ count_between names g' es
  pub joined : AllJoined names g' es
  pub new : List Edge
  pub kept : g'.edges ≡ new ++ g.edges
  pub few : length new ≤ edges_written

-- `remember_extraction` returns for every extraction and every graph, whatever is missing or unknown in
-- the dicts. Each dict with a name and a category that the table takes has a row with these afterwards;
-- at least these are counted as nodes, and at most the dicts with a name and a category. An edge's
-- dict is counted exactly where its two names stand for two different nodes, by a dict of names in
-- which the names just written are, and in which each name stands for a row of that name, or else
-- by the rows; the two nodes are joined by the edges afterwards, in one step or in many. All
-- edges of before are kept, in their order, behind the new ones, which are at most those that
-- are counted.
pub remember_extraction-returns :
    (ns : List ExtractedNode) (es : List ExtractedEdge) (g : Graph)
    → (nodes_written : ℕ) × (edges_written : ℕ) × ((remember_extraction ns es g).0
        ≡ returned (nodes_written, edges_written))
      × Extracted ns es g (remember_extraction ns es g).1 nodes_written edges_written
unfolding remember_extraction
remember_extraction-returns ns es g =
    let first = write_nodes_lem ns [] 0 g in
    let g1 = (write_nodes ns ([], 0) g).1 in
    let next = write_edges_lem first.names es 0 g1 (first.rows refl) in
    let g2 = (write_edges first.names es 0 g1).1 in
    (
      first.written,
      next.written,
      rw (first.returns, next.returns, remember_extraction) refl,
      rw (first.returns, next.returns, remember_extraction)
          (record {
            names = first.names;
            all_in = first.all_in;
            rows = ap (λ l. all_rows l first.names) next.same_nodes ∙ first.rows refl;
            stored = ap (λ l. all_stored l ns) next.same_nodes ∙ first.stored;
            valid_counted = omega (arith, first.at_least);
            given_counted = omega (arith, first.at_most);
            edges_counted =
                omega
                  (arith, next.counted, count_between-same first.names g1 g2 es next.same_nodes);
            joined = next.joined;
            new = next.new;
            kept = next.grown ∙ ap (λ l. next.new ++ l) first.same_edges;
            few = omega (arith, next.few, next.counted);
          }),
    )
