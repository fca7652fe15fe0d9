-- ===== src/MemoryGraph/Writer/Nodes.antt =====
-- The first loop of `remember_extraction`: which nodes it counts, and the rows that they have afterwards.
use krakey_bot.Base.{
  ℕ, suc, ◌+◌, ◌≤◌, ◌≡◌, refl, ◌∙◌, String, Bool, true, false, ◌&&◌, ◌||◌, List, [], ◌∷◌, some,
  length, keep, any, if◌then◌else◌, ◌==◌, ==_refl, ==_iff, string_eq, nat_eq, arith, inl, inr,
  Bool-cases,
}
use krakey_bot.Base.Action.{Outcome, returned}
use krakey_bot.Base.Dict.{Dict, put, has, has-put}
use krakey_bot.MemoryGraph.Storage.{Node, Error, Graph, NewNode, is_named, upsert_node}
use krakey_bot.MemoryGraph.Writer.{ExtractedNode, default}
use krakey_bot.MemoryGraph.Writer.Extraction.{Written, write_node, write_nodes}
use krakey_bot.MemoryGraph.Writer.Rows.{
  is_given, is_valid, row_of, row_in, all_stored, all_named, all_rows, Fixed-row_of, Fixed-is_named,
  Stays, upsert_node-Upserts,
}

-- The writing of some nodes, from the dict `m` and the count `k` on.
pub record NodesWritten (ns : List ExtractedNode) (m : Dict String ℕ) (k : ℕ) (g : Graph)
    (r : Outcome Error Written × Graph) : Type 0 where
  pub names : Dict String ℕ
  pub written : ℕ
  pub returns : r.0 ≡ returned (names, written)
  pub at_least : k + length (keep is_valid ns) ≤ written
  pub at_most : written ≤ length (keep is_given ns) + k
  pub same_edges : r.1.edges ≡ g.edges
  pub stays : Stays g.nodes r.1.nodes
  pub named : (name : String) → has name m ≡ true → has name names ≡ true
  pub stored : all_stored r.1.nodes ns ≡ true
  pub all_in : all_named names ns ≡ true
  pub rows : all_rows g.nodes m ≡ true → all_rows r.1.nodes names ≡ true

all_rows-Stays :
    (rows rows' : List Node) (m : Dict String ℕ)
    → Stays rows rows'
    → all_rows rows m ≡ true
    → all_rows rows' m ≡ true
all_rows-Stays rows rows' [] s h = refl
all_rows-Stays rows rows' ((name, id) ∷ m) s h =
    let here = s (row_of id name) (Fixed-row_of id name) (ground arith) in
    rw here (all_rows-Stays rows rows' m s (ground arith))

all_rows-put :
    (rows : List Node) (name : String) (id : ℕ) (m : Dict String ℕ)
    → any (row_of id name) rows ≡ true
    → all_rows rows m ≡ true
    → all_rows rows (put name id m) ≡ true
all_rows-put rows name id [] h a = rw h refl
all_rows-put rows name id ((j, i) ∷ m) h a = elim (Bool-cases (j == name)) [
  | inl e ↦
      let same : j ≡ name = (==_iff j name).0 e in
      let rest : all_rows rows m ≡ true = ground arith in rw (e, same, h) rest
  | inr e ↦
      let first_ok : any (row_of i j) rows ≡ true = ground arith in
      let rest : all_rows rows m ≡ true = ground arith in
      rw (e, first_ok) (all_rows-put rows name id m h rest)
]

all_stored-Stays :
    (rows rows' : List Node) (ns : List ExtractedNode)
    → Stays rows rows'
    → all_stored rows ns ≡ true
    → all_stored rows' ns ≡ true
all_stored-Stays rows rows' [] s h = refl
all_stored-Stays rows rows' (n ∷ ns) s h = elim (Bool-cases (is_valid n)) [
  | inl e ↦
      let was : (any (is_named (default "" n.name) (default "" n.category)) rows
            && all_stored rows ns)
          ≡ true =
        rw e at h in
      let here =
        s (is_named (default "" n.name) (default "" n.category)) (Fixed-is_named _ _)
          (ground arith) in
      rw (e, here) (all_stored-Stays rows rows' ns s (ground arith))
  | inr e ↦ rw e (all_stored-Stays rows rows' ns s (rw e at h))
]

all_named-more :
    (m m' : Dict String ℕ) (ns : List ExtractedNode)
    → ((name : String) → has name m ≡ true → has name m' ≡ true)
    → all_named m ns ≡ true
    → all_named m' ns ≡ true
all_named-more m m' [] s h = refl
all_named-more m m' (n ∷ ns) s h = elim (Bool-cases (is_valid n)) [
  | inl e ↦
      let was : (has (default "" n.name) m && all_named m ns) ≡ true = rw e at h in
      rw (e, s (default "" n.name) (ground arith)) (all_named-more m m' ns s (ground arith))
  | inr e ↦ rw e (all_named-more m m' ns s (rw e at h))
]

-- A node that is passed over, or whose upsert raises, changes nothing of this.
passed_over :
    (n : ExtractedNode) (m : Dict String ℕ) (k : ℕ) (g g' : Graph)
    → is_valid n ≡ false
    → g'.edges ≡ g.edges
    → Stays g.nodes g'.nodes
    → NodesWritten (n ∷ []) m k g (returned (m, k), g')
passed_over n m k g g' h e s = record {
  names = m;
  written = k;
  returns = refl;
  at_least = ground (arith, h);
  at_most = omega arith;
  same_edges = e;
  stays = s;
  named = λ name t. t;
  stored = rw h refl;
  all_in = rw h refl;
  rows = all_rows-Stays g.nodes g'.nodes m s;
}

write_node_lem :
    (n : ExtractedNode) (m : Dict String ℕ) (k : ℕ) (g : Graph)
    → NodesWritten (n ∷ []) m k g (write_node n (m, k) g)
unfolding write_node
write_node_lem n m k g =
    let name = default "" n.name in
    let category = default "" n.category in
    elim (Bool-cases (name == "" || category == "")) [
      | inl h ↦ rw (h, write_node) (passed_over n m k g g (rw h refl) refl (λ P f t. t))
      | inr h ↦
          let up = upsert_node-Upserts node g in
          let g' = (upsert_node node g).1 in
          elim up.ends [
            | inl (x, e, bad) ↦
                rw (h, e, write_node)
                  (passed_over n m k g g' (rw (h, bad) refl) up.same_edges up.stays)
            | inr (id, e, row) ↦
                rw (h, e, write_node)
                  (record {
                    names = put name id m;
                    written = suc k;
                    returns = refl;
                    at_least = omega (arith, few (is_valid n));
                    at_most = rw h (omega arith);
                    same_edges = up.same_edges;
                    stays = up.stays;
                    named = λ j t. has-put name j id m ∙ rw t (or_true (name == j));
                    stored = given (is_valid n) _ (any_second id name category g'.nodes row);
                    all_in = given (is_valid n) _ (has-put name name id m ∙ rw (==_refl name) refl);
                    rows = λ t.
                        all_rows-put g'.nodes name id m (any_first id name category g'.nodes row)
                          (all_rows-Stays g.nodes g'.nodes m up.stays t);
                  })
          ]
    ]
  where
    node : NewNode
    node = record {
      name = default "" n.name;
      category = default "" n.category;
      description = some (default "" n.description);
      importance = 2;
      source_type = default "compact" n.source_type;
      metadata = [];
    }

    or_true : (b : Bool) → (b || true) ≡ true
    or_true true = refl
    or_true false = refl

    few : (b : Bool) → length (if b then n ∷ [] else []) ≤ 1
    few true = omega arith
    few false = omega arith

    given : (b c : Bool) → c ≡ true → ((if b then c else true) && true) ≡ true
    given true c h = rw h refl
    given false c h = refl

    any_first :
        (id : ℕ) (name category : String) (rows : List Node)
        → any (row_in id name category) rows ≡ true
        → any (row_of id name) rows ≡ true
    any_first id name category [] h = absurd (cc)
    any_first id name category (r ∷ rows) h = ground (arith, any_first id name category rows)

    any_second :
        (id : ℕ) (name category : String) (rows : List Node)
        → any (row_in id name category) rows ≡ true
        → any (is_named name category) rows ≡ true
    any_second id name category [] h = absurd (cc)
    any_second id name category (r ∷ rows) h = ground (arith, any_second id name category rows)

keep-cons-length :
    (p : ExtractedNode → Bool) (n : ExtractedNode) (ns : List ExtractedNode)
    → length (keep p (n ∷ ns)) ≡ length (keep p (n ∷ [])) + length (keep p ns)
keep-cons-length p n ns = ground arith

pub write_nodes_lem :
    (ns : List ExtractedNode) (m : Dict String ℕ) (k : ℕ) (g : Graph)
    → NodesWritten ns m k g (write_nodes ns (m, k) g)
unfolding write_nodes
write_nodes_lem [] m k g = record {
  names = m;
  written = k;
  returns = refl;
  at_least = omega arith;
  at_most = omega arith;
  same_edges = refl;
  stays = λ P f t. t;
  named = λ name t. t;
  stored = refl;
  all_in = refl;
  rows = λ t. t;
}
write_nodes_lem (n ∷ ns) m k g =
    let one = write_node_lem n m k g in
    let g' = (write_node n (m, k) g).1 in
    let rest = write_nodes_lem ns one.names one.written g' in
    let stored =
      all_stored-Stays g'.nodes (write_nodes ns (one.names, one.written) g').1.nodes (n ∷ [])
        rest.stays one.stored in
    let named = all_named-more one.names rest.names (n ∷ []) rest.named one.all_in in
    rw (one.returns, write_nodes)
      (record {
        names = rest.names;
        written = rest.written;
        returns = rest.returns;
        at_least = omega (arith, rest.at_least, one.at_least, keep-cons-length is_valid n ns);
        at_most = omega (arith, rest.at_most, one.at_most, keep-cons-length is_given n ns);
        same_edges = rest.same_edges ∙ one.same_edges;
        stays = λ P f t. rest.stays P f (one.stays P f t);
        named = λ name t. rest.named name (one.named name t);
        stored = both _ _ stored rest.stored;
        all_in = both _ _ named rest.all_in;
        rows = λ t. rest.rows (one.rows t);
      })
  where
    both : (a b : Bool) → (a && true) ≡ true → b ≡ true → (a && b) ≡ true
    both true b h k = k
    both false b h k = absurd (cc)
