-- ===== src/MemoryGraph/Writer/Ends.antt =====
-- The second loop of `remember_extraction`, for one edge: the nodes that it names, and their joining.
use krakey_bot.Base.{
  ℕ, suc, ◌+◌, ◌≤◌, ◌≡◌, ◌≢◌, refl, ap, subst, ◌∙◌, String, Bool, true, false, not, ◌&&◌, ltb, ◌||◌,
  List, [], ◌∷◌, ◌++◌, Option, none, some, length, keep, any, elem, if◌then◌else◌, ◌==◌, ==_iff,
  string_eq, nat_eq, arith, inl, inr, Bool-cases, Option-cases,
}
use krakey_bot.Base.Action.{Outcome, returned}
use krakey_bot.Base.Dict.{Dict, get}
use krakey_bot.MemoryGraph.{Edge, normalized}
use krakey_bot.MemoryGraph.Joined.{Joined, here, step, Joined-sym}
use krakey_bot.MemoryGraph.Storage.{Node, Error, Graph, ids, first, find_by_name}
use krakey_bot.MemoryGraph.Storage.Reports.{insert_edge-reports}
use krakey_bot.MemoryGraph.Writer.{ExtractedEdge, default, resolve}
use krakey_bot.MemoryGraph.Writer.Extraction.{link}
use krakey_bot.MemoryGraph.Writer.Rows.{all_rows}

abbrev pub pair_of : Option ℕ → Option ℕ → Option (ℕ × ℕ)
pair_of (some s) (some t) = some (s, t)
pair_of (some s) none = none
pair_of none o = none

-- The two nodes that an extracted edge names, where both names are given and known.
abbrev pub ends_of : Dict String ℕ → Graph → ExtractedEdge → Option (ℕ × ℕ)
ends_of names g e =
    if default "" e.source_name == "" || default "" e.target_name == ""
    then none
    else pair_of (resolve names g (default "" e.source_name))
        (resolve names g (default "" e.target_name))

abbrev pub is_between_two : Option (ℕ × ℕ) → Bool
is_between_two none = false
is_between_two (some (s, t)) = not (s == t)

-- The two nodes of each extracted edge are joined.
abbrev pub JoinedEnds : List Edge → Option (ℕ × ℕ) → Type 0
JoinedEnds edges none = Unit
JoinedEnds edges (some (s, t)) = Joined edges s t

abbrev pub AllJoined : Dict String ℕ → Graph → List ExtractedEdge → Type 0
AllJoined names g [] = Unit
AllJoined names g (e ∷ es) = JoinedEnds g.edges (ends_of names g e) × AllJoined names g es

abbrev pub count_between : Dict String ℕ → Graph → List ExtractedEdge → ℕ
count_between names g es = length (keep (λ e. is_between_two (ends_of names g e)) es)

-- The names are read off the rows alone.
resolve-same :
    (names : Dict String ℕ) (g g' : Graph) (name : String)
    → g'.nodes ≡ g.nodes
    → resolve names g' name ≡ resolve names g name
unfolding resolve find_by_name
resolve-same names g g' name e = elim (Option-cases (get name names)) [
  | inl h ↦
      rw (h, resolve)
        (ap
          (λ (ns : List Node). elim (first (λ n. n.name == name) ns) [
            | none ↦ none
            | some n ↦ some n.id
          ])
          e)
  | inr (id, h) ↦ rw (h, resolve) refl
]

pub ends_of-same :
    (names : Dict String ℕ) (g g' : Graph) (e : ExtractedEdge)
    → g'.nodes ≡ g.nodes
    → ends_of names g' e ≡ ends_of names g e
ends_of-same names g g' e h =
    elim (Bool-cases (default "" e.source_name == "" || default "" e.target_name == "")) [
      | inl i ↦ rw i refl
      | inr i ↦ rw i (
          ap (λ o. pair_of o (resolve names g' (default "" e.target_name)))
            (resolve-same names g g' (default "" e.source_name) h)
          ∙ ap (pair_of (resolve names g (default "" e.source_name)))
              (resolve-same names g g' (default "" e.target_name) h))
    ]

-- A name that is known stands for a row.
first-elem :
    (p : Node → Bool) (ns : List Node) (row : Node)
    → first p ns ≡ some row
    → elem row.id (ids ns) ≡ true
first-elem p [] row h = absurd (cc)
first-elem p (n ∷ ns) row h = elim (Bool-cases (p n)) [
  | inl e ↦
      let found : ◌≡◌ {A = Option Node} (some n) (some row) = rw e at h in
      let same : n ≡ row = cc in
      let here : (n.id == row.id) ≡ true = (==_iff n.id row.id).1 (ap (λ r. r.id) same) in
      ground (arith, here)
  | inr e ↦ let later = first-elem p ns row (rw e at h) in ground (arith, later)
]

any-ids :
    (id : ℕ) (name : String) (ns : List Node)
    → any (λ r. r.id == id && r.name == name) ns ≡ true
    → elem id (ids ns) ≡ true
any-ids id name [] h = absurd (cc)
any-ids id name (n ∷ ns) h = ground (arith, any-ids id name ns)

all_rows-get :
    (rows : List Node) (names : Dict String ℕ) (name : String) (id : ℕ)
    → all_rows rows names ≡ true
    → get name names ≡ some id
    → elem id (ids rows) ≡ true
all_rows-get rows [] name id h e = absurd (cc)
all_rows-get rows ((j, i) ∷ names) name id h e = elim (Bool-cases (j == name)) [
  | inl k ↦
      let found : ◌≡◌ {A = Option ℕ} (some i) (some id) = rw k at e in
      let same : i ≡ id = cc in
      subst (λ n. elem n (ids rows) ≡ true) same (any-ids i j rows (ground arith))
  | inr k ↦ all_rows-get rows names name id (ground arith) (rw k at e)
]

pub resolve-elem :
    (names : Dict String ℕ) (g : Graph) (name : String) (id : ℕ)
    → all_rows g.nodes names ≡ true
    → resolve names g name ≡ some id
    → elem id (ids g.nodes) ≡ true
unfolding resolve find_by_name
resolve-elem names g name id h e = elim (Option-cases (get name names)) [
  | inr (i, k) ↦
      let found : ◌≡◌ {A = Option ℕ} (some i) (some id) = rw (k, resolve) at e in
      let same : i ≡ id = cc in all_rows-get g.nodes names name id h (k ∙ ap some same)
  | inl k ↦ elim (Option-cases (first (λ n. n.name == name) g.nodes)) [
    | inl f ↦ absurd (cc (rw (k, resolve, f, find_by_name) at e))
    | inr (row, f) ↦
        let found : ◌≡◌ {A = Option ℕ} (some row.id) (some id) =
          rw (k, resolve, f, find_by_name) at e in
        let same : row.id ≡ id = cc in
        subst (λ n. elem n (ids g.nodes) ≡ true) same
          (first-elem (λ n. n.name == name) g.nodes row f)
  ]
]

-- The writing of an edge between two rows.
pub record Linked (s t k : ℕ) (g : Graph) (r : Outcome Error ℕ × Graph) : Type 0 where
  pub returns : r.0 ≡ returned (if s == t then k else suc k)
  pub same_nodes : r.1.nodes ≡ g.nodes
  pub new : List Edge
  pub grown : r.1.edges ≡ new ++ g.edges
  pub few : length new + k ≤ (if s == t then k else suc k)
  pub joined : Joined r.1.edges s t

normalized-Joined : (s t : ℕ) (p : String) (es : List Edge) → Joined (normalized s t p ∷ es) s t
normalized-Joined s t p es = elim (Bool-cases (ltb s t)) [
  | inl h ↦ rw h (step (inl (inr (refl, refl))) here)
  | inr h ↦ rw h (step (inl (inl (refl, refl))) here)
]

pub link_lem :
    (s t : ℕ) (p : String) (k : ℕ) (g : Graph)
    → elem s (ids g.nodes) ≡ true
    → elem t (ids g.nodes) ≡ true
    → Linked s t k g (link (some s) (some t) p k g)
unfolding link
link_lem s t p k g hs ht = elim (Bool-cases (s == t)) [
  | inl h ↦
      rw (h, link)
        (record {
          returns = rw h refl;
          same_nodes = refl;
          new = [];
          grown = refl;
          few = rw h (omega arith);
          joined = subst (Joined g.edges s) ((==_iff s t).0 h) here;
        })
  | inr h ↦ elim (insert_edge-reports g s t p (apart h)) [
    | inl (j, e) ↦
        rw (h, link, e)
          (record {
            returns = rw h refl;
            same_nodes = refl;
            new = [];
            grown = refl;
            few = rw h (omega arith);
            joined = Joined-sym j;
          })
    | inr (inl (free, there, e)) ↦
        rw (h, link, e)
          (record {
            returns = rw h refl;
            same_nodes = refl;
            new = normalized s t p ∷ [];
            grown = refl;
            few = rw h (omega arith);
            joined = normalized-Joined s t p g.edges;
          })
    | inr (inr (free, missing, e)) ↦ absurd (cc (hs, ht, missing))
  ]
]
  where
    apart : (s == t) ≡ false → s ≢ t
    apart h e = absurd (cc ((==_iff s t).1 e, h))
