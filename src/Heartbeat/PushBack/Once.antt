-- ===== src/Heartbeat/PushBack/Once.antt =====
-- How often a stimulus is pushed back.
use krakey_bot.Base.{
  ℕ, suc, ◌≡◌, refl, sym, ◌∙◌, false, ◌||◌, List, [], ◌∷◌, ◌++◌, map, if-split, leb, nat_eq, elem,
  elem-append, Distinct, ==_iff, arith,
}
use mathlib.Core.List.{map-append}
use krakey_bot.Base.Dict
use krakey_bot.Base.Dict.{get-put}
use krakey_bot.Stimuli.{Stimulus}
use krakey_bot.Stimuli.Buffer.{Buffer, push}
use krakey_bot.Heartbeat.PushBack.{State, retries_of, push_back, push_back_all}

abbrev pub idents : List Stimulus → List ℕ
idents = map (λ s. s.ident)

abbrev pub all_of : List (List Stimulus) → List Stimulus
all_of [] = []
all_of (l ∷ ls) = l ++ all_of ls

Distinct-snoc : (a : ℕ) (l : List ℕ) → Distinct l → elem a l ≡ false → Distinct (l ++ a ∷ [])
Distinct-snoc a [] d h = (refl, tt)
Distinct-snoc a (b ∷ l) d h = (
  ground (arith, d.0, elem-append b l (a ∷ []), ==_iff a b, ==_iff b a),
  Distinct-snoc a l d.1 (ground arith),
)

-- The counter of a stimulus is set exactly where it was pushed back, which was once.
record IsCounted (t : State) : Type 0 where
  once : Distinct (idents t.again)
  counted : (i : ℕ) → leb 1 (retries_of i t) ≡ elem i (idents t.again)

-- From `t` on, the stimuli of `l` are pushed back too.
record IsAdded (l : List Stimulus) (t u : State) : Type 0 where
  valid : IsCounted u
  added : (i : ℕ) → elem i (idents u.again) ≡ (elem i (idents t.again) || elem i (idents l))

elem-idents-append :
    (i : ℕ) (l m : List Stimulus)
    → elem i (idents (l ++ m)) ≡ (elem i (idents l) || elem i (idents m))
elem-idents-append i [] m = refl
elem-idents-append i (s ∷ l) m = ground (arith, elem-idents-append i l m)

idents-snoc : (l : List Stimulus) (s : Stimulus) → idents (l ++ s ∷ []) ≡ idents l ++ s.ident ∷ []
idents-snoc l s = map-append (λ x. x.ident) l (s ∷ [])

pushed-IsCounted :
    (s : Stimulus) (t : State)
    → IsCounted t
    → leb 1 (retries_of s.ident t) ≡ false
    → IsCounted (record {
      retries = Dict.put s.ident (suc (retries_of s.ident t)) t.retries;
      buffer = push s t.buffer;
      again = t.again ++ s ∷ [];
    })
pushed-IsCounted s t v h = record {
  once =
      rw idents-snoc (Distinct-snoc s.ident (idents t.again) v.once (sym (v.counted s.ident) ∙ h));
  counted = λ i. ground (
    arith,
    v.counted i,
    elem-idents-append i t.again (s ∷ []),
    ==_iff s.ident i,
    get-put s.ident i (suc (retries_of s.ident t)) t.retries,
  );
}

push_back-IsAdded : (l : List Stimulus) (t : State) → IsCounted t → IsAdded l t (push_back l t)
unfolding push_back
push_back-IsAdded [] t v = record { valid = v; added = λ i. ground arith }
push_back-IsAdded (s ∷ l) t v =
    if-split (IsAdded (s ∷ l) t) (leb 1 (retries_of s.ident t)) _ _
      (λ e.
        let r = push_back-IsAdded l t v in
        record {
          valid = r.valid;
          added =
              λ i. ground (arith, e, r.added i, v.counted i, v.counted s.ident, ==_iff s.ident i);
        })
      λ e.
        let r = push_back-IsAdded l _ (pushed-IsCounted s t v e) in
        record {
          valid = r.valid;
          added = λ i. ground (arith, r.added i, elem-idents-append i t.again (s ∷ []));
        }

push_back_all-IsAdded :
    (beats : List (List Stimulus)) (t : State)
    → IsCounted t
    → IsAdded (all_of beats) t (push_back_all beats t)
unfolding push_back_all
push_back_all-IsAdded [] t v = record { valid = v; added = λ i. ground arith }
push_back_all-IsAdded (l ∷ beats) t v =
    let r = push_back-IsAdded l t v in
    let q = push_back_all-IsAdded beats (push_back l t) r.valid in
    record {
      valid = q.valid;
      added = λ i. ground (arith, q.added i, r.added i, elem-idents-append i l (all_of beats));
    }

-- Over any beats of a run that starts with no retries counted: a stimulus is pushed back where one
-- of the beats left it uncovered, and never twice, so an uncovered stimulus cannot come
-- back for ever.
pub push_back_all_lem :
    (beats : List (List Stimulus)) (b : Buffer)
    → let again = (push_back_all beats (record { buffer = b; retries = []; again = [] })).again in
      Distinct (idents again) × ((i : ℕ) → elem i (idents again) ≡ elem i (idents (all_of beats)))
push_back_all_lem beats b =
    let r =
      push_back_all-IsAdded beats (record { buffer = b; retries = []; again = [] })
        (record { once = tt; counted = λ i. refl }) in
    (r.valid.once, r.added)
