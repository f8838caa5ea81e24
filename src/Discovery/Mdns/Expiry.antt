-- ===== src/Discovery/Mdns/Expiry.antt =====
-- How long the poll loop of pkg/discovery/mdns_resolver.go keeps a node that no longer answers.
use lumen_sdk.Base.{
  ℕ, ◌+◌, ◌≤◌, ◌<◌, ◌≡◌, ◌⊎◌, inl, inr, refl, sym, ap, ◌∙◌, subst, Bool, true, false, not, ◌&&◌,
  ◌||◌, List, [], ◌∷◌, ◌++◌, Option, none, some, leb, ltb, arith, if◌then◌else◌, Bool-cases, length,
  All,
}
use lumen_sdk.Base.Dict.{lookup, lookup-insert}
use lumen_sdk.Base.Text.{Text, text_eq, text_eq_iff, text_eq_refl}
use lumen_sdk.Base.Unique.{is_some}
use lumen_sdk.Discovery.Identity.{ResolvedNode, is_zero, key}
use lumen_sdk.Discovery.Mdns.{
  KnownNode, Known, Query, miss_threshold, keyed_answer, answer, answers, run_query, poll, polls,
}
use lumen_sdk.Discovery.Mdns.Sweep.{IsMap, swept_node, insert-IsMap, lookup-sweep, sweep-IsMap}

-- The poll finds the node.
abbrev pub finds : Text → List ResolvedNode → Bool
finds k [] = false
finds k (r ∷ rs) = (not (is_zero r.identity) && text_eq (key r.identity) k) || finds k rs

-- A query before and after answers, of which one is the node if `hit` holds.
record AfterAnswers (k : Text) (hit : Bool) (q r : Query) : Type 0 where
  seen : is_some (lookup k r.seen) ≡ (is_some (lookup k q.seen) || hit)
  there : is_some (lookup k r.known) ≡ (is_some (lookup k q.known) || hit)
  left : hit ≡ false → lookup k r.known ≡ lookup k q.known
  unique : IsMap q.known → IsMap r.known

keyed_answer_lem :
    (k : Text) (no_id : Bool) (j : Text) (r : ResolvedNode) (q : Query)
    → AfterAnswers k (not no_id && text_eq j k) q (keyed_answer no_id j r q)
unfolding keyed_answer
keyed_answer_lem k true j r q = record {
  seen = ground arith;
  there = ground arith;
  left = λ h. refl;
  unique = λ m. m;
}
keyed_answer_lem k false j r q = record {
  seen = ground (arith, lookup-insert j k tt q.seen);
  there = ground (arith, lookup-insert j k fresh q.known);
  left = λ h. lookup-insert j k fresh q.known ∙ rw h refl;
  unique = insert-IsMap j fresh q.known;
}
  where
    fresh : KnownNode
    fresh = record { resolved = r; misses = 0 }

answer_lem :
    (k : Text) (r : ResolvedNode) (q : Query)
    → AfterAnswers k (not (is_zero r.identity) && text_eq (key r.identity) k) q (answer r q)
unfolding answer
answer_lem k r q = keyed_answer_lem k (is_zero r.identity) (key r.identity) r q

or_parts : (a b : Bool) → (a || b) ≡ false → (a ≡ false) × (b ≡ false)
or_parts a b e = ground (arith, e)

AfterAnswers-trans :
    (k : Text) (a b : Bool) (q r s : Query)
    → AfterAnswers k a q r
    → AfterAnswers k b r s
    → AfterAnswers k (a || b) q s
AfterAnswers-trans k a b q r s x y = record {
  seen = ground (arith, x.seen, y.seen);
  there = ground (arith, x.there, y.there);
  left = λ h. let (first, later) = or_parts a b h in y.left later ∙ x.left first;
  unique = λ m. y.unique (x.unique m);
}

answers_lem :
    (k : Text) (found : List ResolvedNode) (q : Query)
    → AfterAnswers k (finds k found) q (answers found q)
unfolding answers
answers_lem k [] q = record {
  seen = ground arith;
  there = ground arith;
  left = λ h. refl;
  unique = λ m. m;
}
answers_lem k (r ∷ rs) q =
    AfterAnswers-trans k (not (is_zero r.identity) && text_eq (key r.identity) k) (finds k rs) q
      (answer r q) (answers rs (answer r q)) (answer_lem k r q) (answers_lem k rs (answer r q))

poll-IsMap :
    (found : List ResolvedNode) (known : Known) → IsMap known → IsMap (poll found known).known
unfolding poll run_query
poll-IsMap found known m =
    let q : Query = record { known = known; seen = []; events = [] } in
    sweep-IsMap (answers found q).seen (answers found q).known
      ((answers_lem (lumen_sdk.Base.Text.codes "") found q).unique m)

lookup-poll :
    (found : List ResolvedNode) (known : Known) (k : Text)
    → IsMap known
    → finds k found ≡ false
    → lookup k (poll found known).known ≡ swept_node false (lookup k known)
unfolding poll run_query
lookup-poll found known k m h =
    let q : Query = record { known = known; seen = []; events = [] } in
    let after = answers_lem k found q in
    lookup-sweep (answers found q).seen (answers found q).known k (after.unique m)
    ∙ rw (after.seen, h, after.left h) (unfold lookup in refl)

found-poll :
    (found : List ResolvedNode) (known : Known) (k : Text)
    → IsMap known
    → finds k found ≡ true
    → (kn : KnownNode) × (lookup k (poll found known).known ≡ some kn) × (kn.misses ≡ 0)
unfolding poll run_query
found-poll found known k m h =
    let q : Query = record { known = known; seen = []; events = [] } in
    let after = answers_lem k found q in
    reset (lookup k (answers found q).known)
      (after.there ∙ ap (λ b. is_some (lookup k known) || b) h ∙ or_true (is_some (lookup k known)))
      (lookup-sweep (answers found q).seen (answers found q).known k (after.unique m)
        ∙ ap (λ b. swept_node b (lookup k (answers found q).known))
            (after.seen
              ∙ ap (λ b. is_some (lookup {V = Unit {0}} k []) || b) h
              ∙ or_true (is_some (lookup {V = Unit {0}} k []))))
  where
    or_true : (b : Bool) → (b || true) ≡ true
    or_true b = ground arith

    reset :
        (o : Option KnownNode) {p : Option KnownNode}
        → is_some o ≡ true
        → p ≡ swept_node true o
        → (kn : KnownNode) × (p ≡ some kn) × (kn.misses ≡ 0)
    reset none e f = cc
    reset (some kn) e f = (record kn { misses = 0 }, f, refl)

-- No poll finds the node.
abbrev pub Misses : Text → List (List ResolvedNode) → Type 0
Misses k later = All (λ found. finds k found ≡ false) later

polls-none :
    (later : List (List ResolvedNode)) (known : Known) (k : Text)
    → IsMap known
    → Misses k later
    → lookup k known ≡ none
    → lookup k (polls later known) ≡ none
unfolding polls
polls-none [] known k m h e = e
polls-none (found ∷ later) known k m (h, hs) e =
    polls-none later (poll found known).known k (poll-IsMap found known m) hs
      (lookup-poll found known k m h ∙ ap (swept_node false) e)

polls-misses :
    (later : List (List ResolvedNode)) (known : Known) (k : Text) (kn : KnownNode)
    → IsMap known
    → Misses k later
    → lookup k known ≡ some kn
    → kn.misses < miss_threshold
    → is_some (lookup k (polls later known)) ≡ ltb (kn.misses + length later) miss_threshold
unfolding polls
polls-misses [] known k kn m h e low = rw e (ground arith)
polls-misses (found ∷ later) known k kn m (h, hs) e low =
    elim (Bool-cases (leb miss_threshold (kn.misses + 1))) [
      | inl out ↦
          ap is_some (
            polls-none later (poll found known).known k (poll-IsMap found known m) hs
              (next ∙ rw out refl))
          ∙ ground (arith, out)
      | inr still ↦
          polls-misses later (poll found known).known k (record kn { misses = kn.misses + 1 })
            (poll-IsMap found known m) hs (next ∙ rw still refl) (ground (arith, still))
          ∙ ap (λ n. ltb n miss_threshold) (omega arith)
    ]
  where
    next : lookup k (poll found known).known ≡ swept_node false (some kn)
    next = lookup-poll found known k m h ∙ ap (swept_node false) e

-- A node that a poll finds is known after `n` further polls that do not find it exactly if `n` is less than
-- the threshold, whatever was known before.
pub polls-found :
    (found : List ResolvedNode) (later : List (List ResolvedNode)) (known : Known) (k : Text)
    → IsMap known
    → finds k found ≡ true
    → Misses k later
    → is_some (lookup k (polls (found ∷ later) known)) ≡ ltb (length later) miss_threshold
unfolding polls
polls-found found later known k m h hs =
    let (kn, there, no_misses) = found-poll found known k m h in
    polls-misses later (poll found known).known k kn (poll-IsMap found known m) hs there
      (omega (arith, no_misses))
    ∙ ap (λ n. ltb (n + length later) miss_threshold) no_misses
    ∙ ap (λ n. ltb n miss_threshold) (omega arith)
