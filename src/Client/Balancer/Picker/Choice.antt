-- ===== src/Client/Balancer/Picker/Choice.antt =====
-- What Pick chooses, and when it refuses.
use lumen_sdk.Base.{
  ℕ, ◌%◌, ◌^◌, ◌≤◌, ◌≡◌, ◌⊎◌, inl, inr, refl, subst, zero, suc, Bool, true, false, List, [], ◌∷◌,
  Option, none, some, arith, leb, ◌==◌, ◌-◌, length, get_elem?, Bool-cases, Option-cases,
}
use lumen_sdk.Base.Text.{Text}
use lumen_sdk.Client.Balancer.State.{SubConnState, Picker, int64_max}
use lumen_sdk.Client.Balancer.Picker.{
  picked, pick, pick_from, or_probes, choose, refuse, advance, filter_by_task,
  node_supports_task_slice, is_cooling, lacks_task, at_index,
}

-- The pointer stands in the list.
abbrev pub IsIn : ℕ → List ℕ → Type 0
IsIn p [] = ⊥
IsIn p (q ∷ qs) = (p ≡ q) ⊎ IsIn p qs

-- The node offers the task, or none is asked for.
abbrev pub Serves : SubConnState → Text → Type 0
Serves scs task = (task ≡ []) ⊎ (node_supports_task_slice scs.tasks task ≡ true)

-- No cooldown runs at the time, or a cooldown has run out.
abbrev pub IsRested : SubConnState → ℕ → Type 0
IsRested scs now =
    (scs.cooldown_until ≡ none) ⊎ ((t : ℕ) × (scs.cooldown_until ≡ some t) × (t ≤ now))

-- A cooldown has run out.
abbrev pub IsProbed : SubConnState → ℕ → Type 0
IsProbed scs now = (t : ℕ) × (scs.cooldown_until ≡ some t) × (t ≤ now)

filter_sound :
    (store : ℕ → SubConnState) (ps : List ℕ) (task : Text) (expired : Bool) (now q : ℕ)
    → IsIn q (filter_by_task store ps task expired now)
    → IsIn q ps × (lacks_task (store q) task ≡ false) × (is_cooling expired now (store q) ≡ false)
unfolding filter_by_task
filter_sound store [] task expired now q h = absurd h
filter_sound store (p ∷ ps) task expired now q h =
    let later = filter_sound store ps task expired now q in
    elim (Bool-cases (lacks_task (store p) task)) [
      | inl lacks ↦ let (i, a, b) = later (rw (lacks, filter_by_task) at h) in (inr i, a, b)
      | inr offers ↦ elim (Bool-cases (is_cooling expired now (store p))) [
        | inl cools ↦ let (i, a, b) = later (rw (offers, cools) at h) in (inr i, a, b)
        | inr rests ↦
            let h' : IsIn q (p ∷ filter_by_task store ps task expired now) =
              rw (offers, rests) at h in
            elim h' [
              | inl same ↦ (inl same, rw same offers, rw same rests)
              | inr i ↦ let (i, a, b) = later i in (inr i, a, b)
            ]
      ]
    ]

filter_complete :
    (store : ℕ → SubConnState) (ps : List ℕ) (task : Text) (expired : Bool) (now q : ℕ)
    → IsIn q ps
    → lacks_task (store q) task ≡ false
    → is_cooling expired now (store q) ≡ false
    → IsIn q (filter_by_task store ps task expired now)
unfolding filter_by_task
filter_complete store [] task expired now q h a b = absurd h
filter_complete store (p ∷ ps) task expired now q (inl e) a b =
    let offers = subst (λ x. lacks_task (store x) task ≡ false) e a in
    let rests = subst (λ x. is_cooling expired now (store x) ≡ false) e b in
    rw (offers, rests) (inl e)
filter_complete store (p ∷ ps) task expired now q (inr i) a b =
    let later = filter_complete store ps task expired now q i a b in
    elim (Bool-cases (lacks_task (store p) task)) [
      | inl lacks ↦ rw lacks later
      | inr offers ↦ elim (Bool-cases (is_cooling expired now (store p))) [
        | inl cools ↦ rw (offers, cools) later
        | inr rests ↦ rw (offers, rests) (inr later)
      ]
    ]

lacks_task-false :
    (scs : SubConnState) (task : Text) → lacks_task scs task ≡ false → Serves scs task
lacks_task-false scs [] e = inl refl
lacks_task-false scs (c ∷ task) e = ground arith

is_cooling-false :
    (scs : SubConnState) (now : ℕ) → is_cooling false now scs ≡ false → IsRested scs now
is_cooling-false scs now e = elim (Option-cases scs.cooldown_until) [
  | inl u ↦ inl u
  | inr (t, u) ↦ inr (t, u, ground arith)
]

is_cooling_expired :
    (scs : SubConnState) (now : ℕ) → is_cooling true now scs ≡ false → IsProbed scs now
is_cooling_expired scs now e = elim (Option-cases scs.cooldown_until) [
  | inl u ↦ absurd (ground arith)
  | inr (t, u) ↦ (t, u, ground arith)
]

lacks_task_of_Serves :
    (scs : SubConnState) (task : Text) → Serves scs task → lacks_task scs task ≡ false
lacks_task_of_Serves scs task (inl e) = rw e
lacks_task_of_Serves scs task (inr e) = ground arith

is_cooling_of_IsRested :
    (scs : SubConnState) (now : ℕ) → IsRested scs now → is_cooling false now scs ≡ false
is_cooling_of_IsRested scs now (inl e) = ground arith
is_cooling_of_IsRested scs now (inr (t, e, h)) = ground arith

get_elem?-IsIn : (cs : List ℕ) (i : ℕ) {q : ℕ} → get_elem? cs i ≡ some q → IsIn q cs
get_elem?-IsIn [] i e = cc
get_elem?-IsIn (c ∷ cs) zero e = inl (ground arith)
get_elem?-IsIn (c ∷ cs) (suc i) e = inr (get_elem?-IsIn cs i e)

at_index-eq-picked : (o : Option ℕ) {q : ℕ} → at_index o ≡ picked q → o ≡ some q
at_index-eq-picked none e = cc
at_index-eq-picked (some x) e = ground arith

choose_sound : (cs : List ℕ) (idx : ℕ) {q : ℕ} → choose cs idx ≡ picked q → IsIn q cs
unfolding choose
choose_sound cs idx e = elim (Bool-cases (leb idx int64_max)) [
  | inl fits ↦ get_elem?-IsIn cs (idx % length cs) (at_index-eq-picked _ (rw fits at e))
  | inr wrapped ↦ elim (Bool-cases ((2 ^ 64 - idx) % length cs == 0)) [
    | inl whole ↦ get_elem?-IsIn cs 0 (at_index-eq-picked _ (rw (wrapped, whole) at e))
    | inr part ↦ absurd (ground arith)
  ]
]

pick_from_sound :
    (store : ℕ → SubConnState) (p : Picker) (task : Text) (cs : List ℕ) {q : ℕ}
    → (pick_from store p task cs).1 ≡ picked q
    → IsIn q cs
unfolding refuse
pick_from_sound store p task [] e = ground arith
pick_from_sound store p task (c ∷ cs) e = choose_sound (c ∷ cs) (advance p) e

-- A picked node serves the task, and is a ready one with no cooldown running; or none of those offers
-- the task, and it is a probe whose cooldown has run out.
pub pick_sound :
    (store : ℕ → SubConnState) (p : Picker) (task : Text) (now q : ℕ)
    → (pick store p task now).1 ≡ picked q
    → Serves (store q) task
      × ((IsIn q p.ready × IsRested (store q) now)
          ⊎ (IsIn q p.probes
              × IsProbed (store q) now
              × ((r : ℕ) → IsIn r p.ready → Serves (store r) task → ¬ IsRested (store r) now)))
unfolding pick
pick_sound store p task now q e =
    go (filter_by_task store p.ready task false now) refl (pick_from_sound store p task _ e)
  where
    go :
        (fs : List ℕ)
        → filter_by_task store p.ready task false now ≡ fs
        → IsIn q (or_probes fs (filter_by_task store p.probes task true now))
        → Serves (store q) task
          × ((IsIn q p.ready × IsRested (store q) now)
              ⊎ (IsIn q p.probes
                  × IsProbed (store q) now
                  × ((r : ℕ) → IsIn r p.ready → Serves (store r) task → ¬ IsRested (store r) now)))
    go [] none_ready i =
        let (there, offers, rests) = filter_sound store p.probes task true now q i in
        (
          lacks_task-false (store q) task offers,
          inr (
            there,
            is_cooling_expired (store q) now rests,
            λ r k s u. subst (IsIn r) none_ready (
                filter_complete store p.ready task false now r k
                  (lacks_task_of_Serves (store r) task s) (is_cooling_of_IsRested (store r) now u)),
          ),
        )
    go (f ∷ fs) same i =
        let (there, offers, rests) = filter_sound store p.ready task false now q (rw same i) in
        (lacks_task-false (store q) task offers, inl (there, is_cooling-false (store q) now rests))
