-- ===== src/Types/Assembly/Fill.antt =====
-- The second loop of AssembleInferResponses: placing the chunks by number.
use mathlib.Core.List.{Permᴰ, perm_middle}
use mathlib.Core.List.Perm
use lumen_sdk.Base.{
  ℕ, zero, suc, ◌+◌, ◌<◌, ◌≤◌, ◌≡◌, ◌≢◌, refl, sym, ap, ◌∙◌, subst, List, [], ◌∷◌, ◌++◌, map,
  Option, none, some, ok, arith, length, get_elem?, set, replicate, present, Perm, get_elem?-set_ne,
  get_elem?-set_self, set_comm, append_assoc, append-nil, length-set, length-append,
}
use native.Mathlib.Decide.{ℕ_discrete}
use lumen_sdk.Types.Proto.{InferResponse}
use lumen_sdk.Types.Assembly.{fill, is_vacant}
use lumen_sdk.Types.Assembly.Spec.{IsNumbered}

-- The checks that a response passes when it is placed.
pub record Fits (total : ℕ) (chunks : List (Option InferResponse)) (r : InferResponse)
    : Type 0 where
  pub declares : r.total ≡ total
  pub in_range : r.seq < total
  pub vacant : get_elem? chunks r.seq ≡ some none

vacant_lem : (o : Option (Option InferResponse)) → is_vacant o ≡ lumen_sdk.Base.true → o ≡ some none
vacant_lem none h = cc
vacant_lem (some none) h = refl
vacant_lem (some (some r)) h = cc

pub fill-cons :
    (total : ℕ) (r : InferResponse) (rs : List InferResponse) (chunks : List (Option InferResponse))
    {out : List (Option InferResponse)}
    → fill total (r ∷ rs) chunks ≡ ok out
    → Fits total chunks r × (fill total rs (set chunks r.seq (some r)) ≡ ok out)
unfolding fill
fill-cons total r rs chunks e = ground (arith, vacant_lem (get_elem? chunks r.seq))

pub fill-Fits :
    (total : ℕ) (r : InferResponse) (rs : List InferResponse) (chunks : List (Option InferResponse))
    → Fits total chunks r
    → fill total (r ∷ rs) chunks ≡ fill total rs (set chunks r.seq (some r))
unfolding fill
fill-Fits total r rs chunks f = ground arith

get_elem?-lt_of_some :
    (xs : List (Option InferResponse)) (i : ℕ) {o : Option InferResponse}
    → get_elem? xs i ≡ some o
    → i < length xs
get_elem?-lt_of_some [] i e = cc
get_elem?-lt_of_some (x ∷ xs) zero e = omega arith
get_elem?-lt_of_some (x ∷ xs) (suc i) e = omega (arith, get_elem?-lt_of_some xs i e)

Fits-apart :
    (total : ℕ) (a b : InferResponse) (chunks : List (Option InferResponse))
    → Fits total chunks a
    → Fits total (set chunks a.seq (some a)) b
    → a.seq ≢ b.seq
Fits-apart total a b chunks fa fb e =
    let taken : get_elem? (set chunks a.seq (some a)) a.seq ≡ some (some a) =
      get_elem?-set_self chunks a.seq (some a) (get_elem?-lt_of_some chunks a.seq fa.vacant) in
    let free : get_elem? (set chunks a.seq (some a)) b.seq ≡ some none = fb.vacant in
    let free' : get_elem? (set chunks a.seq (some a)) a.seq ≡ some none =
      ap (get_elem? (set chunks a.seq (some a))) e ∙ free in
    cc

Fits-before :
    (total : ℕ) (a b : InferResponse) (chunks : List (Option InferResponse))
    → a.seq ≢ b.seq
    → Fits total (set chunks a.seq (some a)) b
    → Fits total chunks b
Fits-before total a b chunks ne f = record {
  declares = f.declares;
  in_range = f.in_range;
  vacant = sym (get_elem?-set_ne chunks (some a) ne) ∙ f.vacant;
}

Fits-after :
    (total : ℕ) (a b : InferResponse) (chunks : List (Option InferResponse))
    → a.seq ≢ b.seq
    → Fits total chunks a
    → Fits total (set chunks b.seq (some b)) a
Fits-after total a b chunks ne f = record {
  declares = f.declares;
  in_range = f.in_range;
  vacant = get_elem?-set_ne chunks (some b) (λ e. ne (sym e)) ∙ f.vacant;
}

fill_swap :
    (total : ℕ) (a b : InferResponse) (rs : List InferResponse)
    (chunks : List (Option InferResponse)) {out : List (Option InferResponse)}
    → fill total (a ∷ b ∷ rs) chunks ≡ ok out
    → fill total (b ∷ a ∷ rs) chunks ≡ ok out
fill_swap total a b rs chunks e =
    let (fa, ea) = fill-cons total a (b ∷ rs) chunks e in
    let (fb, eb) = fill-cons total b rs (set chunks a.seq (some a)) ea in
    let ne = Fits-apart total a b chunks fa fb in
    fill-Fits total b (a ∷ rs) chunks (Fits-before total a b chunks ne fb)
    ∙ fill-Fits total a rs _ (Fits-after total a b chunks ne fa)
    ∙ rw (← set_comm chunks a.seq b.seq (some a) (some b) ne) eb

-- The order in which the responses arrive does not matter to a successful fill.
pub fill_perm :
    (total : ℕ) {rs rs' : List InferResponse} (p : Permᴰ rs rs')
    (chunks : List (Option InferResponse)) {out : List (Option InferResponse)}
    → fill total rs chunks ≡ ok out
    → fill total rs' chunks ≡ ok out
fill_perm total Permᴰ.nil chunks e = e
fill_perm total (Permᴰ.cons {a} {b} {l₁} {l₂} same p) chunks {out} e =
    let (f, rest) = fill-cons total a l₁ chunks e in
    subst (λ c. fill total (c ∷ l₂) chunks ≡ ok out) same
      (fill-Fits total a l₂ chunks f ∙ fill_perm total p (set chunks a.seq (some a)) rest)
fill_perm total (Permᴰ.swap {a} {b} {l} p q) chunks e =
    rw (← p, ← q) (fill_swap total a b l chunks e)
fill_perm total (Permᴰ.trans p q) chunks e = fill_perm total q chunks (fill_perm total p chunks e)

-- A chunk is found under its number.
abbrev pub IsPlaced : ℕ → List (Option InferResponse) → Type 0
IsPlaced total chunks =
    (i : ℕ) (r : InferResponse)
    → get_elem? chunks i ≡ some (some r)
    → (r.seq ≡ i) × (r.total ≡ total)

abbrev pub empty_array : ℕ → List (Option InferResponse)
empty_array n = replicate n none

get_elem?-replicate_none :
    (n i : ℕ) (r : InferResponse) → get_elem? (empty_array n) i ≢ some (some r)
get_elem?-replicate_none zero i r e = cc
get_elem?-replicate_none (suc n) zero r e = cc
get_elem?-replicate_none (suc n) (suc i) r e = get_elem?-replicate_none n i r e

pub replicate-IsPlaced : (total n : ℕ) → IsPlaced total (empty_array n)
replicate-IsPlaced total n i r e = absurd (get_elem?-replicate_none n i r e)

set-IsPlaced :
    (total : ℕ) (r : InferResponse) (chunks : List (Option InferResponse))
    → Fits total chunks r
    → IsPlaced total chunks
    → IsPlaced total (set chunks r.seq (some r))
set-IsPlaced total r chunks f placed i q e = elim (ℕ_discrete r.seq i) [
  | yes same ↦
      let self : get_elem? (set chunks r.seq (some r)) r.seq ≡ some (some r) =
        get_elem?-set_self chunks r.seq (some r) (get_elem?-lt_of_some chunks r.seq f.vacant) in
      let there : get_elem? (set chunks r.seq (some r)) r.seq ≡ some (some q) =
        ap (get_elem? (set chunks r.seq (some r))) same ∙ e in
      let q' : r ≡ q = cc in rw (← q') (same, f.declares)
  | no other ↦ placed i q (sym (get_elem?-set_ne chunks (some r) other) ∙ e)
]

pub fill-IsPlaced :
    (total : ℕ) (rs : List InferResponse) (chunks : List (Option InferResponse))
    {out : List (Option InferResponse)}
    → fill total rs chunks ≡ ok out
    → IsPlaced total chunks
    → IsPlaced total out
unfolding fill
fill-IsPlaced total [] chunks {out} e placed =
    let same : chunks ≡ out = cc in subst (IsPlaced total) same placed
fill-IsPlaced total (r ∷ rs) chunks e placed =
    let (f, rest) = fill-cons total r rs chunks e in
    fill-IsPlaced total rs (set chunks r.seq (some r)) rest (set-IsPlaced total r chunks f placed)

present-set-perm :
    (chunks : List (Option InferResponse)) (i : ℕ) (r : InferResponse)
    → get_elem? chunks i ≡ some none
    → Perm (present (set chunks i (some r))) (r ∷ present chunks)
present-set-perm [] i r e = cc
present-set-perm (none ∷ cs) zero r e = Perm.rfl
present-set-perm (some c ∷ cs) zero r e = cc
present-set-perm (none ∷ cs) (suc i) r e = present-set-perm cs i r e
present-set-perm (some c ∷ cs) (suc i) r e =
    Perm.trans (Perm.cons c (present-set-perm cs i r e)) (Perm.swap r c _)

-- Nothing is lost and nothing made up.
pub present-fill-perm :
    (total : ℕ) (rs : List InferResponse) (chunks : List (Option InferResponse))
    {out : List (Option InferResponse)}
    → fill total rs chunks ≡ ok out
    → Perm (present out) (rs ++ present chunks)
unfolding fill
present-fill-perm total [] chunks {out} e = let same : chunks ≡ out = cc in rw (← same) Perm.rfl
present-fill-perm total (r ∷ rs) chunks e =
    let (f, rest) = fill-cons total r rs chunks e in
    Perm.trans (present-fill-perm total rs (set chunks r.seq (some r)) rest) (
      Perm.trans (Perm.append_left rs (present-set-perm chunks r.seq r f.vacant))
        (perm_middle rs (present chunks)))

pub length-fill :
    (total : ℕ) (rs : List InferResponse) (chunks : List (Option InferResponse))
    {out : List (Option InferResponse)}
    → fill total rs chunks ≡ ok out
    → length out ≡ length chunks
unfolding fill
length-fill total [] chunks {out} e = let same : chunks ≡ out = cc in ap length (sym same)
length-fill total (r ∷ rs) chunks e =
    let (f, rest) = fill-cons total r rs chunks e in
    length-fill total rs (set chunks r.seq (some r)) rest ∙ length-set chunks r.seq (some r)

get_elem?-append_self :
    (pre : List InferResponse) (o : Option InferResponse) (rest : List (Option InferResponse))
    → get_elem? (map some pre ++ o ∷ rest) (length pre) ≡ some o
get_elem?-append_self [] o rest = refl
get_elem?-append_self (p ∷ pre) o rest = get_elem?-append_self pre o rest

set-append_self :
    (pre : List InferResponse) (o : Option InferResponse) (c : InferResponse)
    (rest : List (Option InferResponse))
    → set (map some pre ++ o ∷ rest) (length pre) (some c) ≡ map some (pre ++ c ∷ []) ++ rest
set-append_self [] o c rest = refl
set-append_self (p ∷ pre) o c rest = ap (◌∷◌ (some p)) (set-append_self pre o c rest)

-- Chunks that come in order fill the array from the front.
fill_in_order :
    (total : ℕ) (pre cs : List InferResponse)
    → length pre + length cs ≤ total
    → IsNumbered total (length pre) cs
    → fill total cs (map some pre ++ empty_array (length cs)) ≡ ok (map some (pre ++ cs))
unfolding fill
fill_in_order total pre [] h s = simp append-nil
fill_in_order total pre (c ∷ cs) h s =
    fill-Fits total c cs _ (record {
      declares = s.1;
      in_range = omega arith;
      vacant = rw s.0 (get_elem?-append_self pre none (empty_array (length cs)));
    })
    ∙ ap (λ i. fill total cs (set (map some pre ++ none ∷ empty_array (length cs)) i (some c))) s.0
    ∙ ap (fill total cs) (set-append_self pre none c (empty_array (length cs)))
    ∙ fill_in_order total (pre ++ c ∷ []) cs (omega (arith, grown))
        (subst (λ n. IsNumbered total n cs) (sym grown) s.2)
    ∙ ap (λ xs. ok (map some xs)) (append_assoc pre (c ∷ []) cs)
  where
    grown : length (pre ++ c ∷ []) ≡ length pre + 1
    grown = length-append pre (c ∷ [])

pub fill_all :
    (total : ℕ) (cs : List InferResponse)
    → length cs ≤ total
    → IsNumbered total 0 cs
    → fill total cs (empty_array (length cs)) ≡ ok (map some cs)
fill_all total cs h s = fill_in_order total [] cs (omega arith) s
