-- ===== src/Client/Balancer/Fetch/Retry.antt =====
-- How long the capability fetch goes on, and how long it waits.
use lumen_sdk.Base.{
  ℕ, zero, suc, ◌+◌, ◌≡◌, ◌↔◌, inl, inr, refl, ap, ◌∙◌, true, false, List, [], ◌∷◌, Bool-cases, All,
  sym, Option-cases, Option, none, some, arith, length,
}
use lumen_sdk.Base.Text.{Text, text_eq_iff}
use lumen_sdk.Base.Dict.{lookup}
use lumen_sdk.Client.Pool.{seconds}
use lumen_sdk.Client.Balancer.State.{Balancer, ConnState, is_ready}
use lumen_sdk.Client.Balancer.Fetch.{FetchLoop, start_fetch, after_attempt, next_backoff, is_stale}

-- The node is known, ready, and at the address.
abbrev pub IsCurrent : Text → Text → Balancer → Type 0
IsCurrent k addr lb =
    (p : ℕ) × (lookup k lb.sub_conns ≡ some p)
    × ((lb.store p).state ≡ ConnState.ready)
    × ((lb.store p).addr.addr ≡ addr)

-- The loop after one failed attempt for each of the states, which the balancer was in after it.
unfoldable pub after_failures : FetchLoop → List Balancer → Option FetchLoop
unfolding after_attempt
after_failures l [] = some l
after_failures l (lb ∷ lbs) = elim (after_attempt l false lb) [
  | none ↦ none
  | some m ↦ after_failures m lbs
]

is_ready_iff : (s : ConnState) → (is_ready s ≡ true) ↔ (s ≡ ConnState.ready)
is_ready_iff s = ground arith

is_stale-IsCurrent :
    (k addr : Text) (lb : Balancer) → is_stale k addr lb ≡ false → IsCurrent k addr lb
unfolding is_stale
is_stale-IsCurrent k addr lb e = elim (Option-cases (lookup k lb.sub_conns)) [
  | inl u ↦ absurd (ground arith)
  | inr (p, u) ↦ (p, u, ground arith, (text_eq_iff _ addr).0 (ground arith))
]

IsCurrent-is_stale :
    (k addr : Text) (lb : Balancer) → IsCurrent k addr lb → is_stale k addr lb ≡ false
unfolding is_stale
IsCurrent-is_stale k addr lb (p, u, ready, same) =
    let found = (text_eq_iff (lb.store p).addr.addr addr).1 same in
    rw (u, is_stale) (rw (ready, found) refl)

-- How long the loop waits after each failure: 1, 2 and 4 seconds, then always 8.
abbrev pub waits : ℕ → ℕ
waits zero = seconds 1
waits (suc zero) = seconds 2
waits (suc (suc zero)) = seconds 4
waits (suc (suc (suc n))) = seconds 8

next_backoff-waits : (n : ℕ) → next_backoff (waits n) ≡ waits (suc n)
unfolding next_backoff
next_backoff-waits zero = refl
next_backoff-waits (suc zero) = refl
next_backoff-waits (suc (suc zero)) = refl
next_backoff-waits (suc (suc (suc n))) = refl

abbrev pub in_round : Text → Text → ℕ → FetchLoop
in_round k addr n = record { key = k; addr = addr; backoff = waits n; attempt = n + 1 }

pair_eq : {a b c d : ℕ} → a ≡ b → c ≡ d → ◌≡◌ {A = ℕ × ℕ} (a, c) (b, d)
pair_eq e f = cc

after_failures_from :
    (k addr : Text) (n : ℕ) (lbs : List Balancer)
    → All (IsCurrent k addr) lbs
    → after_failures (in_round k addr n) lbs ≡ some (in_round k addr (n + length lbs))
unfolding after_failures after_attempt
after_failures_from k addr n [] h = ap (λ m. some (in_round k addr m)) (omega arith)
after_failures_from k addr n (lb ∷ lbs) (h, hs) =
    let fresh = IsCurrent-is_stale k addr lb h in
    rw (fresh, after_failures)
      (ap (λ p. after_failures (record { key = k; addr = addr; backoff = p.0; attempt = p.1 }) lbs)
          (pair_eq (next_backoff-waits n) (let e : n + 1 + 1 ≡ suc n + 1 = omega arith in e))
        ∙ after_failures_from k addr (suc n) lbs hs
        ∙ ap (λ m. some (in_round k addr m)) (omega arith))

after_failures_current :
    (k addr : Text) (l : FetchLoop) (lbs : List Balancer) {m : FetchLoop}
    → l.key ≡ k
    → l.addr ≡ addr
    → after_failures l lbs ≡ some m
    → All (IsCurrent k addr) lbs
unfolding after_failures after_attempt
after_failures_current k addr l [] same at e = tt
after_failures_current k addr l (lb ∷ lbs) {m} same at e =
    elim (Bool-cases (is_stale l.key l.addr lb)) [
      | inl stale ↦ absurd (none_some (rw (stale, after_failures) at e))
      | inr fresh ↦ (
        rw (← same, ← at) (is_stale-IsCurrent l.key l.addr lb fresh),
        after_failures_current k addr
            (record l { backoff = next_backoff l.backoff; attempt = l.attempt + 1 }) lbs {m = m}
            same at (rw (fresh, after_failures) at e),
      )
    ]
  where
    none_some : ◌≡◌ {A = Option FetchLoop} none (some m) → ⊥
    none_some e = cc

-- The capability fetch never gives up on a live node: after any number of failed attempts, the loop
-- goes on exactly when the node was ready at the address after each of them, and it has then waited
-- 1, 2 and 4 seconds, and 8 seconds from then on.
pub after_failures_iff :
    (k addr : Text) (lbs : List Balancer) (l : FetchLoop)
    → (after_failures (start_fetch k addr) lbs ≡ some l)
      ↔ (All (IsCurrent k addr) lbs × (l ≡ in_round k addr (length lbs)))
after_failures_iff k addr lbs l = (
  λ e.
      let current = after_failures_current k addr (start_fetch k addr) lbs refl refl e in
      let run = after_failures_from k addr 0 lbs current in
      (current, ap (λ o. or_start o) (sym e ∙ run) ∙ ap (in_round k addr) (omega arith)),
  λ (current, same).
      after_failures_from k addr 0 lbs current
      ∙ ap (λ n. some (in_round k addr n)) (omega arith)
      ∙ ap some (sym same),
)
  where
    or_start : Option FetchLoop → FetchLoop
    or_start none = start_fetch k addr
    or_start (some m) = m
