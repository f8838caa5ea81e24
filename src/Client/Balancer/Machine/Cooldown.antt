-- ===== src/Client/Balancer/Machine/Cooldown.antt =====
-- The cooldown of every node, through every history of the balancer.
use lumen_sdk.Base.{ℕ, ◌+◌, ◌%◌, ◌^◌, ◌<◌, ◌≤◌, ◌≡◌, refl, Option, none, arith}
use lumen_sdk.Client.Balancer.State.{
  Balancer, BalancerOptions, NodeRegistry, SubConnState, next_cooldown, count_failure,
}
use lumen_sdk.Client.Balancer.Handlers.{refresh, build}
use lumen_sdk.Client.Balancer.Machine.{Steps}
use lumen_sdk.Client.Balancer.Machine.Kept.{IsKept}
use lumen_sdk.Client.Balancer.Machine.Frame.{Steps-Holds, steps_taken}

-- The options as a pool normalises them, with a maximum of less than 146 years.
pub record IsSane (o : BalancerOptions) : Type 0 where
  pub positive : 0 < o.rediscovery_backoff_min
  pub ordered : o.rediscovery_backoff_min ≤ o.rediscovery_backoff_max
  pub small : o.rediscovery_backoff_max < 2 ^ 62

-- A cooldown lies between the options' bounds and follows three hard failures, whose counter has not wrapped;
-- it has an end just if it is not 0.
pub record IsCooling (o : BalancerOptions) (s : SubConnState) : Type 0 where
  pub at_most : s.cooldown ≤ o.rediscovery_backoff_max
  pub at_least : 0 < s.cooldown → o.rediscovery_backoff_min ≤ s.cooldown
  pub few : s.hard_failures < 2 ^ 63
  pub earned : 0 < s.cooldown → 3 ≤ s.hard_failures
  pub ends : s.cooldown_until ≡ none → s.cooldown ≡ 0
  pub rests : s.cooldown ≡ 0 → s.cooldown_until ≡ none

-- Twice the last cooldown, within the bounds.
pub next_cooldown_bounds :
    (o : BalancerOptions) (cooldown : ℕ)
    → IsSane o
    → cooldown ≤ o.rediscovery_backoff_max
    → (0 < cooldown → o.rediscovery_backoff_min ≤ cooldown)
    → (o.rediscovery_backoff_min ≤ next_cooldown o cooldown)
      × (next_cooldown o cooldown ≤ o.rediscovery_backoff_max)
unfolding next_cooldown
next_cooldown_bounds o cooldown v h k = ground arith

count_failure-IsCooling :
    (o : BalancerOptions) (now : ℕ) (s : SubConnState)
    → IsSane o
    → s.hard_failures + 1 < 2 ^ 63
    → IsCooling o s
    → IsCooling o (count_failure o now s)
unfolding count_failure
count_failure-IsCooling o now s v small c =
    let bounds = next_cooldown_bounds o s.cooldown v c.at_most c.at_least in
    let exact : (s.hard_failures + 1) % 2 ^ 64 ≡ s.hard_failures + 1 = omega arith in
    rw exact (ground (arith, bounds))

counted_once :
    (o : BalancerOptions) (now : ℕ) (s : SubConnState) (n : ℕ)
    → s.hard_failures ≤ n
    → n + 1 < 2 ^ 63
    → (count_failure o now s).hard_failures ≤ n + 1
unfolding count_failure
counted_once o now s n few small =
    let exact : (s.hard_failures + 1) % 2 ^ 64 ≡ s.hard_failures + 1 = omega arith in
    rw exact (ground arith)

-- After `n` steps, if they are fewer than 2 ^ 63: each has counted one failure at most.
IsCoolingAfter : BalancerOptions → ℕ → SubConnState → Type 0
IsCoolingAfter o n s = n < 2 ^ 63 → (s.hard_failures ≤ n) × IsCooling o s

-- What changes neither the cooldown nor the counter.
same-IsCooling :
    (o : BalancerOptions) (s t : SubConnState)
    → t.hard_failures ≡ s.hard_failures
    → t.cooldown ≡ s.cooldown
    → t.cooldown_until ≡ s.cooldown_until
    → IsCooling o s
    → IsCooling o t
same-IsCooling o s t f d u c = record {
  at_most = rw d c.at_most;
  at_least = rw d c.at_least;
  few = rw f c.few;
  earned = rw (d, f) c.earned;
  ends = rw (d, u) c.ends;
  rests = rw (d, u) c.rests;
}

IsCooling-IsKept :
    (o : BalancerOptions)
    → IsSane o
    → (n : ℕ) → IsKept o (IsCoolingAfter o n) (IsCoolingAfter o (n + 1))
unfolding refresh IsCoolingAfter
IsCooling-IsKept o v n = record {
  fresh = λ sc addr attr small. (omega arith, ground arith);
  refreshed = λ addr attr s c small. ((c small).0, same-IsCooling o s _ refl refl refl (c small).1);
  changed = λ state s c small. ((c small).0, same-IsCooling o s _ refl refl refl (c small).1);
  cleared = λ s c small. (omega arith, ground arith);
  counted = λ now s c small.
      (let before = c (omega arith) in
        (
          counted_once o now s n before.0 small,
          count_failure-IsCooling o now s v (omega (arith, before.0)) before.1,
        ));
  published = λ caps s c small. ((c small).0, same-IsCooling o s _ refl refl refl (c small).1);
  fetching = λ b s c small. ((c small).0, same-IsCooling o s _ refl refl refl (c small).1);
  weaker = λ s c small. (let before = c (omega arith) in (omega (arith, before.0), before.1));
}

-- In every history of fewer than 2 ^ 63 steps of a balancer with sane options, the cooldown of each SubConn
-- state is 0 or lies between the minimum and the maximum, is not 0 only while the counter of its hard
-- failures, which has not overflowed, is three at least, and has an end exactly if it is not 0.
pub Steps-IsCooling :
    (o : BalancerOptions) (registry : Option NodeRegistry) (lb : Balancer)
    → IsSane o
    → (s : Steps (build o registry) lb) → steps_taken s < 2 ^ 63
    → (p : ℕ) → IsCooling o (lb.store p)
unfolding build IsCoolingAfter
Steps-IsCooling o registry lb v s few p =
    ((Steps-Holds o (IsCoolingAfter o) (IsCooling-IsKept o v)
        (record { options = refl; cells = λ q. (IsCooling-IsKept o v 0).fresh 0 _ _ }) s).cells
      p few).1
