-- ===== src/Reliability/Budget/Caps.antt =====
-- What the cost guard keeps below the review's cap: calls one after another, and calls at once.
use pr_sentinel.Prelude.{
  zero, suc, ◌++◌, subst, ap, ◌∙◌, ℕ, ◌+◌, ◌≤◌, ◌<◌, ◌≡◌, refl, true, Option, none, some, List, [],
  ◌∷◌, length, All, arith,
}
use pr_sentinel.Runtime.{Float, Floats, IsRounded, IsAddition}
use pr_sentinel.Config.{Settings}
use pr_sentinel.Reliability.Budget.{BudgetGuard, load, check, charge}

-- A call as call_llm makes it: the worst case is checked, and the cost is charged when it returns.
unfoldable pub guarded : Floats → Settings → BudgetGuard → Float × Float → BudgetGuard
guarded F s g (estimate, cost) = elim (check F s g estimate) [
  | none ↦ charge F g cost
  | some exc ↦ g
]

unfoldable pub guarded_all : Floats → Settings → BudgetGuard → List (Float × Float) → BudgetGuard
guarded_all F s g [] = g
guarded_all F s g (call ∷ calls) = guarded_all F s (guarded F s g call) calls

module _ (F : Floats) (s : Settings) where
  check_passed :
      (g : BudgetGuard) (estimate : Float)
      → g.enabled ≡ true
      → check F s g estimate ≡ none
      → F.add g.review_spent estimate ≤ s.review_cost_cap_usd
  unfolding check
  check_passed g estimate on h = ground arith

  guarded_capped :
      IsRounded F
      → (g : BudgetGuard) (estimate cost : Float) → g.enabled ≡ true
      → g.review_spent ≤ s.review_cost_cap_usd
      → cost ≤ estimate
      → ((guarded F s g (estimate, cost)).enabled ≡ true)
        × ((guarded F s g (estimate, cost)).review_spent ≤ s.review_cost_cap_usd)
  unfolding guarded charge
  guarded_capped R g estimate cost on under le =
      ground (arith, check_passed g estimate on, R.add_mono g.review_spent cost estimate le)

  -- While the guard is enabled and addition is rounded correctly: calls one after another, each costing
  -- at most its estimate, never take a review that is within its cap over it, however many they are and
  -- whichever of them the guard refuses.
  pub sequential_capped :
      IsRounded F
      → (calls : List (Float × Float)) (g : BudgetGuard) → g.enabled ≡ true
      → g.review_spent ≤ s.review_cost_cap_usd
      → All (λ c. c.1 ≤ c.0) calls
      → (guarded_all F s g calls).review_spent ≤ s.review_cost_cap_usd
  unfolding guarded_all
  sequential_capped R [] g on under h = under
  sequential_capped R ((estimate, cost) ∷ calls) g on under h =
      let (on', under') = guarded_capped R g estimate cost on under h.0 in
      sequential_capped R calls (guarded F s g (estimate, cost)) on' under' h.1

-- One review's calls at once: the guard, and the estimates of the calls in flight.
pub record Panel : Type 0 where
  pub guard : BudgetGuard
  pub in_flight : List Float

-- A call starts when its check passes, and lands with a cost; at most `width` are in flight.
pub data Step (F : Floats) (s : Settings) (width largest : ℕ) (p : Panel) : Panel → Type 0 where
  start :
      (estimate : Float)
      → estimate ≤ largest
      → length p.in_flight < width
      → check F s p.guard estimate ≡ none
      → Step F s width largest p (record p { in_flight = estimate ∷ p.in_flight })
  land :
      (before after : List Float) (estimate cost : Float) (q : Panel)
      → p.in_flight ≡ before ++ estimate ∷ after
      → cost ≤ estimate
      → q ≡ record { guard = charge F p.guard cost; in_flight = before ++ after }
      → Step F s width largest p q

pub data Reach (F : Floats) (s : Settings) (width largest : ℕ) (p : Panel) : Panel → Type 0 where
  here : Reach F s width largest p p
  next :
      {q r : Panel}
      → Reach F s width largest p q
      → Step F s width largest q r
      → Reach F s width largest p r

length-middle :
    (before after : List Float) (x : Float)
    → length (before ++ x ∷ after) ≡ suc (length (before ++ after))
length-middle [] after x = refl
length-middle (b ∷ before) after x = ap suc (length-middle before after x)

All-middle :
    (P : ℕ → Type 0) (before after : List ℕ) (x : ℕ)
    → All P (before ++ x ∷ after)
    → P x × All P (before ++ after)
All-middle P [] after x h = h
All-middle P (b ∷ before) after x h =
    let (p, rest) = All-middle P before after x h.1 in (p, (h.0, rest))

-- The cap with `n` largest calls added to it one after another, as the program adds them.
abbrev pub over_by : Floats → Float → Float → ℕ → Float
over_by F cap largest zero = cap
over_by F cap largest (suc n) = F.add (over_by F cap largest n) largest

over_by_mono :
    (F : Floats)
    → IsAddition F
    → (cap largest n m : ℕ) → n ≤ m
    → over_by F cap largest n ≤ over_by F cap largest m
over_by_mono F A cap largest zero zero h = omega arith
over_by_mono F A cap largest zero (suc m) h = omega (
  arith,
  over_by_mono F A cap largest zero m (omega arith),
  A.le_add (over_by F cap largest m) largest,
)
over_by_mono F A cap largest (suc n) zero h = absurd (omega arith)
over_by_mono F A cap largest (suc n) (suc m) h =
    A.mono _ _ _ _ (over_by_mono F A cap largest n m (omega arith)) (omega arith)

-- Every call that can still land leaves room for one largest call more.
pub record IsWithin (F : Floats) (s : Settings) (width largest : ℕ) (p : Panel) : Type 0 where
  pub on : p.guard.enabled ≡ true
  pub small : All (λ e. e ≤ largest) p.in_flight
  pub landed : ℕ
  pub room : landed + length p.in_flight ≤ width
  pub spent : p.guard.review_spent ≤ over_by F s.review_cost_cap_usd largest landed

module _ (F : Floats) (s : Settings) (A : IsAddition F) (width largest : ℕ) where
  Step-IsWithin :
      {p q : Panel}
      → Step F s width largest p q
      → IsWithin F s width largest p
      → IsWithin F s width largest q
  Step-IsWithin {p} (start estimate le room passed) w = record {
    on = w.on;
    small = (le, w.small);
    landed = 0;
    room = omega arith;
    spent = omega (
      arith,
      A.le_add p.guard.review_spent estimate,
      check_passed F s p.guard estimate w.on passed,
    );
  }
  Step-IsWithin {p} (land before after estimate cost q e le e') w = rw e' (
      unfold charge in
      let (fits, small) =
        All-middle (λ x. x ≤ largest) before after estimate
          (subst (All (λ x. x ≤ largest)) e w.small) in
      record {
        on = w.on;
        small = small;
        landed = suc w.landed;
        room = omega (arith, w.room, ap length e ∙ length-middle before after estimate);
        spent = A.mono _ _ _ _ w.spent (omega (arith, fits));
      })

  Reach-IsWithin :
      {p q : Panel}
      → Reach F s width largest p q
      → IsWithin F s width largest p
      → IsWithin F s width largest q
  Reach-IsWithin here w = w
  Reach-IsWithin (next r st) w = Step-IsWithin st (Reach-IsWithin r w)

-- Of calls that run at once the guard knows only those that have landed, so the cap can be passed.
-- With correctly rounded addition and at most `width` calls in flight, whose estimates are at most
-- `largest` and whose costs are at most their estimates, a review that starts with nothing spent never
-- spends more than its cap with `width` largest calls added to it, in whatever order the calls start
-- and land.
pub concurrent_overshoot :
    (F : Floats)
    → IsAddition F
    → (s : Settings) (width largest review_id : ℕ) (today : Option Float) (p : Panel)
    → Reach F s width largest (record { guard = load review_id today; in_flight = [] }) p
    → p.guard.review_spent ≤ over_by F s.review_cost_cap_usd largest width
unfolding load
concurrent_overshoot F A s width largest review_id today p r =
    let w =
      Reach-IsWithin F s A width largest r
        (record { on = refl; small = tt; landed = 0; room = omega arith; spent = omega arith }) in
    omega (
      arith,
      w.spent,
      over_by_mono F A s.review_cost_cap_usd largest w.landed width (omega (arith, w.room)),
    )
