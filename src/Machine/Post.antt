-- ===== src/Machine/Post.antt =====
-- Postconditions of a run: what holds of the result and the new state, if the kernel goes on.
use dmaos.Base.{Bool, true, false, if◌then◌else◌, ◌≡◌, refl, subst}
use dmaos.Machine.{Kernel, Run, ok, panic, waiting, M, and_then}

pub data Post {ℓ κ} {A : Type ℓ} (P : A → Kernel → Type κ) : Run A → Type (ℓ ⊔ κ) where
  returned : {a : A} {k : Kernel} → P a k → Post P (ok a k)
  panicked : Post P panic
  waits : Post P waiting

module _ {ℓ κ} {A : Type ℓ} {P : A → Kernel → Type κ} where
  -- The rule for `;`.
  pub bind {ι μ} :
      {B : Type ι} {Q : B → Kernel → Type μ} {r : Run A} {f : A → M B}
      → Post P r
      → ((a : A) (k : Kernel) → P a k → Post Q (f a k))
      → Post Q (and_then r f)
  bind (returned p) next = next _ _ p
  bind panicked next = panicked
  bind waits next = waits

  pub mono {μ} :
      {Q : A → Kernel → Type μ} {r : Run A}
      → Post P r
      → ((a : A) (k : Kernel) → P a k → Q a k)
      → Post Q r
  mono (returned p) weaken = returned (weaken _ _ p)
  mono panicked weaken = panicked
  mono waits weaken = waits

-- Two runs that return and are equal end in the same state.
pub ok-state {ℓ} :
    {A : Type ℓ} {a b : A} {k k' : Kernel} → ◌≡◌ {A = Run A} (ok a k) (ok b k') → k ≡ k'
ok-state h = cc

pub ok-value {ℓ} :
    {A : Type ℓ} {a b : A} {k k' : Kernel} → ◌≡◌ {A = Run A} (ok a k) (ok b k') → a ≡ b
ok-value h = cc

-- What holds of one run's result and state holds of those of an equal run.
pub transfer {ℓ κ} :
    {A : Type ℓ} (P : A → Kernel → Type κ) {a b : A} {k k' : Kernel}
    → ◌≡◌ {A = Run A} (ok a k) (ok b k')
    → P a k
    → P b k'
transfer {A} P {a} {b} {k} {k'} h p =
    subst (λ x. P b x) (ok-state h) (subst (λ x. P x k) (ok-value h) p)

-- A run that returned satisfies its postcondition.
pub result {ℓ κ} :
    {A : Type ℓ} {P : A → Kernel → Type κ} {r : Run A} {a : A} {k : Kernel}
    → Post P r
    → r ≡ ok a k
    → P a k
result {P} (returned p) e = transfer P e p
result panicked e = cc
result waits e = cc

-- A sequence that returns comes from a first part that returns.
pub bind-ok {ℓ κ} :
    {A : Type ℓ} {B : Type κ} (r : Run A) (f : A → M B) {b : B} {k' : Kernel}
    → and_then r f ≡ ok b k'
    → (a : A) × (k : Kernel) × (r ≡ ok a k) × (f a k ≡ ok b k')
bind-ok (ok a k) f h = (a, k, refl, h)
bind-ok panic f h = cc
bind-ok waiting f h = cc

-- Both branches of a test.
pub either {ℓ κ} :
    {A : Type ℓ} {P : A → Kernel → Type κ} (b : Bool) (m n : M A) {k : Kernel}
    → Post P (m k)
    → Post P (n k)
    → Post P ((if b then m else n) k)
either true m n p q = p
either false m n p q = q

pub both {ℓ κ μ} :
    {A : Type ℓ} {P : A → Kernel → Type κ} {Q : A → Kernel → Type μ} {r : Run A}
    → Post P r
    → Post Q r
    → Post (λ a k. P a k × Q a k) r
both (returned p) (returned q) = returned (p, q)
both panicked q = panicked
both waits q = waits

-- Of any run something holds.
pub any_run {ℓ} : {A : Type ℓ} (r : Run A) → Post (λ _ _. Unit {0}) r
any_run (ok a k) = returned tt
any_run panic = panicked
any_run waiting = waits
