-- ===== src/Session/World/Rules.antt =====
-- How to reason about an operation step by step: what holds of its result and of the World that it
-- leaves, whichever calls fail.
use codeforge.Prelude.{◌≡◌, refl, Bool, true, false, Option, none, some, List}
use codeforge.Apperror.{Error}
use codeforge.Session.World.{
  World, Row, M, Result, ok, err, ◌>>=◌, ◌>>◌, bind_result, attempt, require, lift, next_fault,
  later_faults, answer, reach, persist_to_sqlite,
}

-- `Q` holds of what `m` returns from `w`, and of the World then.
abbrev pub Ensures {ℓ} : {A : Type 0} → M A → World → (Result A → World → Type ℓ) → Type ℓ
Ensures m w Q = Q (m w).0 (m w).1

abbrev pub with_faults : List Bool → World → World
with_faults fs w = record w { faults = fs }

abbrev pub with_sqlite : Option (List Row) → List Bool → World → World
with_sqlite rows fs w = record w { sqlite = rows; faults = fs }

-- Behind a call: nothing but the outlook on faults has changed, and the code goes on if it worked.
pub reach_rule {ℓ} :
    {B : Type 0} (e : Error) (k : M B) (w : World) (Q : Result B → World → Type ℓ)
    → ((fs : List Bool) → Q (err e) (with_faults fs w))
    → ((fs : List Bool) → Ensures k (with_faults fs w) Q)
    → Ensures (reach e >> k) w Q
unfolding reach
reach_rule e k w Q no' yes' =
    elim (next_fault w.faults)
      as (λ b.
        Q (bind_result (λ _. k) (answer b e, with_faults (later_faults w.faults) w)).0
          (bind_result (λ _. k) (answer b e, with_faults (later_faults w.faults) w)).1) [
            | true ↦ no' (later_faults w.faults)
            | false ↦ yes' (later_faults w.faults)
          ]

pub attempt_rule {ℓ} :
    {B : Type 0} (e : Error) (k : Result (Unit {0}) → M B) (w : World)
    (Q : Result B → World → Type ℓ)
    → ((r : Result (Unit {0})) (fs : List Bool) → Ensures (k r) (with_faults fs w) Q)
    → Ensures (attempt (reach e) >>= k) w Q
unfolding reach
attempt_rule e k w Q h = h (answer (next_fault w.faults) e) (later_faults w.faults)

pub persist_rule {ℓ} :
    {B : Type 0} (f : List Row → List Row) (k : M B) (w : World) (Q : Result B → World → Type ℓ)
    → ((rows : Option (List Row)) (fs : List Bool) → Ensures k (with_sqlite rows fs w) Q)
    → Ensures (persist_to_sqlite f >> k) w Q
unfolding persist_to_sqlite
persist_rule f k w Q h = h _ _

pub persist_last {ℓ} :
    (f : List Row → List Row) (w : World) (Q : Result (Unit {0}) → World → Type ℓ)
    → ((rows : Option (List Row)) (fs : List Bool) → Q (ok tt) (with_sqlite rows fs w))
    → Ensures (persist_to_sqlite f) w Q
unfolding persist_to_sqlite
persist_last f w Q h = h _ _

-- Behind a check: it lets the code go on, or it returns its error.
pub require_rule {ℓ} :
    {B : Type 0} (o : Option Error) (k : M B) (w : World) (Q : Result B → World → Type ℓ)
    → ((e : Error) → o ≡ some e → Q (err e) w)
    → (o ≡ none → Ensures k w Q)
    → Ensures (require o >> k) w Q
require_rule none k w Q no' yes' = yes' refl
require_rule (some e) k w Q no' yes' = no' e refl

pub lift_rule {ℓ} :
    {A B : Type 0} (r : Result A) (k : A → M B) (w : World) (Q : Result B → World → Type ℓ)
    → ((e : Error) → r ≡ err e → Q (err e) w)
    → ((a : A) → r ≡ ok a → Ensures (k a) w Q)
    → Ensures (lift r >>= k) w Q
lift_rule (ok a) k w Q no' yes' = yes' a refl
lift_rule (err e) k w Q no' yes' = no' e refl

-- Behind another operation: what is known of its result.
pub bind_rule {ℓ κ} :
    {A B : Type 0} (m : M A) (k : A → M B) (w : World) (P : Result A → World → Type κ)
    (Q : Result B → World → Type ℓ)
    → Ensures m w P
    → ((e : Error) (w' : World) → P (err e) w' → Q (err e) w')
    → ((a : A) (w' : World) → P (ok a) w' → Ensures (k a) w' Q)
    → Ensures (m >>= k) w Q
bind_rule {A} {B} m k w P Q h no' yes' = go (m w).0 (m w).1 h
  where
    go :
        (r : Result A) (w' : World) → P r w' → Q (bind_result k (r, w')).0 (bind_result k (r, w')).1
    go (ok a) w' p = yes' a w' p
    go (err e) w' p = no' e w' p

-- A value that was returned went through the value before it.
pub lift_ok :
    {A B : Type 0} (r : Result A) (f : A → M B) (w : World) (b : B)
    → ((lift r >>= f) w).0 ≡ ok b
    → (a : A) × (r ≡ ok a) × ((lift r >>= f) w ≡ f a w)
lift_ok (ok a) f w b h = (a, refl, refl)
lift_ok (err e) f w b h = absurd (cc)
