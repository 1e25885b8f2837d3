-- ===== src/Effects/Post.antt =====
-- Postconditions of actions, and their rules: one for a normal return, one for a throw.
use mathlib.Core.Path.{◌≡◌, refl, subst}
use fincart_assissment.Effects.{Reply, ok, throw, Action, continue, recover, after, finally}

-- What a run ends with satisfies `Q` if it returned and `R` if it threw.
pub data Post {ℓ} {W E A : Type ℓ} (Q : W → A → Type ℓ) (R : W → E → Type ℓ)
    : W × Reply E A → Type ℓ where
  returned : {w : W} {a : A} → Q w a → Post Q R (w, ok a)
  thrown : {w : W} {e : E} → R w e → Post Q R (w, throw e)

module _ {ℓ} {W E A : Type ℓ} {Q Q' : W → A → Type ℓ} {R R' : W → E → Type ℓ} where
  pub Post-weaken :
      {r : W × Reply E A}
      → Post Q R r
      → ((w : W) (a : A) → Q w a → Q' w a)
      → ((w : W) (e : E) → R w e → R' w e)
      → Post Q' R' r
  Post-weaken (returned {w} {a} h) f g = returned (f w a h)
  Post-weaken (thrown {w} {e} h) f g = thrown (g w e h)

  pub Post-recover :
      (h : E → Action W E A) {r : W × Reply E A}
      → Post Q R r
      → ((w : W) (a : A) → Q w a → Q' w a)
      → ((w : W) (e : E) → R w e → Post Q' R' (h e w))
      → Post Q' R' (recover h r)
  Post-recover h (returned {w} {a} p) f g = returned (f w a p)
  Post-recover h (thrown {w} {e} p) f g = g w e p

module _ {ℓ} {W E A B : Type ℓ} {Q : W → A → Type ℓ} {Q' : W → B → Type ℓ}
    {R R' : W → E → Type ℓ} where
  pub Post-continue :
      (f : A → Action W E B) {r : W × Reply E A}
      → Post Q R r
      → ((w : W) (a : A) → Q w a → Post Q' R' (f a w))
      → ((w : W) (e : E) → R w e → R' w e)
      → Post Q' R' (continue f r)
  Post-continue f (returned {w} {a} p) g k = g w a p
  Post-continue f (thrown {w} {e} p) g k = thrown (k w e p)

-- What is known of a run that returned, or threw.
abbrev Holds {ℓ} : {W E A : Type ℓ} → (W → A → Type ℓ) → (W → E → Type ℓ) → W × Reply E A → Type ℓ
Holds Q R (w, ok a) = Q w a
Holds Q R (w, throw e) = R w e

module _ {ℓ} {W E A : Type ℓ} {Q : W → A → Type ℓ} {R : W → E → Type ℓ} where
  Post-Holds : {r : W × Reply E A} → Post Q R r → Holds Q R r
  Post-Holds (returned h) = h
  Post-Holds (thrown h) = h

  pub Post-ok : {r : W × Reply E A} {w : W} {a : A} → Post Q R r → r ≡ (w, ok a) → Q w a
  Post-ok p e = Post-Holds (subst (Post Q R) e p)

  pub Post-throw : {r : W × Reply E A} {w : W} {x : E} → Post Q R r → r ≡ (w, throw x) → R w x
  Post-throw p e = Post-Holds (subst (Post Q R) e p)

-- A run that returned.
abbrev pub Returned {ℓ} : {E A : Type ℓ} → Reply E A → Type 0
Returned (ok a) = Unit
Returned (throw e) = ⊥

abbrev pub Succeeds {ℓ} : {W E A : Type ℓ} → W × Reply E A → Type 0
Succeeds r = Returned r.1

pub continue-Succeeds {ℓ} :
    {W E A B : Type ℓ} (f : A → Action W E B) (r : W × Reply E A)
    → Succeeds r
    → ((a : A) (w : W) → Succeeds (f a w))
    → Succeeds (continue f r)
continue-Succeeds f (w, ok a) h k = k a w
continue-Succeeds f (w, throw e) h k = absurd h

-- Of a run that returned, the condition on throws is not needed.
pub Post-sure :
    {W E A : Type 0} {Q : W → A → Type 0} {R : W → E → Type 0} {r : W × Reply E A}
    → Post Q R r
    → Succeeds r
    → Post Q (λ _ _. ⊥) r
Post-sure (returned h) s = returned h
Post-sure (thrown h) s = absurd s

-- Of an action on a part of the state: `f` puts the part back.
pub Post-inside :
    {S W E A : Type 0} {Q : S → A → Type 0} {R : S → E → Type 0} {Q' : W → A → Type 0}
    {R' : W → E → Type 0} (f : S → W) {r : S × Reply E A}
    → Post Q R r
    → ((s : S) (a : A) → Q s a → Q' (f s) a)
    → ((s : S) (e : E) → R s e → R' (f s) e)
    → Post Q' R' (f r.0, r.1)
Post-inside f (returned {w} {a} h) g k = returned (g w a h)
Post-inside f (thrown {w} {e} h) g k = thrown (k w e h)

-- What is known of a run, and of the error that it throws.
pub Post-raised :
    {W E A : Type 0} {Q : W → A → Type 0} {R : W → E → Type 0} {S : E → Type 0} {r : W × Reply E A}
    → Post Q R r
    → ((e : E) → r.1 ≡ throw e → S e)
    → Post Q (λ w e. R w e × S e) r
Post-raised (returned h) k = returned h
Post-raised (thrown {w} {e} h) k = thrown (h, k e refl)

-- What a run ends with, and what its state is like however it ends.
pub Post-both :
    {W E A : Type 0} {Q : W → A → Type 0} {R : W → E → Type 0} {P : W → Type 0} {r : W × Reply E A}
    → Post Q R r
    → P r.0
    → Post (λ w a. Q w a × P w) (λ w e. R w e × P w) r
Post-both (returned h) k = returned (h, k)
Post-both (thrown h) k = thrown (h, k)

-- What is known of a run that threw: it did not succeed.
pub Post-threw :
    {W E A : Type 0} {Q : W → A → Type 0} {R : W → E → Type 0} {r : W × Reply E A}
    → Post Q R r
    → Post Q (λ w e. R w e × (¬ Succeeds r)) r
Post-threw (returned h) = returned h
Post-threw (thrown h) = thrown (h, λ s. s)

module _ {W E A : Type 0} {Q' : W → A → Type 0} {R' : W → E → Type 0} where
  after-ok :
      (a : A) {r : W × Reply E (Unit {0})} → Post (λ w _. Q' w a) R' r → Post Q' R' (after (ok a) r)
  after-ok a (returned h) = returned h
  after-ok a (thrown h) = thrown h

  after-throw :
      (e : E) {r : W × Reply E (Unit {0})}
      → Post (λ w _. R' w e) R' r
      → Post Q' R' (after (throw e) r)
  after-throw e (returned h) = thrown h
  after-throw e (thrown h) = thrown h

  -- A `finally` clause: what it does after a normal return, and after a throw.
  pub Post-finally :
      {Q : W → A → Type 0} {R : W → E → Type 0} (f : Action W E (Unit {0})) {r : W × Reply E A}
      → Post Q R r
      → ((w : W) (a : A) → Q w a → Post (λ v _. Q' v a) R' (f w))
      → ((w : W) (e : E) → R w e → Post (λ v _. R' v e) R' (f w))
      → Post Q' R' (finally f r)
  Post-finally f (returned {w} {a} h) k l = after-ok a (k w a h)
  Post-finally f (thrown {w} {e} h) k l = after-throw e (l w e h)
