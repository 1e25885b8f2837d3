-- ===== src/Effects.antt =====
-- Asynchronous code that reads and writes a state and may throw. What was written before a throw
-- stays written, so the state comes back beside the error too. `await` is sequencing.
pub mod Post
use fincart_assissment.Common.{◌≡◌, refl}

pub data Reply {ℓ} (E A : Type ℓ) : Type ℓ where
  ok : A → Reply E A
  throw : E → Reply E A

abbrev pub Action {ℓ} : Type ℓ → Type ℓ → Type ℓ → Type ℓ
Action W E A = W → W × Reply E A

module _ {ℓ} {W E A : Type ℓ} where
  abbrev pub return : A → Action W E A
  return a w = (w, ok a)

  abbrev pub raise : E → Action W E A
  raise e w = (w, throw e)

abbrev pub continue {ℓ} : {W E A B : Type ℓ} → (A → Action W E B) → W × Reply E A → W × Reply E B
continue f (w, ok a) = f a w
continue f (w, throw e) = (w, throw e)

abbrev pub recover {ℓ} : {W E A : Type ℓ} → (E → Action W E A) → W × Reply E A → W × Reply E A
recover h (w, ok a) = (w, ok a)
recover h (w, throw e) = h e w

infixl 5 ◌>>=◌ ◌>>◌
abbrev pub ◌>>=◌ {ℓ} : {W E A B : Type ℓ} → Action W E A → (A → Action W E B) → Action W E B
◌>>=◌ m f w = continue f (m w)

abbrev pub ◌>>◌ {ℓ} : {W E A B : Type ℓ} → Action W E A → Action W E B → Action W E B
◌>>◌ m n w = continue (λ _. n) (m w)

-- `try { m } catch (error) { h }`.
abbrev pub try_catch {ℓ} : {W E A : Type ℓ} → Action W E A → (E → Action W E A) → Action W E A
try_catch m h w = recover h (m w)

abbrev pub after {ℓ} : {W E A : Type ℓ} → Reply E A → W × Reply E (Unit {ℓ}) → W × Reply E A
after r (w, ok _) = (w, r)
after r (w, throw e) = (w, throw e)

-- `try { m } finally { f }`: an error of `f` takes the place of the result.
abbrev pub finally {ℓ} : {W E A : Type ℓ} → Action W E (Unit {ℓ}) → W × Reply E A → W × Reply E A
finally f (w, r) = after r (f w)
