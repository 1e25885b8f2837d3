-- ===== src/Worker/Interleaving/Holders.antt =====
-- Which workers on one key have its lock, and what they know of the record.
use fincart_assissment.Common.{◌+◌, ◌≡◌, refl, true, Option, some, List, [], ◌∷◌, ◌++◌, All, arith}
use fincart_assissment.Worker.Records.{ProcessedEventRecord, processing}
use fincart_assissment.Worker.Repositories.{is_open}
use fincart_assissment.Worker.Lifecycle.{IsHeld}
use fincart_assissment.Worker.Interleaving.{
  Phase, begun, gated, entered, done, holding, failing, holds_lock, holders,
}

-- What a worker that has the lock knows of the record.
abbrev pub HeldBy : Option ProcessedEventRecord → Phase → Type 0
HeldBy o (holding attempt) =
    (d : ProcessedEventRecord) × (o ≡ some d)
    × (d.status ≡ processing)
    × (d.attempt_count ≡ attempt)
HeldBy o (failing attempt) =
    (d : ProcessedEventRecord) × (o ≡ some d) × IsHeld d × (d.attempt_count ≡ attempt)
HeldBy o _ = Unit

pub holders-append : (xs ys : List Phase) → holders (xs ++ ys) ≡ holders xs + holders ys
holders-append [] ys = omega arith
holders-append (x ∷ xs) ys = omega (arith, holders-append xs ys)

pub All-append :
    (o : Option ProcessedEventRecord) (xs ys : List Phase)
    → All (HeldBy o) xs
    → All (HeldBy o) ys
    → All (HeldBy o) (xs ++ ys)
All-append o [] ys h k = k
All-append o (x ∷ xs) ys (p, h) k = (p, All-append o xs ys h k)

pub All-split :
    (o : Option ProcessedEventRecord) (xs ys : List Phase)
    → All (HeldBy o) (xs ++ ys)
    → All (HeldBy o) xs × All (HeldBy o) ys
All-split o [] ys h = (tt, h)
All-split o (x ∷ xs) ys (p, h) = let (a, b) = All-split o xs ys h in ((p, a), b)

pub HeldBy-of_free :
    (o : Option ProcessedEventRecord) (phase : Phase) → holds_lock phase ≡ 0 → HeldBy o phase
HeldBy-of_free o begun h = tt
HeldBy-of_free o gated h = tt
HeldBy-of_free o entered h = tt
HeldBy-of_free o done h = tt
HeldBy-of_free o (holding n) h = absurd (omega arith)
HeldBy-of_free o (failing n) h = absurd (omega arith)

-- Workers without the lock know nothing.
pub All-HeldBy-of_free :
    (o : Option ProcessedEventRecord) (ws : List Phase) → holders ws ≡ 0 → All (HeldBy o) ws
All-HeldBy-of_free o [] h = tt
All-HeldBy-of_free o (w ∷ ws) h =
    (HeldBy-of_free o w (omega arith), All-HeldBy-of_free o ws (omega arith))

-- Nobody has the lock of a record that is open or missing.
abbrev pub IsFree : Option ProcessedEventRecord → Type 0
IsFree o = (d : ProcessedEventRecord) → o ≡ some d → is_open d.status ≡ true

pub free_phase :
    (o : Option ProcessedEventRecord) (phase : Phase)
    → IsFree o
    → HeldBy o phase
    → holds_lock phase ≡ 0
free_phase o begun f h = refl
free_phase o gated f h = refl
free_phase o entered f h = refl
free_phase o done f h = refl
free_phase o (holding n) f (d, e, s, c) = let x = f d e in absurd (ground arith)
free_phase o (failing n) f (d, e, s, c) = let x = f d e in absurd (ground arith)

pub free_holders :
    (o : Option ProcessedEventRecord) (ws : List Phase)
    → IsFree o
    → All (HeldBy o) ws
    → holders ws ≡ 0
free_holders o [] f h = refl
free_holders o (w ∷ ws) f (p, h) = omega (arith, free_phase o w f p, free_holders o ws f h)
