-- ===== src/Balancer/Ids.antt =====
-- The ids of the tablets of a table are distinct and below the next id.
use le_kv.Base.{ℕ, zero, suc, ◌<◌, ◌≤◌, List, [], ◌∷◌, ◌≢◌, sym, arith}
use le_kv.Routing.{Tablet}
use le_kv.Balancer.Cut.{replaced}

-- Every id is below `n`.
abbrev pub IdsBelow : ℕ → List Tablet → Type 0
IdsBelow n [] = Unit
IdsBelow n (t ∷ ts) = (t.id < n) × IdsBelow n ts

-- No tablet has the id `n`.
abbrev pub Absent : ℕ → List Tablet → Type 0
Absent n [] = Unit
Absent n (t ∷ ts) = (t.id ≢ n) × Absent n ts

-- No two tablets have the same id.
abbrev pub IdsDistinct : List Tablet → Type 0
IdsDistinct [] = Unit
IdsDistinct (t ∷ ts) = Absent t.id ts × IdsDistinct ts

pub IdsBelow-Absent : (n : ℕ) (ts : List Tablet) → IdsBelow n ts → (m : ℕ) → n ≤ m → Absent m ts
IdsBelow-Absent n [] b m h = tt
IdsBelow-Absent n (t ∷ ts) b m h = (λ e. omega arith, IdsBelow-Absent n ts b.1 m h)

pub IdsBelow-mono : (n m : ℕ) (ts : List Tablet) → n ≤ m → IdsBelow n ts → IdsBelow m ts
IdsBelow-mono n m [] h b = tt
IdsBelow-mono n m (t ∷ ts) h b = (omega arith, IdsBelow-mono n m ts h b.1)

module _ (l r : Tablet) where
  pub IdsBelow-replaced :
      (n m : ℕ) (ts : List Tablet) (idx : ℕ)
      → n ≤ m
      → l.id < m
      → r.id < m
      → IdsBelow n ts
      → IdsBelow m (replaced ts idx l r)
  IdsBelow-replaced n m [] idx h hl hr b = (hr, tt)
  IdsBelow-replaced n m (t ∷ ts) zero h hl hr b = (hl, (hr, IdsBelow-mono n m ts h b.1))
  IdsBelow-replaced n m (t ∷ ts) (suc idx) h hl hr b =
      (omega arith, IdsBelow-replaced n m ts idx h hl hr b.1)

  Absent-replaced :
      (i : ℕ) (ts : List Tablet) (idx : ℕ)
      → l.id ≢ i
      → r.id ≢ i
      → Absent i ts
      → Absent i (replaced ts idx l r)
  Absent-replaced i [] idx hl hr a = (hr, tt)
  Absent-replaced i (t ∷ ts) zero hl hr a = (hl, (hr, a.1))
  Absent-replaced i (t ∷ ts) (suc idx) hl hr a = (a.0, Absent-replaced i ts idx hl hr a.1)

  -- Two fresh ids keep the ids distinct.
  pub IdsDistinct-replaced :
      (n : ℕ) (ts : List Tablet) (idx : ℕ)
      → n ≤ l.id
      → n ≤ r.id
      → l.id ≢ r.id
      → IdsBelow n ts
      → IdsDistinct ts
      → IdsDistinct (replaced ts idx l r)
  IdsDistinct-replaced n [] idx hl hr ne b d = (tt, tt)
  IdsDistinct-replaced n (t ∷ ts) zero hl hr ne b d =
      ((λ e. ne (sym e), IdsBelow-Absent n ts b.1 l.id hl), (IdsBelow-Absent n ts b.1 r.id hr, d.1))
  IdsDistinct-replaced n (t ∷ ts) (suc idx) hl hr ne b d = (
    Absent-replaced t.id ts idx (λ e. omega arith) (λ e. omega arith) d.0,
    IdsDistinct-replaced n ts idx hl hr ne b.1 d.1,
  )
