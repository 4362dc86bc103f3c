-- ===== src/Migration/Replace.antt =====
-- Replacing a tablet by one with the same id and interval keeps a table's cut and its ids.
use le_kv.Base.{ℕ, zero, suc, some, List, [], ◌∷◌, ◌≡◌, sym, ◌∙◌, ap, get_elem?, set}
use le_kv.Routing.{Tablet, Table}
use le_kv.Routing.Partition.{CoversFrom}
use le_kv.Balancer.Ids.{IdsBelow, Absent, IdsDistinct}
use le_kv.Balancer.Split.{IsTable}

-- A tablet, and one with the same id and interval.
pub record SameSpan (t u : Tablet) : Type 0 where
  pub id : u.id ≡ t.id
  pub start : u.start_key ≡ t.start_key
  pub end : u.end_key ≡ t.end_key

module _ (t u : Tablet) (span : SameSpan t u) where
  CoversFrom-set :
      (from : List ℕ) (ts : List Tablet) (idx : ℕ)
      → get_elem? ts idx ≡ some t
      → CoversFrom from ts
      → CoversFrom from (set ts idx u)
  CoversFrom-set from [] idx g v = v
  CoversFrom-set from (x ∷ []) zero g v =
      let same : x ≡ t = cc in
      let s = span.start in
      let e = span.end in
      (s ∙ (ap (λ y. y.start_key) (sym same) ∙ v.0), e ∙ (ap (λ y. y.end_key) (sym same) ∙ v.1))
  CoversFrom-set from (x ∷ []) (suc idx) g v = cc
  CoversFrom-set from (x ∷ w ∷ rest) zero g v =
      let same : x ≡ t = cc in
      let s = span.start in
      let e : u.end_key ≡ x.end_key = span.end ∙ ap (λ y. y.end_key) (sym same) in
      (s ∙ (ap (λ y. y.start_key) (sym same) ∙ v.0), rw e (v.1), rw e (v.2))
  CoversFrom-set from (x ∷ w ∷ rest) (suc zero) g v =
      (v.0, v.1, CoversFrom-set x.end_key (w ∷ rest) zero g v.2)
  CoversFrom-set from (x ∷ w ∷ rest) (suc (suc idx)) g v =
      (v.0, v.1, CoversFrom-set x.end_key (w ∷ rest) (suc idx) g v.2)

  IdsBelow-set :
      (n : ℕ) (ts : List Tablet) (idx : ℕ)
      → get_elem? ts idx ≡ some t
      → IdsBelow n ts
      → IdsBelow n (set ts idx u)
  IdsBelow-set n [] idx g v = v
  IdsBelow-set n (x ∷ ts) zero g v =
      let same : u.id ≡ x.id = span.id ∙ ap (λ y. y.id) (sym head) in (rw same (v.0), v.1)
    where
      head : x ≡ t
      head = cc
  IdsBelow-set n (x ∷ ts) (suc idx) g v = (v.0, IdsBelow-set n ts idx g v.1)

  Absent-set :
      (n : ℕ) (ts : List Tablet) (idx : ℕ)
      → get_elem? ts idx ≡ some t
      → Absent n ts
      → Absent n (set ts idx u)
  Absent-set n [] idx g v = v
  Absent-set n (x ∷ ts) zero g v =
      let same : u.id ≡ x.id = span.id ∙ ap (λ y. y.id) (sym head) in (rw same (v.0), v.1)
    where
      head : x ≡ t
      head = cc
  Absent-set n (x ∷ ts) (suc idx) g v = (v.0, Absent-set n ts idx g v.1)

  IdsDistinct-set :
      (ts : List Tablet) (idx : ℕ)
      → get_elem? ts idx ≡ some t
      → IdsDistinct ts
      → IdsDistinct (set ts idx u)
  IdsDistinct-set [] idx g v = v
  IdsDistinct-set (x ∷ ts) zero g v =
      let same : u.id ≡ x.id = span.id ∙ ap (λ y. y.id) (sym head) in (rw same (v.0), v.1)
    where
      head : x ≡ t
      head = cc
  IdsDistinct-set (x ∷ ts) (suc idx) g v =
      (Absent-set x.id ts idx g v.0, IdsDistinct-set ts idx g v.1)

  -- So a table stays sound.
  pub IsTable-set :
      (table : Table) (idx epoch : ℕ)
      → get_elem? table.tablets idx ≡ some t
      → IsTable table
      → IsTable (record table { tablets = set table.tablets idx u; epoch = epoch })
  IsTable-set table idx epoch g v = record {
    partition = CoversFrom-set [] table.tablets idx g v.partition;
    below = IdsBelow-set table.next_tablet_id table.tablets idx g v.below;
    distinct = IdsDistinct-set table.tablets idx g v.distinct;
  }
