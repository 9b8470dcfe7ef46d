-- ===== src/Sql/Survivors.antt =====
-- What is left of the tables when the rows of some runs go.
use taskflow_meter.Prelude.{
  ℕ, Bool, false, not, none, some, List, [], ◌∷◌, String, ◌≡◌, refl, arith, eq_iff, ltb,
  if◌then◌else◌, is_some,
}
use taskflow_meter.Prelude.Dict
use taskflow_meter.Prelude.Dict.{Dict, Distinct, mem, mem-keys}
use taskflow_meter.Prelude.Select.{keep}
use taskflow_meter.Events.{Event}
use taskflow_meter.Sql.Rows.{FlowRow}
use taskflow_meter.Sql.Statements.{stale_keys}
use taskflow_meter.Sql.Keys.{own}

-- what is left of a table whose keys `ks` are gone
abbrev pub survives : List String → String × FlowRow → Bool
survives ks kv = not (mem kv.0 ks)

pub get-keep :
    (ks : List String) (r : String) (d : Dict FlowRow)
    → Dict.get r (keep (survives ks) d) ≡ (if mem r ks then none else Dict.get r d)
unfolding keep Dict.get
get-keep ks r [] = ground arith
get-keep ks r ((k, row) ∷ d) = ground (arith, get-keep ks r d, eq_iff r k)

mem-keep :
    (ks : List String) (r : String) (d : Dict FlowRow)
    → mem r (Dict.keys d) ≡ false
    → mem r (Dict.keys (keep (survives ks) d)) ≡ false
unfolding keep
mem-keep ks r [] h = refl
mem-keep ks r ((k, row) ∷ d) h = ground (arith, mem-keep ks r d)

pub keep-Distinct :
    (ks : List String) (d : Dict FlowRow)
    → Distinct (Dict.keys d)
    → Distinct (Dict.keys (keep (survives ks) d))
unfolding keep
keep-Distinct ks [] h = tt
keep-Distinct ks ((k, row) ∷ d) h = ground (arith, keep-Distinct ks d h.1, mem-keep ks k d h.0)

abbrev pub spared : List String → Event → Bool
spared ks x = not (mem x.run_id ks)

pub own-spared :
    (ks : List String) (r : String) (es : List Event)
    → own r (keep (spared ks) es) ≡ (if mem r ks then [] else own r es)
unfolding keep
own-spared ks r [] = ground arith
own-spared ks r (x ∷ xs) = ground (arith, own-spared ks r xs, eq_iff x.run_id r)

-- the run of a row that is too old is on the list, and no other
pub mem-stale_keys :
    (before : ℕ) (r : String) (d : Dict FlowRow)
    → Distinct (Dict.keys d)
    → mem r (stale_keys before d)
      ≡ elim (Dict.get r d) as (λ _. Bool) [ none ↦ false | some row ↦ ltb row.observed_at before ]
unfolding Dict.get
mem-stale_keys before r [] h = refl
mem-stale_keys before r ((k, row) ∷ d) h =
    ground (arith, mem-stale_keys before r d h.1, h.0, eq_iff r k, mem-keys r d, none_there)
  where
    none_there : mem r (Dict.keys d) ≡ is_some (Dict.get r d)
    none_there = mem-keys r d
