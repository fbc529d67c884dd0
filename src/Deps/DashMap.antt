-- ===== src/Deps/DashMap.antt =====
-- dashmap's `DashMap`, as far as the crates coordinator and indexer call it. Every operation locks
-- the entry that it touches, so it is one atomic step.
use mathlib.Core.List.{Mem}
use mathlib.Core.Option
use proof_job_zk.Base.{◌≡◌, ◌↔◌, Option, none, some, List, ite}

pub record DashMap (K V : Type 0) (dec : Discrete K) : Type 1 where
  pub Map : Type 0
  pub new : Map
  pub get : K → Map → Option V
  pub insert : K → V → Map → Map
  -- `get_mut` with a write back, and `entry(k).and_modify(f)`
  pub modify : K → (V → V) → Map → Map
  -- `entry(k).and_modify(f).or_insert_with(|| v)`
  pub upsert : K → (V → V) → V → Map → Map
  pub iter : Map → List (K × V)
  pub get-new : (k : K) → get k new ≡ none
  pub get-insert :
      (j k : K) (v : V) (m : Map) → get j (insert k v m) ≡ ite (dec j k) (some v) (get j m)
  pub get-modify :
      (j k : K) (f : V → V) (m : Map)
      → get j (modify k f m) ≡ ite (dec j k) (Option.map f (get j m)) (get j m)
  pub get-upsert :
      (j k : K) (f : V → V) (v : V) (m : Map)
      → get j (upsert k f v m)
        ≡ ite (dec j k) (some (Option.get_or (Option.map f (get j m)) v)) (get j m)
  -- an iteration visits the entries and nothing else
  pub mem-iter : (k : K) (v : V) (m : Map) → Mem (k, v) (iter m) ↔ (get k m ≡ some v)
