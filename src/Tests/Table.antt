-- ===== src/Tests/Table.antt =====
-- A job table for the examples: an association list in which the first entry of a key counts.
use mathlib.Core.List.{
  Mem, filter, mem-filter, mem-cons, not-mem-nil, mem-cons_self, mem-cons_of_mem,
}
use mathlib.Core.Logic.Or
use mathlib.Core.Option
use proof_job_zk.Base.{◌≡◌, ◌≢◌, refl, sym, Option, none, some, List, [], ◌∷◌, ite, arith}
use proof_job_zk.Core.Ids.{JobId, JobId-discrete}
use proof_job_zk.Core.Job.{Job}
use proof_job_zk.Deps.DashMap.{DashMap}

abbrev pub Table : Type 0
Table = List (JobId × Job)

abbrev pub get : JobId → Table → Option Job
get k [] = none
get k ((j, v) ∷ m) = ite (JobId-discrete j k) (some v) (get k m)

abbrev pub insert : JobId → Job → Table → Table
insert k v m = (k, v) ∷ m

abbrev pub modify : JobId → (Job → Job) → Table → Table
modify k f [] = []
modify k f ((j, v) ∷ m) = (j, ite (JobId-discrete j k) (f v) v) ∷ modify k f m

abbrev pub upsert : JobId → (Job → Job) → Job → Table → Table
upsert k f v m = elim (get k m) [ none ↦ insert k v m | some _ ↦ modify k f m ]

abbrev pub dec_other : (k : JobId) (e : JobId × Job) → Dec (e.0 ≢ k)
dec_other k e = elim (JobId-discrete e.0 k) [ yes p ↦ no (λ differ. differ p) | no p ↦ yes p ]

abbrev pub iter : Table → Table
iter [] = []
iter ((k, v) ∷ m) = (k, v) ∷ filter (dec_other k) (iter m)

pub get-insert :
    (j k : JobId) (v : Job) (m : Table)
    → get j (insert k v m) ≡ ite (JobId-discrete j k) (some v) (get j m)
get-insert j k v m = ground arith

pub get-modify :
    (j k : JobId) (f : Job → Job) (m : Table)
    → get j (modify k f m) ≡ ite (JobId-discrete j k) (Option.map f (get j m)) (get j m)
get-modify j k f [] = ground arith
get-modify j k f ((i, v) ∷ m) = ground (arith, get-modify j k f m)

pub get-upsert :
    (j k : JobId) (f : Job → Job) (v : Job) (m : Table)
    → get j (upsert k f v m)
      ≡ ite (JobId-discrete j k) (some (Option.get_or (Option.map f (get j m)) v)) (get j m)
get-upsert j k f v m = ground (arith, get-modify j k f m)

pub get_of_mem : (k : JobId) (v : Job) (m : Table) → Mem (k, v) (iter m) → get k m ≡ some v
get_of_mem k v [] h = absurd (not-mem-nil h)
get_of_mem k v ((j, u) ∷ m) h =
    Or.elim (hlevel) (mem-cons.0 h) (λ same. ground arith)
      (λ later.
        let (there, differ) = (mem-filter (dec_other j)).0 later in
        ground (arith, get_of_mem k v m there))

pub mem_of_get : (k : JobId) (v : Job) (m : Table) → get k m ≡ some v → Mem (k, v) (iter m)
mem_of_get k v [] h = cc
mem_of_get k v ((j, u) ∷ m) h = elim (JobId-discrete j k) [
  | yes p ↦ let e : ◌≡◌ {A = JobId × Job} (k, v) (j, u) = ground arith in rw e mem-cons_self
  | no p ↦
      mem-cons_of_mem (j, u)
        ((mem-filter (dec_other j)).1 (mem_of_get k v m (ground arith), λ same. p (sym same)))
]

abbrev pub table : DashMap JobId Job JobId-discrete
table = record {
  Map = Table;
  new = [];
  get = get;
  insert = insert;
  modify = modify;
  upsert = upsert;
  iter = iter;
  get-new = λ k. refl;
  get-insert = get-insert;
  get-modify = get-modify;
  get-upsert = get-upsert;
  mem-iter = λ k v m. (get_of_mem k v m, mem_of_get k v m);
}
