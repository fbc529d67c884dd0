-- ===== src/Coordinator/Snapshot.antt =====
-- Saving and loading the job table (crates/coordinator/src/persistence.rs).
use mathlib.Core.List.{Mem, mem-cons, not-mem-nil, mem-cons_self, mem-cons_of_mem}
use mathlib.Core.Logic.Or
use proof_job_zk.Base.{
  ◌≡◌, ◌≢◌, refl, sym, ap, ◌∙◌, String, List, [], ◌∷◌, none, some, Result, ok, err, arith, ◌⊎◌, inl,
  inr, map, Option-cases, Result-cases, false,
}
use proof_job_zk.Core.Ids.{JobId}
use proof_job_zk.Core.Job.{Job}
use proof_job_zk.Deps.Encoding.{Encoding, JsonLaws}
use proof_job_zk.Coordinator.State.{Runtime, Jobs}
use proof_job_zk.Coordinator.Persistence.{
  Disk, WriteAnswer, RenameAnswer, written, write_failed, renamed, rename_failed, insert_all,
  is_empty, load_jobs, save_jobs, write_out,
}

not_empty : (text : String) → text ≢ "" → is_empty text ≡ false
not_empty String.[] filled = absurd (filled refl)
not_empty (String.◌∷◌ c s) filled = refl

module _ (E : Encoding) (R : Runtime) where
  open R use {jobs_map as table}

  -- Every job of the table stands under its own identifier.
  abbrev pub IsKeyed : Jobs R → Type 0
  IsKeyed jobs = (id : JobId) (job : Job) → table.get id jobs ≡ some job → job.id ≡ id

  module _ (jobs : Jobs R) (keyed : IsKeyed jobs) where
    -- The list holds nothing but entries of the table.
    abbrev IsPart : List (JobId × Job) → Type 0
    IsPart entries = (id : JobId) (job : Job) → Mem (id, job) entries → table.get id jobs ≡ some job

    abbrev values : List (JobId × Job) → List Job
    values entries = map (λ (e : JobId × Job). e.1) entries

    insert_all-kept :
        (entries : List (JobId × Job)) (acc : Jobs R) (id : JobId)
        → IsPart entries
        → table.get id acc ≡ table.get id jobs
        → table.get id (insert_all E R (values entries) acc) ≡ table.get id jobs
    unfolding insert_all
    insert_all-kept [] acc id part h = h
    insert_all-kept ((k, job) ∷ entries) acc id part h =
        let found = part k job mem-cons_self in
        insert_all-kept entries (table.insert job.id job acc) id
          (λ i j m. part i j (mem-cons_of_mem (k, job) m))
          (ground (arith, table.get-insert id job.id job acc, found, keyed k job found))

    insert_all-found :
        (entries : List (JobId × Job)) (acc : Jobs R) (id : JobId) (job : Job)
        → IsPart entries
        → Mem (id, job) entries
        → table.get id (insert_all E R (values entries) acc) ≡ some job
    unfolding insert_all
    insert_all-found [] acc id job part m = absurd (not-mem-nil m)
    insert_all-found ((k, other) ∷ entries) acc id job part m =
        let later : IsPart entries = λ i j there. part i j (mem-cons_of_mem (k, other) there) in
        let found = part id job m in
        Or.elim (hlevel) (mem-cons.0 m)
          (λ same.
            insert_all-kept entries (table.insert other.id other acc) id later
              (ground (arith, table.get-insert id other.id other acc, found, keyed id job found))
            ∙ found)
          (λ there. insert_all-found entries (table.insert other.id other acc) id job later there)

    -- The jobs of the table, put into a new one, make up the same table.
    insert_all-iter :
        (id : JobId)
        → table.get id (insert_all E R (values (table.iter jobs)) table.new) ≡ table.get id jobs
    insert_all-iter id =
        let part : IsPart (table.iter jobs) = λ i j m. (table.mem-iter i j jobs).0 m in
        elim (Option-cases (table.get id jobs)) [
          | inl unknown ↦
              insert_all-kept (table.iter jobs) table.new id part (table.get-new id ∙ sym unknown)
          | inr (job, found) ↦
              insert_all-found (table.iter jobs) table.new id job part
                ((table.mem-iter id job jobs).1 found)
              ∙ sym found
        ]

    load_jobs-text :
        (disk : Disk) (text : String) (entries : List Job)
        → disk.snapshot ≡ some text
        → text ≢ ""
        → E.json_from_str text ≡ ok entries
        → load_jobs E R disk ≡ insert_all E R entries table.new
    unfolding load_jobs
    load_jobs-text disk text entries there filled parsed = ground (arith, not_empty text filled)

    -- Where JSON texts are read back and every job stands under its own identifier, saving either
    -- succeeds, and then loading gives every entry of the table back; or it fails, and then loading
    -- gives what it gave before. That holds whatever the encoder, the write and the rename answer.
    pub load_jobs-save_jobs :
        (laws : JsonLaws E) (disk : Disk) (write : WriteAnswer) (rename : RenameAnswer)
        → let (answer, disk') = save_jobs E R disk jobs write rename in
          ((answer ≡ ok tt)
            × ((id : JobId) → table.get id (load_jobs E R disk') ≡ table.get id jobs))
          ⊎ ((e : String) × (answer ≡ err e) × (load_jobs E R disk' ≡ load_jobs E R disk))
    unfolding save_jobs load_jobs
    load_jobs-save_jobs laws disk write rename =
        elim (Result-cases (E.json_to_string (values (table.iter jobs)))) [
          | inr (e, failed) ↦
              let answered : save_jobs E R disk jobs write rename ≡ (err e, disk) =
                rw (failed, save_jobs) refl in
              inr (
                e,
                ap (λ (p : Result String (Unit {0}) × Disk). p.0) answered,
                ap (λ (p : Result String (Unit {0}) × Disk). load_jobs E R p.1) answered,
              )
          | inl (text, made) ↦
              let (parsed, filled) = laws.json_from_str-json_to_string _ text made in
              rw (made, save_jobs) (saved text parsed filled write rename)
        ]
      where
        saved :
            (text : String)
            → E.json_from_str text ≡ ok (values (table.iter jobs))
            → text ≢ ""
            → (write : WriteAnswer) (rename : RenameAnswer)
            → let (answer, disk') = write_out E R disk text write rename in
              ((answer ≡ ok tt)
                × ((id : JobId) → table.get id (load_jobs E R disk') ≡ table.get id jobs))
              ⊎ ((e : String) × (answer ≡ err e) × (load_jobs E R disk' ≡ load_jobs E R disk))
        saved text parsed filled written renamed = inl (
          refl,
          λ id.
              ap (table.get id) (
                load_jobs-text (record { snapshot = some text; temporary = none }) text
                  (values (table.iter jobs)) refl filled parsed)
              ∙ insert_all-iter id,
        )
        saved text parsed filled written (rename_failed e) = inr (e, refl, refl)
        saved text parsed filled (write_failed part e) _ = inr (e, refl, refl)
