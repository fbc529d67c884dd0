-- ===== src/Deps/LruCache.antt =====
-- lru's `LruCache`, as crates/gossip uses it: a set of keys of bounded size. `contents` lists the
-- keys, the most recently used first.
use proof_job_zk.Base.{ℕ, ◌≡◌, Bool, true, false, List, [], ◌∷◌, ite, take, if◌then◌else◌}

module _ {K : Type 0} (dec : Discrete K) where
  abbrev pub contains : K → List K → Bool
  contains k [] = false
  contains k (x ∷ xs) = ite (dec x k) true (contains k xs)

  abbrev pub remove : K → List K → List K
  remove k [] = []
  remove k (x ∷ xs) = let rest = remove k xs in ite (dec x k) rest (x ∷ rest)

pub record LruCache (K : Type 0) (dec : Discrete K) : Type 1 where
  pub Cache : Type 0
  pub new : ℕ → Cache
  pub cap : Cache → ℕ
  pub contents : Cache → List K
  -- `get(k).is_some()`, which makes the key the most recent one, and `put(k, ())`
  pub get : K → Cache → Bool × Cache
  pub put : K → Cache → Cache
  pub contents-new : (n : ℕ) → contents (new n) ≡ []
  pub cap-new : (n : ℕ) → cap (new n) ≡ n
  pub get_lem : (k : K) (c : Cache) → (get k c).0 ≡ contains dec k (contents c)
  pub contents-get :
      (k : K) (c : Cache)
      → contents (get k c).1
        ≡ (if contains dec k (contents c) then k ∷ remove dec k (contents c) else contents c)
  pub cap-get : (k : K) (c : Cache) → cap (get k c).1 ≡ cap c
  pub contents-put :
      (k : K) (c : Cache) → contents (put k c) ≡ take (cap c) (k ∷ remove dec k (contents c))
  pub cap-put : (k : K) (c : Cache) → cap (put k c) ≡ cap c
