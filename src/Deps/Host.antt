-- ===== src/Deps/Host.antt =====
-- What the binaries call of std: the environment, paths and addresses; and the sockets under a
-- gossip node. The start of a process goes on, ends in an error that `main` returns, or panics.
use proof_job_zk.Base.{◌≡◌, refl, ◌⊎◌, inl, inr, String, Option, Result, ok, err, List, ℕ}

-- `std::net::SocketAddr`: the octets of the address, and the port.
pub record SocketAddr : Type 0 where
  pub ip : List ℕ
  pub port : ℕ

pub record Host : Type 0 where
  -- `std::env::var(name).ok()`
  pub var : String → Option String
  pub parse_socket_addr : String → Result String SocketAddr
  -- `Path::new(dir).join(file)`
  pub join : String → String → String

pub data Start (A : Type 0) : Type 0 where
  running : A → Start A
  failed : String → Start A
  panicked : String → Start A

infixl 5 ◌>>=◌
abbrev pub ◌>>=◌ : {A B : Type 0} → Start A → (A → Start B) → Start B
running a >>= f = f a
failed e >>= f = failed e
panicked e >>= f = panicked e

-- `r?` and `r.expect(text)`
abbrev pub or_fail : {A : Type 0} → Result String A → Start A
or_fail (ok a) = running a
or_fail (err e) = failed e

abbrev pub expect : {E A : Type 0} → Result E A → String → Start A
expect (ok a) text = running a
expect (err e) text = panicked text

-- What ran to its end ran through each part.
pub >>=-eq-running :
    {A B : Type 0} (first : Start A) (rest : A → Start B) {b : B}
    → (first >>= rest) ≡ running b
    → (a : A) × (first ≡ running a) × (rest a ≡ running b)
>>=-eq-running (running a) rest h = (a, refl, h)
>>=-eq-running (failed e) rest h = absurd cc
>>=-eq-running (panicked e) rest h = absurd cc

pub or_fail-eq-running :
    {A : Type 0} (r : Result String A) {a : A} → or_fail r ≡ running a → r ≡ ok a
or_fail-eq-running (ok a) h = cc
or_fail-eq-running (err e) h = absurd cc

pub expect-eq-running :
    {E A : Type 0} (r : Result E A) (text : String) {a : A} → expect r text ≡ running a → r ≡ ok a
expect-eq-running (ok a) text h = cc
expect-eq-running (err e) text h = absurd cc

pub Start-cases :
    {A : Type 0} (m : Start A)
    → ((a : A) × (m ≡ running a)) ⊎ ((e : String) × ((m ≡ failed e) ⊎ (m ≡ panicked e)))
Start-cases (running a) = inl (a, refl)
Start-cases (failed e) = inr (e, inl refl)
Start-cases (panicked e) = inr (e, inr refl)
