-- ===== src/Client/Retained.antt =====
-- The invariant of the replay buffer of packages/client/src/client.ts, and what its filters do to
-- the numbers of the frames that it holds.
pub mod Laws
pub mod Buffer
pub mod Sending
pub mod Runs
pub mod Connection
use vicoop_bridge.Prelude.{
  ℕ, suc, ◌+◌, ◌-◌, ◌*◌, ◌≤◌, ◌<◌, ◌≡◌, String, Bool, true, false, not, ◌&&◌, ◌||◌, some, List, [],
  ◌∷◌, ◌++◌, ◌==◌, string_eq, ltb, if◌then◌else◌, length, length-append, keep, arith, refl, ==_iff,
  Bool-cases, inl, inr, IsChain,
}
use vicoop_bridge.Client.State.{ClientOptions, ClientRun, PendingFrame, Client, limit_or}
use vicoop_bridge.Client.Pending.{sum_bytes}

-- The numbers of the retained frames of an execution, oldest first.
abbrev pub numbers : String → List PendingFrame → List ℕ
numbers x [] = []
numbers x (e ∷ rest) =
    let more = numbers x rest in if e.execution_id == x then e.seq ∷ more else more

abbrev pub is_on : ClientOptions → Bool
is_on o =
    ltb 0 (limit_or o.max_pending_frames 2000)
    && ltb 0 (limit_or o.max_pending_bytes (4 * 1024 * 1024))
    && ltb 0 (limit_or o.max_pending_age_ms 60000)

pub record Retains (o : ClientOptions) (es : List PendingFrame) (bytes : ℕ) (runs : ℕ → ClientRun)
    : Type 0 where
  pub counted : bytes ≡ sum_bytes es
  pub few : length es ≤ limit_or o.max_pending_frames 2000
  pub small : sum_bytes es ≤ limit_or o.max_pending_bytes (4 * 1024 * 1024)
  pub none_if_off : is_on o ≡ false → es ≡ []
  pub chained :
      (r : ℕ) (x : String)
      → (runs r).execution_id ≡ some x
      → IsChain (numbers x es) (runs r).next_seq
  pub alone :
      (q r : ℕ) (x : String)
      → (runs q).execution_id ≡ some x
      → (runs r).execution_id ≡ some x
      → q ≡ r

-- The retained bytes are counted and within the limits, nothing is retained when retention is off,
-- and what is retained of a run's execution are its last frames, in order and without a gap.
abbrev pub IsRetained : Client → Type 0
IsRetained s = Retains s.opts s.pending s.pending_bytes s.runs

pub sum_bytes-keep :
    (p : PendingFrame → Bool) (es : List PendingFrame)
    → sum_bytes (keep p es) + sum_bytes (keep (λ e. not (p e)) es) ≡ sum_bytes es
sum_bytes-keep p [] = refl
sum_bytes-keep p (e ∷ es) = ground (arith, sum_bytes-keep p es)

pub length-keep :
    (p : PendingFrame → Bool) (es : List PendingFrame) → length (keep p es) ≤ length es
length-keep p [] = omega arith
length-keep p (e ∷ es) = ground (arith, length-keep p es)

pub sum_bytes-append :
    (es : List PendingFrame) (e : PendingFrame) → sum_bytes (es ++ e ∷ []) ≡ sum_bytes es + e.bytes
sum_bytes-append [] e = omega arith
sum_bytes-append (d ∷ es) e = omega (arith, sum_bytes-append es e)

-- The frames of an execution that are numbered after `accepted`, and those of all others
abbrev pub is_unaccepted : String → ℕ → PendingFrame → Bool
is_unaccepted x accepted e = not (e.execution_id == x) || ltb accepted e.seq

abbrev pub is_of_other : String → PendingFrame → Bool
is_of_other x e = not (e.execution_id == x)

pub numbers-accept :
    (x y : String) (accepted : ℕ) (es : List PendingFrame)
    → numbers x (keep (is_unaccepted y accepted) es)
      ≡ (if y == x then keep (ltb accepted) (numbers x es) else numbers x es)
numbers-accept x y accepted [] = ground arith
numbers-accept x y accepted (e ∷ es) = ground (
  arith,
  numbers-accept x y accepted es,
  ==_iff y x,
  ==_iff e.execution_id x,
  ==_iff e.execution_id y,
)

pub numbers-remove :
    (x y : String) (es : List PendingFrame)
    → numbers x (keep (is_of_other y) es) ≡ (if y == x then [] else numbers x es)
numbers-remove x y [] = ground arith
numbers-remove x y (e ∷ es) =
    ground
      (arith, numbers-remove x y es, ==_iff y x, ==_iff e.execution_id x, ==_iff e.execution_id y)

pub numbers-append :
    (x : String) (es : List PendingFrame) (e : PendingFrame)
    → numbers x (es ++ e ∷ [])
      ≡ (if e.execution_id == x then numbers x es ++ e.seq ∷ [] else numbers x es)
numbers-append x [] e = ground arith
numbers-append x (d ∷ es) e = ground (arith, numbers-append x es e)

keep-all : (k : ℕ) (ns : List ℕ) (n : ℕ) → IsChain ns n → k + length ns < n → keep (ltb k) ns ≡ ns
keep-all k [] n c h = refl
keep-all k (a ∷ ns) n c h = ground (arith, keep-all k ns n c.1 (omega arith), c.0)

pub keep-IsChain : (k : ℕ) (ns : List ℕ) (n : ℕ) → IsChain ns n → IsChain (keep (ltb k) ns) n
keep-IsChain k [] n c = tt
keep-IsChain k (a ∷ ns) n c = elim (Bool-cases (ltb k a)) [
  | inr accepted ↦ rw accepted (keep-IsChain k ns n c.1)
  | inl later ↦ rw (later, keep-all k ns n c.1 (ground (arith, c.0))) c
]

pub append-IsChain : (ns : List ℕ) (n : ℕ) → IsChain ns n → IsChain (ns ++ n ∷ []) (suc n)
append-IsChain [] n c = (omega arith, tt)
append-IsChain (a ∷ ns) n c =
    (omega (arith, length-append ns (n ∷ []), c.0), append-IsChain ns n c.1)
