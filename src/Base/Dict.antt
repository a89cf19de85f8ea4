-- ===== src/Base/Dict.antt =====
-- A Python dict with numbers for keys, in insertion order.
use Prim.Native.Nat.{ℕ}
use mathlib.Core.Path.{◌≡◌, refl}
use mathlib.Core.Logic.{◌≢◌}
use mathlib.Core.List.{List, [], ◌∷◌}
use mathlib.Core.Option.{Option, none, some}
use native.Mathlib.Omega.{arith}
use tik_rec.Base.Tests.{◌==◌, if◌then◌else◌}

abbrev pub Dict {ℓ} : Type ℓ → Type ℓ
Dict V = List (ℕ × V)

module _ {ℓ} {V : Type ℓ} where
  -- d.get(k)
  abbrev pub get : Dict V → ℕ → Option V
  get [] k = none
  get (e ∷ d) k = if e.0 == k then some e.1 else get d k

  -- d[k] = v
  abbrev pub put : Dict V → ℕ → V → Dict V
  put [] k v = (k, v) ∷ []
  put (e ∷ d) k v = if e.0 == k then (k, v) ∷ d else e ∷ put d k v

  -- d.pop(k, None)
  abbrev pub pop : Dict V → ℕ → Dict V
  pop [] k = []
  pop (e ∷ d) k = if e.0 == k then d else e ∷ pop d k

module _ {ℓ κ} {V : Type ℓ} (P : V → Type κ) where
  -- Every value satisfies `P`.
  abbrev pub Values : Dict V → Type κ
  Values [] = Unit
  Values (e ∷ d) = P e.1 × Values d

  pub Values-get : (d : Dict V) (k : ℕ) (v : V) → Values d → get d k ≡ some v → P v
  Values-get [] k v h e = cc
  Values-get (x ∷ d) k v h e = ground (arith, Values-get d k v h.1)

  pub Values-put : (d : Dict V) (k : ℕ) (v : V) → Values d → P v → Values (put d k v)
  Values-put [] k v h p = (p, tt)
  Values-put (x ∷ d) k v h p = ground (arith, Values-put d k v h.1 p)

  pub Values-pop : (d : Dict V) (k : ℕ) → Values d → Values (pop d k)
  Values-pop [] k h = tt
  Values-pop (x ∷ d) k h = ground (arith, Values-pop d k h.1)

module _ {ℓ} {V : Type ℓ} where
  pub get-put_self : (d : Dict V) (k : ℕ) (v : V) → get (put d k v) k ≡ some v
  get-put_self [] k v = ground arith
  get-put_self (x ∷ d) k v = ground (arith, get-put_self d k v)

  pub get-put_ne : (d : Dict V) (k j : ℕ) (v : V) → k ≢ j → get (put d k v) j ≡ get d j
  get-put_ne [] k j v h = ground arith
  get-put_ne (x ∷ d) k j v h = ground (arith, get-put_ne d k j v h)

  pub get-pop_ne : (d : Dict V) (k j : ℕ) → k ≢ j → get (pop d k) j ≡ get d j
  get-pop_ne [] k j h = refl
  get-pop_ne (x ∷ d) k j h = ground (arith, get-pop_ne d k j h)
