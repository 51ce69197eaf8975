-- ===== src/Csi/Locks/Exclusion.antt =====
-- internal/csi/locks.go under concurrent requests: any number of handlers take and release keys,
-- in any order. Each call of the locker is one step, since it runs under the locker's mutex.
use nomad_csi_driver.Base.{
  ℕ, Text, ◌≡◌, ◌==◌, true, false, some, none, [], arith, nat_eq, text_eq, Bool-cases, inl, inr,
}
use nomad_csi_driver.Base.Map.{
  Map, lookup, insert, erase, has, lookup-insert, lookup-erase, has-insert, has-erase,
}
use nomad_csi_driver.Csi.Locks.{KeyedLocker, try_acquire, release}

-- The locker, and for each running handler, by a number of its own, the key that it works under.
pub record System : Type 0 where
  pub locker : KeyedLocker
  pub running : Map ℕ Text

pub data Step (s : System) : System → Type 0 where
  enter :
      (r : ℕ) (key : Text)
      → lookup r s.running ≡ none
      → (try_acquire key s.locker).0 ≡ true
      → Step s (record { locker = (try_acquire key s.locker).1; running = insert r key s.running })
  reject :
      (key : Text)
      → (try_acquire key s.locker).0 ≡ false
      → Step s (record { locker = (try_acquire key s.locker).1; running = s.running })
  leave :
      (r : ℕ) (key : Text)
      → lookup r s.running ≡ some key
      → Step s (record { locker = release key s.locker; running = erase r s.running })

abbrev pub init : System
init = record { locker = record { held = [] }; running = [] }

pub data Reach : System → Type 0 where
  start : Reach init
  later : {s t : System} → Reach s → Step s t → Reach t

record Inv (s : System) : Type 0 where
  held : (r : ℕ) (key : Text) → lookup r s.running ≡ some key → has key s.locker.held ≡ true
  alone :
      (q r : ℕ) (key : Text) → lookup q s.running ≡ some key → lookup r s.running ≡ some key → q ≡ r
  owner : (key : Text) → has key s.locker.held ≡ true → (r : ℕ) × (lookup r s.running ≡ some key)

module _ {s : System} (inv : Inv s) where
  enter-Inv :
      (r : ℕ) (key : Text)
      → lookup r s.running ≡ none
      → (try_acquire key s.locker).0 ≡ true
      → Inv (record { locker = (try_acquire key s.locker).1; running = insert r key s.running })
  unfolding try_acquire
  enter-Inv r key fresh free = record {
    held = λ q k e. ground (
      arith,
      lookup-insert r q key s.running,
      has-insert key k tt s.locker.held,
      inv.held q k,
      text_eq.beq_iff key k,
    );
    alone = λ p q k e f. ground (
      arith,
      lookup-insert r p key s.running,
      lookup-insert r q key s.running,
      inv.alone p q k,
      inv.held p key,
      inv.held q key,
    );
    owner = λ k h. elim (Bool-cases (key == k)) [
      | inl same ↦ (r, ground (arith, lookup-insert r r key s.running, text_eq.beq_iff key k))
      | inr other ↦
          let old : has k s.locker.held ≡ true =
            ground (arith, has-insert key k tt s.locker.held) in
          let (q, e) = inv.owner k old in (q, ground (arith, lookup-insert r q key s.running))
    ];
  }

  leave-Inv :
      (r : ℕ) (key : Text)
      → lookup r s.running ≡ some key
      → Inv (record { locker = release key s.locker; running = erase r s.running })
  unfolding release
  leave-Inv r key runs = record {
    held = λ q k e. ground (
      arith,
      lookup-erase r q s.running,
      has-erase key k s.locker.held,
      inv.held q k,
      inv.alone q r key,
      text_eq.beq_iff key k,
    );
    alone = λ p q k e f.
        ground (arith, lookup-erase r p s.running, lookup-erase r q s.running, inv.alone p q k);
    owner = λ k h.
        let old : (has k s.locker.held ≡ true) × ((key == k) ≡ false) =
          ground (arith, has-erase key k s.locker.held) in
        let (q, e) = inv.owner k old.0 in
        (q, ground (arith, lookup-erase r q s.running, text_eq.beq_iff key k));
  }

try_acquire_busy :
    (key : Text) (k : KeyedLocker) → (try_acquire key k).0 ≡ false → (try_acquire key k).1 ≡ k
unfolding try_acquire
try_acquire_busy key k h = ground arith

Step-Inv : {s t : System} → Step s t → Inv s → Inv t
Step-Inv (enter r key fresh free) inv = enter-Inv inv r key fresh free
Step-Inv (reject key busy) inv = rw (try_acquire_busy key _ busy) inv
Step-Inv (leave r key runs) inv = leave-Inv inv r key runs

Reach-Inv : {s : System} → Reach s → Inv s
Reach-Inv start = record {
  held = λ r key e. unfold lookup in cc;
  alone = λ q r key e f. unfold lookup in cc;
  owner = λ key h. unfold has in cc;
}
Reach-Inv (later r st) = Step-Inv st (Reach-Inv r)

-- In every reachable state two running handlers never work under the same key.
pub mutual_exclusion :
    {s : System} (q r : ℕ) (key : Text)
    → Reach s
    → lookup q s.running ≡ some key
    → lookup r s.running ≡ some key
    → q ≡ r
mutual_exclusion q r key reached = (Reach-Inv reached).alone q r key

-- In every reachable state a key is held exactly when some handler runs under it, so no lock leaks:
-- a key that no handler works under can be taken.
pub held_iff_running :
    {s : System} (key : Text)
    → Reach s
    → (has key s.locker.held ≡ true → (r : ℕ) × (lookup r s.running ≡ some key))
      × ((r : ℕ) → lookup r s.running ≡ some key → has key s.locker.held ≡ true)
held_iff_running key reached =
    ((Reach-Inv reached).owner key, λ r e. (Reach-Inv reached).held r key e)
