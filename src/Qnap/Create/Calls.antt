-- ===== src/Qnap/Create/Calls.antt =====
-- internal/driver/qnap/controller.go: the calls of a create, one rule for each.
use nomad_csi_driver.Base.{
  ℕ, ℤ, Text, Bool, true, false, ◌≡◌, List, ◌∷◌, int_eq, if◌then◌else◌, text_eq,
}
use nomad_csi_driver.Driver.Errors.{Result, ok, err, Io, continue, ◌>>=◌}
use nomad_csi_driver.Qnap.Appliance.{
  Client, Event, History, LunRequest, created_lun, created_target, resized_lun, deleted_target,
  got_lun, got_target, listed_luns, listed_targets, awaited_resize,
}
use nomad_csi_driver.Qnap.Session.{State, in_session, read_clock, record_call}
use nomad_csi_driver.Qnap.Session
use nomad_csi_driver.Qnap.Session.Keeps.{
  Keeps, IsSteady, in_session-Keeps, keeps_rules, Keeps-bind, Keeps-pure, Keeps-fail, Keeps-lift,
}
use nomad_csi_driver.Qnap.Session.Yields.{Post}
use nomad_csi_driver.Qnap.Controller.{mapped, attempt}
use nomad_csi_driver.Qnap.Create.Own.{IsOwn, IsOwnCall, made_lun, made_target}

module _ (cl : Client) (K : History → Type 0)
    (mono : (e : Event) (h : History) → K h → K (e ∷ h)) where
  -- What is known besides, which further calls do not change.
  abbrev pub Given : State → Type 0
  Given s = IsOwn s.history × K s.history

  Given-IsSteady : IsSteady Given
  Given-IsSteady = record { login = λ s r n h. ((tt, h.0), mono _ _ h.1); reset = λ s h. h }

  pub call-Keeps :
      {A : Type 0} (event : Result A → Event) (answer : State → Result A)
      → ((s : State) (r : Result A) → K s.history → IsOwnCall (event r) s.history)
      → Keeps Given (λ s. record_call event (answer s) s)
  call-Keeps event answer own = record { at = λ s h. ((own s (answer s) h.1, h.0), mono _ _ h.1) }

  pub if-Keeps :
      {A : Type 0} (b : Bool) (m n : Io State A)
      → Keeps Given m
      → Keeps Given n
      → Keeps Given (if b then m else n)
  if-Keeps true m n km kn = km
  if-Keeps false m n km kn = kn

  pub session-Keeps :
      {A : Type 0} (fn : ℕ → Io State A)
      → ((n : ℕ) → Keeps Given (fn n))
      → Keeps Given (in_session cl fn)
  session-Keeps fn k = in_session-Keeps cl Given Given-IsSteady fn k

  pub mapped-Keeps : {A : Type 0} (m : Io State A) → Keeps Given m → Keeps Given (mapped m)
  mapped-Keeps m k = record { at = k.at }

  pub attempt-Keeps : {A : Type 0} (m : Io State A) → Keeps Given m → Keeps Given (attempt m)
  attempt-Keeps m k = record { at = k.at }

  pub get_lun-Keeps : (n : ℕ) (i : ℤ) → Keeps Given (Session.get_lun cl n i)
  unfolding Session.get_lun
  get_lun-Keeps n i = call-Keeps (got_lun i) (λ s. cl.get_lun s.history n i) (λ s r k. tt)

  pub get_target-Keeps : (n : ℕ) (i : ℤ) → Keeps Given (Session.get_target cl n i)
  unfolding Session.get_target
  get_target-Keeps n i = call-Keeps (got_target i) (λ s. cl.get_target s.history n i) (λ s r k. tt)

  pub list_luns-Keeps : (n : ℕ) → Keeps Given (Session.list_luns cl n)
  unfolding Session.list_luns
  list_luns-Keeps n = call-Keeps listed_luns (λ s. cl.list_luns s.history n) (λ s r k. tt)

  pub list_targets-Keeps : (n : ℕ) → Keeps Given (Session.list_targets cl n)
  unfolding Session.list_targets
  list_targets-Keeps n = call-Keeps listed_targets (λ s. cl.list_targets s.history n) (λ s r k. tt)

  pub read_clock-Keeps : Keeps Given (read_clock cl)
  unfolding read_clock
  read_clock-Keeps = record { at = λ s h. ((tt, h.0), mono _ _ h.1) }

  pub create_lun-Keeps : (n : ℕ) (r : LunRequest) → Keeps Given (Session.create_lun cl n r)
  unfolding Session.create_lun
  create_lun-Keeps n r = call-Keeps (created_lun r) (λ s. cl.create_lun s.history n r) (λ s x k. tt)

  pub create_target-Keeps :
      (n : ℕ) (name : Text) (ifs : List ℤ) → Keeps Given (Session.create_target cl n name ifs)
  unfolding Session.create_target
  create_target-Keeps n name ifs =
      call-Keeps (created_target name ifs) (λ s. cl.create_target s.history n name ifs)
        (λ s x k. tt)

  pub delete_target-Keeps :
      (n : ℕ) (i : ℤ)
      → ((h : History) → K h → made_target i h ≡ true)
      → Keeps Given (Session.delete_target cl n i)
  unfolding Session.delete_target
  delete_target-Keeps n i own =
      call-Keeps (deleted_target i) (λ s. cl.delete_target s.history n i) (λ s x k. own s.history k)

  pub resize_lun-Keeps :
      (i : ℤ) (size n : ℕ)
      → ((h : History) → K h → made_lun i h ≡ true)
      → Keeps Given (Session.resize_lun cl n i size)
  unfolding Session.resize_lun
  resize_lun-Keeps i size n own =
      call-Keeps (resized_lun i size) (λ s. cl.resize_lun s.history n i size)
        (λ s x k. own s.history k)

  pub wait_for_resize-Keeps :
      (i : ℤ) (size n : ℕ) → Keeps Given (Session.wait_for_resize cl n i size)
  unfolding Session.wait_for_resize
  wait_for_resize-Keeps i size n =
      call-Keeps (awaited_resize i size) (λ s. cl.wait_for_resize s.history n i size) (λ s x k. tt)

  pub ruleset given_rules = (
    keeps_rules, if-Keeps, session-Keeps, mapped-Keeps, attempt-Keeps, get_lun-Keeps,
    get_target-Keeps, list_luns-Keeps, list_targets-Keeps, read_clock-Keeps, create_lun-Keeps,
    create_target-Keeps, resize_lun-Keeps, wait_for_resize-Keeps, delete_target-Keeps,
  )

-- What a step's answer adds to what is known.
module _ {A B : Type 0} (cl : Client) (K : History → Type 0)
    (mono : (e : Event) (h : History) → K h → K (e ∷ h)) (Q : A → History → Type 0) where
  learn :
      (r : Result A × State) (f : A → Io State B)
      → Given cl K mono r.1
      → Post (λ a s. Q a s.history) r
      → ((a : A) → Keeps (λ s. IsOwn s.history × (K s.history × Q a s.history)) (f a))
      → Given cl K mono (continue r.0 f r.1).1
  learn (err e, s) f h q k = h
  learn (ok a, s) f h q k = let after = (k a).at s (h.0, (h.1, q)) in (after.0, after.1.0)

  pub Keeps-learn :
      (m : Io State A) (f : A → Io State B)
      → Keeps (Given cl K mono) m
      → ((s : State) → Post (λ a s. Q a s.history) (m s))
      → ((a : A) → Keeps (λ s. IsOwn s.history × (K s.history × Q a s.history)) (f a))
      → Keeps (Given cl K mono) (m >>= f)
  Keeps-learn m f km post kf = record { at = λ s h. learn (m s) f (km.at s h) (post s) kf }
