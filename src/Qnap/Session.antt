-- ===== src/Qnap/Session.antt =====
-- internal/driver/qnap/client.go: the session manager, and the calls of the appliance as steps on
-- the controller's state.
pub mod Keeps
pub mod Yields
use nomad_csi_driver.Base.{ℕ, ℤ, Text, Bool, true, false, ◌||◌, List, ◌∷◌, eqb, if◌then◌else◌}
use nomad_csi_driver.Driver.Errors.{
  Error, coded, exit, api, session_invalid, canceled, deadline_exceeded, plain, status, Result, ok,
  err, Io,
}
use nomad_csi_driver.Qnap.Appliance.{
  Lun, Target, QnapSnapshot, LunRequest, Event, History, Client, logged_in, clock, got_lun,
  got_target, listed_luns, listed_targets, listed_snapshots, got_pool, created_lun, created_target,
  unmapped_lun, deleted_lun, awaited_lun_gone, resized_lun, awaited_resize, deleted_target,
  created_snapshot, deleted_snapshot, awaited_snapshot_gone,
}
use nomad_csi_driver.Qnap.Cache.{LunCache}

-- What the controller keeps: the session, the cache, and the calls that it has made.
pub record State : Type 0 where
  pub history : History
  pub session : ℕ
  pub cache : LunCache

-- 401 is Unauthorized, 403 Forbidden.
unfoldable pub is_auth_error : Error → Bool
is_auth_error session_invalid = true
is_auth_error (api code http) = eqb http 401 || eqb http 403
is_auth_error (coded c) = false
is_auth_error (exit n) = false
is_auth_error canceled = false
is_auth_error deadline_exceeded = false
is_auth_error plain = false
is_auth_error (status n) = false

-- A call: its answer, which goes on record.
abbrev pub record_call : {A : Type 0} → (Result A → Event) → Result A → State → Result A × State
record_call event a s = (a, record s { history = event a ∷ s.history })

module _ (cl : Client) where
  logged : Result ℕ → State → Result ℕ × State
  logged (ok n) s = (ok n, record s { history = logged_in (ok n) ∷ s.history; session = n })
  logged (err e) s = (err e, record s { history = logged_in (err e) ∷ s.history })

  -- `sessionManager.get`
  unfoldable pub get_session : Io State ℕ
  unfolding logged
  get_session s = if cl.valid s.session then (ok s.session, s) else logged (cl.login s.history) s

  with_session : {A : Type 0} → Result ℕ × State → (ℕ → Io State A) → Result A × State
  with_session (err e, s) fn = (err e, s)
  with_session (ok sess, s) fn = fn sess s

  retry : {A : Type 0} → (ℕ → Io State A) → Result A × State → Result A × State
  unfolding is_auth_error get_session with_session
  retry fn (ok a, s) = (ok a, s)
  retry fn (err e, s) =
      if is_auth_error e
      then with_session (get_session (record s { session = 0 })) fn
      else (err e, s)

  first_try : {A : Type 0} → (ℕ → Io State A) → Result ℕ × State → Result A × State
  unfolding retry
  first_try fn (err e, s) = (err e, s)
  first_try fn (ok sess, s) = retry fn (fn sess s)

  -- `sessionManager.do`. What a closure of the source stores in variables is its result here.
  unfoldable pub in_session : {A : Type 0} → (ℕ → Io State A) → Io State A
  unfolding first_try
  in_session fn s = first_try fn (get_session s)

  unfoldable pub read_clock : Io State ℕ
  read_clock s = let n = cl.now s.history in (ok n, record s { history = clock n ∷ s.history })

  unfoldable pub get_lun : ℕ → ℤ → Io State Lun
  get_lun sess i s = record_call (got_lun i) (cl.get_lun s.history sess i) s

  unfoldable pub get_target : ℕ → ℤ → Io State Target
  get_target sess i s = record_call (got_target i) (cl.get_target s.history sess i) s

  unfoldable pub list_luns : ℕ → Io State (List Lun)
  list_luns sess s = record_call listed_luns (cl.list_luns s.history sess) s

  unfoldable pub list_targets : ℕ → Io State (List Target)
  list_targets sess s = record_call listed_targets (cl.list_targets s.history sess) s

  unfoldable pub list_snapshots : ℕ → ℤ → Io State (List QnapSnapshot)
  list_snapshots sess i s = record_call (listed_snapshots i) (cl.list_snapshots s.history sess i) s

  unfoldable pub get_pool : ℕ → ℤ → Io State ℤ
  get_pool sess i s = record_call (got_pool i) (cl.get_pool s.history sess i) s

  unfoldable pub create_lun : ℕ → LunRequest → Io State ℤ
  create_lun sess r s = record_call (created_lun r) (cl.create_lun s.history sess r) s

  unfoldable pub create_target : ℕ → Text → List ℤ → Io State ℤ
  create_target sess name ifs s =
      record_call (created_target name ifs) (cl.create_target s.history sess name ifs) s

  unfoldable pub unmap_lun : ℕ → ℤ → ℤ → Io State (Unit {0})
  unmap_lun sess i t s = record_call (unmapped_lun i t) (cl.unmap_lun s.history sess i t) s

  unfoldable pub delete_lun : ℕ → ℤ → Io State (Unit {0})
  delete_lun sess i s = record_call (deleted_lun i) (cl.delete_lun s.history sess i) s

  unfoldable pub wait_for_lun_gone : ℕ → ℤ → Io State (Unit {0})
  wait_for_lun_gone sess i s =
      record_call (awaited_lun_gone i) (cl.wait_for_lun_gone s.history sess i) s

  unfoldable pub resize_lun : ℕ → ℤ → ℕ → Io State (Unit {0})
  resize_lun sess i n s = record_call (resized_lun i n) (cl.resize_lun s.history sess i n) s

  unfoldable pub wait_for_resize : ℕ → ℤ → ℕ → Io State (Unit {0})
  wait_for_resize sess i n s =
      record_call (awaited_resize i n) (cl.wait_for_resize s.history sess i n) s

  unfoldable pub delete_target : ℕ → ℤ → Io State (Unit {0})
  delete_target sess i s = record_call (deleted_target i) (cl.delete_target s.history sess i) s

  unfoldable pub create_snapshot : ℕ → ℤ → Text → Io State QnapSnapshot
  create_snapshot sess i name s =
      record_call (created_snapshot i name) (cl.create_snapshot s.history sess i name) s

  unfoldable pub delete_snapshot : ℕ → ℤ → Io State (Unit {0})
  delete_snapshot sess i s =
      record_call (deleted_snapshot i) (cl.delete_snapshot s.history sess i) s

  unfoldable pub wait_for_snapshot_gone : ℕ → ℤ → ℤ → Io State (Unit {0})
  wait_for_snapshot_gone sess i n s =
      record_call (awaited_snapshot_gone i n) (cl.wait_for_snapshot_gone s.history sess i n) s
