-- ===== src/Qnap/Session/Yields.antt =====
-- What a successful `sessionManager.do` shows: what holds of the last attempt's answer.
use nomad_csi_driver.Base.{ℕ, Bool-cases, inl, inr}
use nomad_csi_driver.Driver.Errors.{Result, ok, err, Io}
use nomad_csi_driver.Qnap.Appliance.{Client}
use nomad_csi_driver.Qnap.Session.{
  State, get_session, with_session, retry, first_try, in_session, is_auth_error,
}

module _ {A : Type 0} (Q : A → State → Type 0) where
  -- An answer, and the state that it leaves.
  abbrev pub Post : Result A × State → Type 0
  Post r = elim r.0 [ ok a ↦ Q a r.1 | err e ↦ Unit ]

  module _ (cl : Client) (fn : ℕ → Io State A) (each : (n : ℕ) (s : State) → Post (fn n s)) where
    with_session-Post : (r : Result ℕ × State) → Post (with_session cl r fn)
    unfolding with_session
    with_session-Post (err e, s) = tt
    with_session-Post (ok n, s) = each n s

    retry-Post : (r : Result A × State) → Post r → Post (retry cl fn r)
    unfolding retry
    retry-Post (ok a, s) h = h
    retry-Post (err e, s) h = elim (Bool-cases (is_auth_error e)) [
      | inl auth ↦ rw auth (with_session-Post (get_session cl (record s { session = 0 })))
      | inr other ↦ rw other tt
    ]

    first_try-Post : (r : Result ℕ × State) → Post (first_try cl fn r)
    unfolding first_try
    first_try-Post (err e, s) = tt
    first_try-Post (ok n, s) = retry-Post (fn n s) (each n s)

    pub in_session-Post : (s : State) → Post (in_session cl fn s)
    unfolding in_session
    in_session-Post s = first_try-Post (get_session cl s)
